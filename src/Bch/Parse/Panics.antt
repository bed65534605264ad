-- ===== src/Bch/Parse/Panics.antt =====
-- Where the reader of bchtx.go panics, and that OP_RETURN scripts never make it.
use freedom_names.Common.{
  ℕ, suc, ◌+◌, ◌^◌, ◌<◌, ◌≤◌, ◌≡◌, ◌↔◌, refl, subst, List, [], ◌++◌, append-nil, append_assoc,
  arith, length,
}
use freedom_names.Bch.Encode.{le, put_var_int, IsU64}
use freedom_names.Bch.Encode.Bounds.{length-le, length-put_var_int, length-put_var_int_wide}
use freedom_names.Bch.Reader.{
  panic, ByteReader, Reading, ◌>>=◌, read_bytes, read_uint32, read_var_int, read_var_bytes,
}
use freedom_names.Bch.Reader.Reads.{
  Reads, At, advance, At-advance, read_bytes-Reads, read_uint32-Reads, read_var_int-Reads,
}
use freedom_names.Bch.Parse.{read_input, read_inputs, read_tx, parse_tx}

-- A slice fits the address space, and a reader stands inside it.
abbrev Stands : ByteReader → Type 0
Stands r = (r.pos ≤ length r.buf) × (length r.buf < 2 ^ 63)

-- For a reader within a buffer of fewer than 2 ^ 63 bytes and a 64-bit length, reading panics
-- exactly when the length is less than 2 ^ 63 and the position plus the length is at least 2 ^ 63.
pub read_bytes-panic_iff :
    (r : ByteReader) (n : ℕ)
    → Stands r
    → IsU64 n
    → (read_bytes n r ≡ panic) ↔ ((n < 2 ^ 63) × (2 ^ 63 ≤ r.pos + n))
unfolding read_bytes
read_bytes-panic_iff r n s h = (λ e. ground arith, λ p. ground arith)

-- `m` panics on the bytes `xs` at any position from `p` on.
abbrev Panics {ℓ} : {A : Type ℓ} → ℕ → Reading A → List ℕ → Type ℓ
Panics p m xs = (r : ByteReader) (rest : List ℕ) → p ≤ r.pos → At r (xs ++ rest) → m r ≡ panic

Panics-bind {ℓ κ} :
    {A : Type ℓ} {B : Type κ} (p q : ℕ) (m : Reading A) (f : A → Reading B) (xs ys : List ℕ) (a : A)
    → Reads m xs a
    → q ≤ p + length xs
    → Panics q (f a) ys
    → Panics p (m >>= f) (xs ++ ys)
Panics-bind p q m f xs ys a hm le hf r rest hp at =
    let there : At r (xs ++ (ys ++ rest)) = subst (At r) (append_assoc xs ys rest) at in
    rw (
      hm r (ys ++ rest) there,
      ◌>>=◌,
      hf (advance r (length xs)) rest (omega arith) (At-advance r xs (ys ++ rest) there),
    )

Panics-first {ℓ κ} :
    {A : Type ℓ} {B : Type κ} (p : ℕ) (m : Reading A) (f : A → Reading B) (xs : List ℕ)
    → Panics p m xs
    → Panics p (m >>= f) xs
Panics-first p m f xs h r rest hp at = rw (h r rest hp at, ◌>>=◌)

read_bytes-Panics : (p n : ℕ) → n < 2 ^ 63 → 2 ^ 63 ≤ p + n → Panics p (read_bytes n) []
read_bytes-Panics p n small over r rest hp at =
    (read_bytes-panic_iff r n (at.within, at.small) (omega arith)).1 (small, omega arith)

module _ (n : ℕ) (small : n < 2 ^ 63) (huge : 2 ^ 63 ≤ 50 + n) where
  read_var_bytes-Panics : Panics 41 read_var_bytes (put_var_int n)
  unfolding read_var_bytes
  read_var_bytes-Panics = subst (Panics 41 read_var_bytes) (append-nil (put_var_int n)) (
      Panics-bind 41 50 read_var_int read_bytes (put_var_int n) [] n
        (read_var_int-Reads n (omega arith))
        (omega (arith, length-put_var_int_wide n (omega arith)))
        (read_bytes-Panics 50 n small huge))

  read_input-Panics :
      (prev : List ℕ) (i : ℕ)
      → length prev ≡ 32
      → i < 2 ^ 32
      → Panics 5 read_input (prev ++ (le 4 i ++ put_var_int n))
  unfolding read_input
  read_input-Panics prev i e h =
      Panics-bind 5 37 (read_bytes 32) _ prev _ prev (read_bytes-Reads 32 prev e) (omega arith) (
        Panics-bind 37 41 read_uint32 _ (le 4 i) _ i (read_uint32-Reads i h)
          (omega (arith, length-le 4 i))
          (Panics-first 41 read_var_bytes _ (put_var_int n) read_var_bytes-Panics))

-- A version, an input count, and a first input up to the length of its unlocking script.
abbrev pub first_input_bytes : ℕ → ℕ → List ℕ → ℕ → ℕ → List ℕ
first_input_bytes version k prev i n =
    le 4 version ++ (put_var_int (suc k) ++ (prev ++ (le 4 i ++ put_var_int n)))

-- A raw transaction that starts with a version, a positive count of inputs, an outpoint and a
-- script length of 2 ^ 63 - 50 to 2 ^ 63 - 1, shorter than 2 ^ 63 bytes in all, makes the parser
-- panic, whatever follows.
pub parse_tx-panic :
    (version k i n : ℕ) (prev rest : List ℕ)
    → version < 2 ^ 32
    → suc k < 2 ^ 64
    → length prev ≡ 32
    → i < 2 ^ 32
    → n < 2 ^ 63
    → 2 ^ 63 ≤ 50 + n
    → length (first_input_bytes version k prev i n ++ rest) < 2 ^ 63
    → parse_tx (first_input_bytes version k prev i n ++ rest) ≡ panic
unfolding read_tx read_inputs parse_tx
parse_tx-panic version k i n prev rest hv hk hp hi hn huge small =
    let raw : List ℕ = first_input_bytes version k prev i n ++ rest in
    let r : ByteReader = record { buf = raw; pos = 0 } in
    let at : At r raw = record { within = omega arith; small = small; left = refl } in
    let step : read_tx r ≡ panic =
      Panics-bind 0 4 read_uint32 _ (le 4 version) _ version (read_uint32-Reads version hv)
        (omega (arith, length-le 4 version))
        (Panics-bind 4 5 read_var_int _ (put_var_int (suc k)) _ (suc k)
          (read_var_int-Reads (suc k) hk) (omega (arith, length-put_var_int (suc k)))
          (Panics-first 5 (read_inputs (suc k)) _ (prev ++ (le 4 i ++ put_var_int n)) (
            Panics-first 5 read_input _ (prev ++ (le 4 i ++ put_var_int n))
              (read_input-Panics n hn huge prev i hp hi))))
        r rest (omega arith) at in
    rw (step, parse_tx)
