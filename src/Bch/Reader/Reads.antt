-- ===== src/Bch/Reader/Reads.antt =====
-- What the reader of bchtx.go does on bytes that an encoder of the same file wrote.
use freedom_names.Common.{
  ℕ, ◌+◌, ◌%◌, ◌^◌, ◌<◌, ◌≤◌, ◌≡◌, refl, ap, subst, ◌∙◌, List, [], ◌∷◌, ◌++◌, arith, length,
  length-append, drop, take-append, drop-append, drop-add, length-drop, Bool-cases, ltb, leb, inl,
  inr, ltb→lt, leb→le, get_or-drop, append-nil, append_assoc,
}
use freedom_names.Bch.Encode.{le, un_le, put_var_int, put_var_bytes, IsU64}
use freedom_names.Bch.Encode.Bounds.{length-put_var_bytes, length-le, un_le-le}
use freedom_names.Bch.Reader.{
  ByteReader, ok, Reading, ◌>>=◌, return, read_byte, read_bytes, read_uint32, read_int64,
  read_var_int, read_var_int_from, read_var_bytes,
}

-- The reader stands before `rest`, the last bytes of a Go slice.
pub record At (r : ByteReader) (rest : List ℕ) : Type 0 where
  pub within : r.pos ≤ length r.buf
  pub small : length r.buf < 2 ^ 63
  pub left : drop r.pos r.buf ≡ rest

abbrev pub advance : ByteReader → ℕ → ByteReader
advance r k = record r { pos = r.pos + k }

pub At-room : (r : ByteReader) (rest : List ℕ) → At r rest → r.pos + length rest ≡ length r.buf
At-room r rest a = omega (arith, ap length a.left, length-drop r.pos r.buf, a.within)

pub At-advance :
    (r : ByteReader) (xs rest : List ℕ) → At r (xs ++ rest) → At (advance r (length xs)) rest
At-advance r xs rest a = record {
  within = omega (arith, At-room r (xs ++ rest) a, length-append xs rest);
  small = a.small;
  left =
      drop-add r.pos (length xs) r.buf
      ∙ ap (drop (length xs)) a.left
      ∙ drop-append (length xs) xs rest refl;
}

-- `m` takes the bytes `xs` off the input, whatever follows them, and returns `v`.
abbrev pub Reads {ℓ} : {A : Type ℓ} → Reading A → List ℕ → A → Type ℓ
Reads m xs v =
    (r : ByteReader) (rest : List ℕ) → At r (xs ++ rest) → m r ≡ ok (v, advance r (length xs))

pub Reads-return {ℓ} : {A : Type ℓ} (a : A) → Reads (return a) [] a
Reads-return a r rest at = ground arith

pub Reads-bind {ℓ κ} :
    {A : Type ℓ} {B : Type κ} (m : Reading A) (f : A → Reading B) (xs ys : List ℕ) (a : A) (b : B)
    → Reads m xs a
    → Reads (f a) ys b
    → Reads (m >>= f) (xs ++ ys) b
Reads-bind m f xs ys a b hm hf r rest at =
    let there : At r (xs ++ (ys ++ rest)) = subst (At r) (append_assoc xs ys rest) at in
    rw
      (
        hm r (ys ++ rest) there,
        ◌>>=◌,
        hf (advance r (length xs)) rest (At-advance r xs (ys ++ rest) there),
        length-append xs ys,
      )
      (ground arith)

-- The last step of a `do` block.
pub Reads-map {ℓ κ} :
    {A : Type ℓ} {B : Type κ} (m : Reading A) (f : A → B) (xs : List ℕ) (a : A)
    → Reads m xs a
    → Reads (m >>= λ x. return (f x)) xs (f a)
Reads-map m f xs a h r rest at = rw (h r rest at, ◌>>=◌)

-- A last step that reads nothing.
pub Reads-then {ℓ κ} :
    {A : Type ℓ} {B : Type κ} (m : Reading A) (f : A → Reading B) (xs : List ℕ) (a : A) (b : B)
    → Reads m xs a
    → Reads (f a) [] b
    → Reads (m >>= f) xs b
Reads-then m f xs a b hm hf =
    subst (λ (bs : List ℕ). Reads (m >>= f) bs b) (append-nil xs) (Reads-bind m f xs [] a b hm hf)

pub read_byte-Reads : (b : ℕ) → Reads read_byte (b ∷ []) b
unfolding read_byte
read_byte-Reads b r rest at =
    ground (arith, At-room r (b ∷ rest) at, get_or-drop r.pos r.buf 0, at.left)

pub read_bytes-Reads : (n : ℕ) (xs : List ℕ) → length xs ≡ n → Reads (read_bytes n) xs xs
unfolding read_bytes
read_bytes-Reads n xs e r rest at = ground (
  arith,
  At-room r (xs ++ rest) at,
  length-append xs rest,
  at.left,
  at.small,
  take-append n xs rest e,
)

read_word-Reads : (k n : ℕ) → n < 256 ^ k → Reads (do b ← read_bytes k; return (un_le b)) (le k n) n
read_word-Reads k n h r rest at =
    ground (arith, read_bytes-Reads k (le k n) (length-le k n) r rest at, un_le-le k n h)

pub read_uint32-Reads : (n : ℕ) → n < 2 ^ 32 → Reads read_uint32 (le 4 n) n
unfolding read_uint32
read_uint32-Reads n h = read_word-Reads 4 n (omega arith)

pub read_int64-Reads : (n : ℕ) → IsU64 n → Reads read_int64 (le 8 n) n
unfolding read_int64
read_int64-Reads n h = read_word-Reads 8 n (omega arith)

read_tagged-Reads :
    (tag : ℕ) (body : List ℕ) (n : ℕ)
    → Reads (read_var_int_from tag) body n
    → Reads read_var_int (tag ∷ body) n
unfolding read_var_int
read_tagged-Reads tag body n h =
    Reads-bind read_byte read_var_int_from (tag ∷ []) body tag n (read_byte-Reads tag) h

read_small-Reads : (n : ℕ) → n < 0xfd → Reads (read_var_int_from n) [] n
unfolding read_var_int_from
read_small-Reads n h r rest at = ground (arith, Reads-return n r rest at)

pub read_var_int-Reads : (n : ℕ) → IsU64 n → Reads read_var_int (put_var_int n) n
unfolding put_var_int read_var_int_from
read_var_int-Reads n h = elim (Bool-cases (ltb n 0xfd)) [
  | inl e ↦
      let small : n < 0xfd = ltb→lt n 0xfd e in
      let low : n % 256 ≡ n = omega arith in
      rw (e, low) (read_tagged-Reads n [] n (read_small-Reads n small))
  | inr e ↦ elim (Bool-cases (leb n 0xffff)) [
    | inl f ↦
        let le16 : n ≤ 0xffff = leb→le n 0xffff f in
        let low : n % 2 ^ 16 ≡ n = omega arith in
        rw (e, f, low) (read_tagged-Reads 0xfd (le 2 n) n (read_word-Reads 2 n (omega arith)))
    | inr f ↦ elim (Bool-cases (leb n 0xffff_ffff)) [
      | inl g ↦
          let le32 : n ≤ 0xffff_ffff = leb→le n 0xffff_ffff g in
          let low : n % 2 ^ 32 ≡ n = omega arith in
          rw (e, f, g, low) (read_tagged-Reads 0xfe (le 4 n) n (read_word-Reads 4 n (omega arith)))
      | inr g ↦ rw (e, f, g) (read_tagged-Reads 0xff (le 8 n) n (read_word-Reads 8 n h))
    ]
  ]
]

-- A byte string that stands on the input is short enough for its length field.
pub read_var_bytes-Reads : (xs : List ℕ) → Reads read_var_bytes (put_var_bytes xs) xs
unfolding read_var_bytes
read_var_bytes-Reads xs r rest at =
    let fits : IsU64 (length xs) = omega (
      arith,
      At-room r (put_var_bytes xs ++ rest) at,
      length-append (put_var_bytes xs) rest,
      length-put_var_bytes xs,
      at.small,
    ) in
    unfold put_var_bytes in
    Reads-bind read_var_int read_bytes (put_var_int (length xs)) xs (length xs) xs
      (read_var_int-Reads (length xs) fits) (read_bytes-Reads (length xs) xs refl) r rest at
