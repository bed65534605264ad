-- ===== src/Bch/Reader.antt =====
-- internal/bch/bchtx.go, the byte reader. `int` is 64 bits wide: a number `n` stands for its bit
-- pattern, so that `n < 0` reads 2 ^ 63 ≤ n and a sum wraps modulo 2 ^ 64. A slice expression
-- whose bounds are out of order is a run-time panic.
pub mod Reads
use freedom_names.Common.{
  ℕ, ◌+◌, ◌%◌, ◌^◌, Bool, List, [], ◌∷◌, leb, ltb, ◌==◌, if◌then◌else◌, length, take, drop, get_or,
}
use freedom_names.Bch.Encode.{un_le}

-- The last is no error of the code: the fuel of a loop is out, and the loop has not ended.
pub data Error : Type 0 where
  short_buffer reserved_bit bad_commitment_length : Error
  bad_category commitment_too_long empty_token bad_capability key_count out_of_fuel : Error

-- Go's (value, error) pair, and the panic.
pub data Outcome {ℓ} (A : Type ℓ) : Type ℓ where
  ok : A → Outcome A
  err : Error → Outcome A
  panic : Outcome A

pub record ByteReader : Type 0 where
  pub buf : List ℕ
  pub pos : ℕ

-- A method of the reader returns the reader after it.
abbrev pub Reading {ℓ} : Type ℓ → Type ℓ
Reading A = ByteReader → Outcome (A × ByteReader)

infixl 5 ◌>>=◌ ◌>>◌
abbrev pub ◌>>=◌ {ℓ κ} : {A : Type ℓ} {B : Type κ} → Reading A → (A → Reading B) → Reading B
◌>>=◌ m f r = elim (m r) [ ok (a, r') ↦ f a r' | err e ↦ err e | panic ↦ panic ]

abbrev pub ◌>>◌ {ℓ κ} : {A : Type ℓ} {B : Type κ} → Reading A → Reading B → Reading B
m >> k = m >>= λ _. k

abbrev pub return {ℓ} : {A : Type ℓ} → A → Reading A
return a r = ok (a, r)

abbrev pub fail {ℓ} : {A : Type ℓ} → Error → Reading A
fail e r = err e

-- `n < 0` of an `int`.
abbrev pub is_negative : ℕ → Bool
is_negative n = leb (2 ^ 63) n

unfoldable pub read_byte : Reading ℕ
read_byte r =
    if leb (length r.buf) r.pos
    then err short_buffer
    else ok (get_or r.buf r.pos 0, record r { pos = r.pos + 1 })

-- `r.pos+n` wraps: where the sum is negative the guard passes, and the slice panics.
unfoldable pub read_bytes : ℕ → Reading (List ℕ)
read_bytes n r =
    let end = (r.pos + n) % 2 ^ 64 in
    if is_negative n
    then err short_buffer
    else if is_negative end
    then panic
    else if ltb (length r.buf) end
    then err short_buffer
    else ok (take n (drop r.pos r.buf), record r { pos = end })

unfoldable pub read_uint32 : Reading ℕ
read_uint32 = do b ← read_bytes 4; return (un_le b)

-- An int64 is its bit pattern.
unfoldable pub read_int64 : Reading ℕ
read_int64 = do b ← read_bytes 8; return (un_le b)

-- The switch of readVarInt on the first byte.
unfoldable pub read_var_int_from : ℕ → Reading ℕ
read_var_int_from b =
    if b == 0xfd
    then (do v ← read_bytes 2; return (un_le v))
    else if b == 0xfe
    then (do v ← read_bytes 4; return (un_le v))
    else if b == 0xff
    then (do v ← read_bytes 8; return (un_le v))
    else return b

unfoldable pub read_var_int : Reading ℕ
read_var_int = do b ← read_byte; read_var_int_from b

unfoldable pub read_var_bytes : Reading (List ℕ)
read_var_bytes = do n ← read_var_int; read_bytes n
