-- ===== src/Bch/Encode.antt =====
-- internal/bch/bchtx.go, the low-level encoders and the script builders. A byte slice is a list of
-- numbers; a function that writes into a bytes.Buffer is given by the bytes that it appends.
pub mod Bounds
use freedom_names.Common.{
  ℕ, zero, suc, ◌+◌, ◌*◌, ◌/◌, ◌%◌, ◌^◌, ◌<◌, Bool, List, [], ◌∷◌, ◌++◌, ltb, leb, if◌then◌else◌,
  length,
}
use mathlib.Core.List.{foldl}

abbrev pub IsByte : ℕ → Type 0
IsByte b = b < 256

abbrev pub IsU64 : ℕ → Type 0
IsU64 n = n < 2 ^ 64

-- binary.Write in little-endian order of a `k`-byte integer.
unfoldable pub le : ℕ → ℕ → List ℕ
le zero n = []
le (suc k) n = (n % 256) ∷ le k (n / 256)

-- binary.LittleEndian.Uint16, Uint32, Uint64.
unfoldable pub un_le : List ℕ → ℕ
un_le [] = 0
un_le (b ∷ bs) = b + 256 * un_le bs

-- CompactSize.
unfoldable pub put_var_int : ℕ → List ℕ
put_var_int n =
    if ltb n 0xfd
    then (n % 256) ∷ []
    else if leb n 0xffff
    then 0xfd ∷ le 2 (n % 2 ^ 16)
    else if leb n 0xffff_ffff
    then 0xfe ∷ le 4 (n % 2 ^ 32)
    else 0xff ∷ le 8 n

unfoldable pub put_var_bytes : List ℕ → List ℕ
put_var_bytes b = put_var_int (length b) ++ b

abbrev pub op_dup : ℕ
op_dup = 0x76

abbrev pub op_hash160 : ℕ
op_hash160 = 0xa9

abbrev pub op_equal_verify : ℕ
op_equal_verify = 0x88

abbrev pub op_check_sig : ℕ
op_check_sig = 0xac

abbrev pub op_return : ℕ
op_return = 0x6a

abbrev pub op_push_data1 : ℕ
op_push_data1 = 0x4c

abbrev pub op_push_data2 : ℕ
op_push_data2 = 0x4d

unfoldable pub p2pkh_script : List ℕ → List ℕ
p2pkh_script pub_key_hash =
    (op_dup ∷ op_hash160 ∷ (length pub_key_hash % 256) ∷ [])
    ++ (pub_key_hash ++ (op_equal_verify ∷ op_check_sig ∷ []))

-- The opcode and length bytes of a push of `n` bytes; `byte(n>>8)` keeps the low byte only.
unfoldable pub push_header : ℕ → List ℕ
push_header n =
    if ltb n op_push_data1
    then (n % 256) ∷ []
    else if leb n 0xff
    then op_push_data1 ∷ (n % 256) ∷ []
    else op_push_data2 ∷ (n % 256) ∷ (n / 256 % 256) ∷ []

unfoldable pub append_push : List ℕ → List ℕ → List ℕ
append_push s p = (s ++ push_header (length p)) ++ p

unfoldable pub op_return_script : List (List ℕ) → List ℕ
op_return_script pushes = foldl append_push (op_return ∷ []) pushes

unfoldable pub reverse_bytes : List ℕ → List ℕ
reverse_bytes [] = []
reverse_bytes (b ∷ bs) = reverse_bytes bs ++ (b ∷ [])
