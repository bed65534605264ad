-- ===== src/Bch/Token.antt =====
-- internal/bch/bchtx.go, CashTokens prefixes: validation, the encoder and the parser.
pub mod Flags
pub mod RoundTrip
use freedom_names.Common.{
  ℕ, ◌+◌, ◌*◌, ◌/◌, ◌%◌, ◌^◌, ◌<◌, bit_and, bit_or, Bool, List, [], ◌∷◌, ◌++◌, Option, none, some,
  true, false, not, ◌&&◌, ◌||◌, leb, ltb, ◌==◌, if◌then◌else◌, length, take, drop, get_or,
}
use freedom_names.Bch.Encode.{put_var_int}
use freedom_names.Bch.Reader.{
  Outcome, ok, err, panic, Error, short_buffer, reserved_bit, bad_commitment_length, bad_category,
  commitment_too_long, empty_token, bad_capability, ByteReader, Reading, ◌>>=◌, ◌>>◌, return, fail,
  read_byte, read_bytes, read_var_int,
}

abbrev pub token_prefix_byte : ℕ
token_prefix_byte = 0xef

abbrev pub token_has_commitment_len : ℕ
token_has_commitment_len = 0x40

abbrev pub token_has_nft : ℕ
token_has_nft = 0x20

abbrev pub token_has_amount : ℕ
token_has_amount = 0x10

abbrev pub token_capability_none : ℕ
token_capability_none = 0x00

abbrev pub token_capability_mutable : ℕ
token_capability_mutable = 0x01

abbrev pub token_capability_minting : ℕ
token_capability_minting = 0x02

abbrev pub max_commitment_len : ℕ
max_commitment_len = 40

pub record TokenInfo : Type 0 where
  pub category_id : List ℕ
  pub capability : ℕ
  pub commitment : List ℕ
  pub amount : ℕ

-- `len(t.Commitment) > 0`
abbrev pub has_commitment : TokenInfo → Bool
has_commitment t = ltb 0 (length t.commitment)

-- `t.Capability != tokenCapabilityNone || len(t.Commitment) > 0`
abbrev pub has_nft : TokenInfo → Bool
has_nft t = not (t.capability == token_capability_none) || has_commitment t

-- The error of `validate`, if there is one.
unfoldable pub validate : TokenInfo → Option Error
validate t =
    if not (length t.category_id == 32)
    then some bad_category
    else if ltb max_commitment_len (length t.commitment)
    then some commitment_too_long
    else if not (has_nft t) && t.amount == 0
    then some empty_token
    else if t.capability == token_capability_none
        || (t.capability == token_capability_mutable || t.capability == token_capability_minting)
    then none
    else some bad_capability

-- `bitfield |= flag` under a test.
abbrev pub or_flag : ℕ → Bool → ℕ → ℕ
or_flag bits test flag = if test then bit_or bits flag else bits

unfoldable pub token_bitfield : TokenInfo → ℕ
token_bitfield t =
    let nft = or_flag 0 (has_nft t) token_has_nft in
    let commitment = or_flag nft (has_commitment t) token_has_commitment_len in
    let amount = or_flag commitment (ltb 0 t.amount) token_has_amount in
    bit_or amount (bit_and t.capability 0x0f)

unfoldable pub encode_commitment : TokenInfo → List ℕ
encode_commitment t =
    if has_commitment t then put_var_int (length t.commitment) ++ t.commitment else []

unfoldable pub encode_amount : TokenInfo → List ℕ
encode_amount t = if ltb 0 t.amount then put_var_int t.amount else []

unfoldable pub encode_token_prefix : TokenInfo → List ℕ
encode_token_prefix t =
    (token_prefix_byte ∷ [])
    ++ (t.category_id ++ ((token_bitfield t ∷ []) ++ (encode_commitment t ++ encode_amount t)))

-- `bitfield & flag != 0`
abbrev pub has_flag : ℕ → ℕ → Bool
has_flag bits flag = not (bit_and bits flag == 0)

-- The commitment of the length that was read.
unfoldable pub read_commitment_of : ℕ → Reading (List ℕ)
read_commitment_of n =
    if n == 0 || ltb max_commitment_len n then fail bad_commitment_length else read_bytes n

-- The commitment, which is empty without its flag.
unfoldable pub read_commitment : ℕ → Reading (List ℕ)
read_commitment bits =
    if has_flag bits token_has_commitment_len
    then (do n ← read_var_int; read_commitment_of n)
    else return []

unfoldable pub read_amount : ℕ → Reading ℕ
read_amount bits = if has_flag bits token_has_amount then read_var_int else return 0

unfoldable pub read_token_fields : List ℕ → ℕ → Reading TokenInfo
read_token_fields category bits = do
  commitment ← read_commitment bits
  amount ← read_amount bits
  return (record {
    category_id = category;
    capability = if has_flag bits token_has_nft then bit_and bits 0x0f else 0;
    commitment = commitment;
    amount = amount;
  })

unfoldable pub read_token : Reading TokenInfo
read_token = do
  category ← read_bytes 32
  bits ← read_byte
  if has_flag bits 0x80 then fail reserved_bit else read_token_fields category bits

-- The prefix, if there is one, and the locking bytecode behind it.
unfoldable pub split_token_prefix : List ℕ → Outcome (Option TokenInfo × List ℕ)
split_token_prefix wrapped =
    if length wrapped == 0 || not (get_or wrapped 0 0 == token_prefix_byte)
    then ok (none, wrapped)
    else elim (read_token (record { buf = wrapped; pos = 1 })) [
      | ok (t, r) ↦ ok (some t, drop r.pos wrapped)
      | err e ↦ err e
      | panic ↦ panic
    ]
