-- ===== src/Bch/Token/Flags.antt =====
-- The bit field of a token prefix: what `encode_token_prefix` sets is what `split_token_prefix`
-- tests.
use freedom_names.Common.{
  ℕ, zero, suc, ◌<◌, ◌≤◌, ◌≡◌, refl, bit_and, bit_or, Bool, true, false, none, arith, length, ltb,
}
use freedom_names.Bch.Token.{
  TokenInfo, validate, has_flag, has_nft, has_commitment, or_flag, token_bitfield,
}

-- What validation leaves.
pub validate-none :
    (t : TokenInfo)
    → validate t ≡ none
    → (length t.category_id ≡ 32) × (length t.commitment ≤ 40) × (t.capability < 3)
unfolding validate
validate-none t h = ground arith

-- The bits of the field in terms of the three tests.
abbrev bits_of : Bool → Bool → Bool → ℕ → ℕ
bits_of nft commitment amount cap =
    bit_or (or_flag (or_flag (or_flag 0 nft 0x20) commitment 0x40) amount 0x10) (bit_and cap 0x0f)

-- The tests of the parser give back the three tests and the capability.
abbrev pub Decodes : ℕ → Bool → Bool → Bool → ℕ → Type 0
Decodes bits nft commitment amount cap =
    (has_flag bits 0x80 ≡ false)
    × (has_flag bits 0x20 ≡ nft)
    × (has_flag bits 0x40 ≡ commitment)
    × (has_flag bits 0x10 ≡ amount)
    × (bit_and bits 0x0f ≡ cap)

three_cases : (P : ℕ → Type 0) (n : ℕ) → n < 3 → P 0 → P 1 → P 2 → P n
three_cases P zero h a b c = a
three_cases P (suc zero) h a b c = b
three_cases P (suc (suc zero)) h a b c = c
three_cases P (suc (suc (suc n))) h a b c = absurd (omega arith)

abbrev Decoded : Bool → Bool → Bool → ℕ → Type 0
Decoded nft commitment amount cap =
    Decodes (bits_of nft commitment amount cap) nft commitment amount cap

bits_decode : (nft commitment amount : Bool) (cap : ℕ) → cap < 3 → Decoded nft commitment amount cap
bits_decode false false false cap h =
    three_cases (Decoded false false false) cap h (refl, refl, refl, refl, refl)
      (refl, refl, refl, refl, refl) (refl, refl, refl, refl, refl)
bits_decode false false true cap h =
    three_cases (Decoded false false true) cap h (refl, refl, refl, refl, refl)
      (refl, refl, refl, refl, refl) (refl, refl, refl, refl, refl)
bits_decode false true false cap h =
    three_cases (Decoded false true false) cap h (refl, refl, refl, refl, refl)
      (refl, refl, refl, refl, refl) (refl, refl, refl, refl, refl)
bits_decode false true true cap h =
    three_cases (Decoded false true true) cap h (refl, refl, refl, refl, refl)
      (refl, refl, refl, refl, refl) (refl, refl, refl, refl, refl)
bits_decode true false false cap h =
    three_cases (Decoded true false false) cap h (refl, refl, refl, refl, refl)
      (refl, refl, refl, refl, refl) (refl, refl, refl, refl, refl)
bits_decode true false true cap h =
    three_cases (Decoded true false true) cap h (refl, refl, refl, refl, refl)
      (refl, refl, refl, refl, refl) (refl, refl, refl, refl, refl)
bits_decode true true false cap h =
    three_cases (Decoded true true false) cap h (refl, refl, refl, refl, refl)
      (refl, refl, refl, refl, refl) (refl, refl, refl, refl, refl)
bits_decode true true true cap h =
    three_cases (Decoded true true true) cap h (refl, refl, refl, refl, refl)
      (refl, refl, refl, refl, refl) (refl, refl, refl, refl, refl)

pub token_bitfield-decode :
    (t : TokenInfo)
    → t.capability < 3
    → Decodes (token_bitfield t) (has_nft t) (has_commitment t) (ltb 0 t.amount) t.capability
unfolding token_bitfield
token_bitfield-decode t h =
    bits_decode (has_nft t) (has_commitment t) (ltb 0 t.amount) t.capability h
