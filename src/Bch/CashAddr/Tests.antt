-- ===== src/Bch/CashAddr/Tests.antt =====
-- The vectors of internal/bch/cashaddr_test.go.
use freedom_names.Common.{ℕ, ◌≡◌, refl, List, [], ◌∷◌, some, ◌<◌, arith, All, Bool, true, ltb, ◌&&◌}
use freedom_names.Bch.CashAddr.Spec.{human_prefix, decode_cash_addr}
use freedom_names.Bch.CashAddr.Decode.{decode_cash_addr-encode_cash_addr}
use freedom_names.Common.Texts.{codes}
use freedom_names.Record.Ip.{hex_digit, is_digit}
use freedom_names.Bch.CashAddr.{
  cash_addr_p2pkh, cash_addr_prefix, mix, mix_all, polymod_step, polymod_from, polymod, emit,
  regroup, convert_bits, low_bits, checksum_from, checksum, symbols, encode_cash_addr, decode_hex,
  octet_of, decode_hex_lenient, must_decode_hex, octet_of,
}

spec_vector :
    encode_cash_addr "mainnet" cash_addr_p2pkh
      (must_decode_hex (codes "76A04053BDA0A88BDA5177B86A15C3B29F559873"))
    ≡ codes "bitcoincash:qpm2qsznhks23z7629mms6s4cwef74vcwvy22gdx6a"
unfolding cash_addr_prefix mix mix_all polymod_step polymod_from polymod emit regroup convert_bits
    low_bits checksum_from checksum symbols encode_cash_addr octet_of decode_hex decode_hex_lenient
    must_decode_hex hex_digit is_digit
spec_vector = refl

second_vector :
    encode_cash_addr "mainnet" cash_addr_p2pkh
      (must_decode_hex (codes "011F28E473C95F4013D7D53EC5FBC3B42DF8ED10"))
    ≡ codes "bitcoincash:qqq3728yw0y47sqn6l2na30mcw6zm78dzqre909m2r"
unfolding cash_addr_prefix mix mix_all polymod_step polymod_from polymod emit regroup convert_bits
    low_bits checksum_from checksum symbols encode_cash_addr octet_of decode_hex decode_hex_lenient
    must_decode_hex hex_digit is_digit
second_vector = refl

-- The hash of the second vector.
abbrev second_hash : List ℕ
second_hash =
    1 ∷ 31 ∷ 40 ∷ 228 ∷ 115 ∷ 201 ∷ 95 ∷ 64 ∷ 19 ∷ 215 ∷ 213 ∷ 62 ∷ 197 ∷ 251 ∷ 195 ∷ 180 ∷ 45 ∷ 248
    ∷ 237 ∷ 16 ∷ []

abbrev all_small : List ℕ → Bool
all_small [] = true
all_small (b ∷ bs) = ltb b 256 && all_small bs

all_small-All : (bs : List ℕ) → all_small bs ≡ true → All (λ b. b < 256) bs
all_small-All [] e = tt
all_small-All (b ∷ bs) e = (ground (arith, e), all_small-All bs (ground (arith, e)))

decode_cash_addr-encode_cash_addr_example :
    decode_cash_addr (encode_cash_addr "mainnet" 0 second_hash)
    ≡ some (human_prefix "mainnet", 0, second_hash)
decode_cash_addr-encode_cash_addr_example =
    decode_cash_addr-encode_cash_addr "mainnet" 0 second_hash (omega arith)
      (all_small-All second_hash refl) refl
