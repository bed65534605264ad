-- ===== src/Bch/CashAddr/Spec.antt =====
-- The CashAddr specification, as a decoder of addresses of 160 bits: the prefix up to the colon, symbols
-- of five bits, eight of them a checksum that brings PolyMod to zero, and in the bits of the others a
-- version byte and the hash, with less than five zeros behind. It shares nothing with the encoder.
use freedom_names.Common.{
  ℕ, suc, ◌+◌, ◌-◌, ◌*◌, ◌/◌, ◌%◌, ◌^◌, Bool, true, ◌&&◌, List, [], ◌∷◌, ◌++◌, Option, none, some,
  String, str_eq, ltb, ◌==◌, if◌then◌else◌, length, take,
}
use freedom_names.Common.Texts.{codes}
use freedom_names.Bch.CashAddr.Regroup.{spread_onto}
use Prim.Native.Nat.{bit_xor}

abbrev pub human_prefix : String → List ℕ
human_prefix network =
    if str_eq network "mainnet"
    then b'b' ∷ b'i' ∷ b't' ∷ b'c' ∷ b'o' ∷ b'i' ∷ b'n' ∷ b'c' ∷ b'a' ∷ b's' ∷ b'h' ∷ []
    else b'b' ∷ b'c' ∷ b'h' ∷ b't' ∷ b'e' ∷ b's' ∷ b't' ∷ []

-- The symbols of 0 to 31.
abbrev pub base32_symbols : List ℕ
base32_symbols = codes "qpzry9x8" ++ codes "gf2tvdw0" ++ codes "s3jn54kh" ++ codes "ce6mua7l"

-- The generator of the code, times each power of two.
abbrev pub generators : List ℕ
generators = 656907472481 ∷ 522768456162 ∷ 1044723512260 ∷ 748107326120 ∷ 130178868336 ∷ []

unfoldable pub add_when : ℕ → ℕ → ℕ → ℕ
add_when b g c = if b == 1 then bit_xor c g else c

-- Adds the generator of each bit of c0 that is set, the lowest bit first.
abbrev pub reduce_by : ℕ → List ℕ → ℕ → ℕ
reduce_by c0 [] c = c
reduce_by c0 (g ∷ gs) c = reduce_by (c0 / 2) gs (add_when (c0 % 2) g c)

abbrev pub checksum_of : ℕ → List ℕ → ℕ
checksum_of c [] = bit_xor c 1
checksum_of c (d ∷ ds) =
    checksum_of (reduce_by (c / 2 ^ 35) generators (bit_xor (c % 2 ^ 35 * 32) d)) ds

abbrev pub last_five_bits : List ℕ → List ℕ
last_five_bits [] = []
last_five_bits (b ∷ bs) = b % 2 ^ 5 ∷ last_five_bits bs

abbrev pub symbol_value_from : ℕ → ℕ → List ℕ → Option ℕ
symbol_value_from i s [] = none
symbol_value_from i s (c ∷ cs) = if c == s then some i else symbol_value_from (suc i) s cs

abbrev pub symbol_value : ℕ → Option ℕ
symbol_value s = symbol_value_from 0 s base32_symbols

abbrev pub with_value : Option ℕ → Option (List ℕ) → Option (List ℕ)
with_value (some d) (some ds) = some (d ∷ ds)
with_value d ds = none

abbrev pub symbol_values : List ℕ → Option (List ℕ)
symbol_values [] = some []
symbol_values (s ∷ ss) = with_value (symbol_value s) (symbol_values ss)

-- What stands before the first colon, and after it.
abbrev pub split_colon : List ℕ → List ℕ × List ℕ
split_colon [] = ([], [])
split_colon (s ∷ ss) =
    let rest = split_colon ss in if s == b':' then ([], ss) else (s ∷ rest.0, rest.1)

-- Each eight bits as a byte, and the bits that are left.
abbrev pub octets : List ℕ → List ℕ × List ℕ
octets (a ∷ b ∷ c ∷ d ∷ e ∷ f ∷ g ∷ h ∷ bits) =
    let rest = octets bits in
    ((a * 128 + b * 64 + c * 32 + d * 16 + e * 8 + f * 4 + g * 2 + h) ∷ rest.0, rest.1)
octets bits = ([], bits)

abbrev pub all_zero : List ℕ → Bool
all_zero [] = true
all_zero (b ∷ bs) = b == 0 && all_zero bs

-- The version byte has the type above the code of the size, which is 0 for 160 bits; its highest bit is
-- reserved.
abbrev pub read_version : List ℕ → List ℕ → Option (List ℕ × ℕ × List ℕ)
read_version prefix [] = none
read_version prefix (v ∷ hash) =
    if ltb v 128 && v % 8 == 0 && length hash == 20 then some (prefix, v / 8, hash) else none

abbrev pub read_bits : List ℕ → List ℕ × List ℕ → Option (List ℕ × ℕ × List ℕ)
read_bits prefix (bytes, left) =
    if ltb (length left) 5 && all_zero left then read_version prefix bytes else none

abbrev pub decode_groups : List ℕ → Option (List ℕ) → Option (List ℕ × ℕ × List ℕ)
decode_groups prefix none = none
decode_groups prefix (some ds) =
    if checksum_of 1 (last_five_bits prefix ++ 0 ∷ ds) == 0
    then read_bits prefix (octets (spread_onto 5 (take (length ds - 8) ds) []))
    else none

-- The prefix, the type and the hash of an address.
abbrev pub decode_cash_addr : List ℕ → Option (List ℕ × ℕ × List ℕ)
decode_cash_addr s = let (prefix, rest) = split_colon s in decode_groups prefix (symbol_values rest)
