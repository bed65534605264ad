-- ===== src/Bch/CashAddr.antt =====
-- internal/bch/cashaddr.go: the addresses that are shown. Text is its bytes; a byte, a uint32 and a
-- uint64 are numbers below 2 ^ 8, 2 ^ 32 and 2 ^ 64.
mod Tests
pub mod Decode
pub mod Spec
pub mod Regroup
pub mod Checksum
use freedom_names.Common.{
  ℕ, zero, suc, ◌+◌, ◌-◌, ◌*◌, ◌/◌, ◌%◌, ◌^◌, Bool, true, false, not, ◌&&◌, ◌||◌, List, [], ◌∷◌,
  ◌++◌, Option, none, some, bit_or, ltb, leb, ◌==◌, if◌then◌else◌, get_or, String, str_eq,
}
use freedom_names.Common.Texts.{codes}
use freedom_names.Record.Ip.{hex_digit}
use Prim.Native.Nat.{bit_xor}

-- A string of zeros, make([]byte, n).
abbrev pub zero_bytes : ℕ → List ℕ
zero_bytes zero = []
zero_bytes (suc n) = 0 ∷ zero_bytes n

abbrev pub cash_addr_charset : List ℕ
cash_addr_charset = codes "qpzry9x8gf2tvdw0s3jn54khce6mua7l"

abbrev pub cash_addr_p2pkh : ℕ
cash_addr_p2pkh = 0

abbrev pub cash_addr_p2sh : ℕ
cash_addr_p2sh = 1

unfoldable pub cash_addr_prefix : String → List ℕ
cash_addr_prefix network = if str_eq network "mainnet" then codes "bitcoincash" else codes "bchtest"

-- if c0&mask != 0 { c ^= g }, where the mask is the bit of weight w.
unfoldable pub mix : ℕ → ℕ → ℕ → ℕ → ℕ
mix c0 w g c = if c0 / w % 2 == 0 then c else bit_xor c g

-- One round of the loop of polymod. c & 0x07ffffffff keeps the lowest 35 bits.
unfoldable pub mix_all : ℕ → ℕ → ℕ
mix_all c0 c = mix c0 0x10 0x1e4f43e470 (
    mix c0 0x08 0xae2eabe2a8
      (mix c0 0x04 0xf33e5fb3c4 (mix c0 0x02 0x79b76d99e2 (mix c0 0x01 0x98f2bc8e61 c))))

unfoldable pub polymod_step : ℕ → ℕ → ℕ
polymod_step c d = mix_all (c / 2 ^ 35 % 256) (bit_xor (c % 2 ^ 35 * 2 ^ 5 % 2 ^ 64) d)

unfoldable pub polymod_from : ℕ → List ℕ → ℕ
polymod_from c [] = c
polymod_from c (d ∷ ds) = polymod_from (polymod_step c d) ds

unfoldable pub polymod : List ℕ → ℕ
polymod groups = bit_xor (polymod_from 1 groups) 1

-- The inner loop of convertBits: the groups that it appends, and the bits that are left. Its fuel is
-- the number of bits.
unfoldable pub emit : ℕ → ℕ → ℕ → ℕ → List ℕ × ℕ
emit zero to acc bits = ([], bits)
emit (suc n) to acc bits =
    let rest = emit n to acc (bits - to) in
    if leb to bits then (acc / 2 ^ (bits - to) % 2 ^ to % 256 ∷ rest.0, rest.1) else ([], bits)

-- The outer loop, on the accumulator and the number of its bits that are left.
unfoldable pub regroup : ℕ → ℕ → Bool → ℕ → ℕ → List ℕ → List ℕ
regroup from to pad acc bits [] =
    if pad && ltb 0 bits then acc * 2 ^ (to - bits) % 2 ^ 32 % 2 ^ to % 256 ∷ [] else []
regroup from to pad acc bits (b ∷ bs) =
    let acc2 = bit_or (acc * 2 ^ from % 2 ^ 32) b in
    let (out, left) = emit (bits + from) to acc2 (bits + from) in
    out ++ regroup from to pad acc2 left bs

unfoldable pub convert_bits : List ℕ → ℕ → ℕ → Bool → List ℕ
convert_bits groups from to pad = regroup from to pad 0 0 groups

-- prefix[i] & 0x1f, for each i.
unfoldable pub low_bits : List ℕ → List ℕ
low_bits [] = []
low_bits (b ∷ bs) = b % 32 ∷ low_bits bs

-- The loop over i that makes the checksum, on the number of rounds that are left.
unfoldable pub checksum_from : ℕ → ℕ → List ℕ
checksum_from zero m = []
checksum_from (suc n) m = m / 2 ^ (5 * n) % 32 % 256 ∷ checksum_from n m

unfoldable pub checksum : List ℕ → List ℕ → List ℕ
checksum prefix groups = checksum_from 8 (polymod (low_bits prefix ++ 0 ∷ groups ++ zero_bytes 8))

-- cashAddrCharset[d]
unfoldable pub symbols : List ℕ → List ℕ
symbols [] = []
symbols (d ∷ ds) = get_or cash_addr_charset d 0 ∷ symbols ds

unfoldable pub encode_cash_addr : String → ℕ → List ℕ → List ℕ
encode_cash_addr network addr_type hash160 =
    let prefix = cash_addr_prefix network in
    let groups = convert_bits (addr_type * 2 ^ 3 % 256 ∷ hash160) 8 5 true in
    prefix ++ 58 ∷ symbols groups ++ symbols (checksum prefix groups)

unfoldable pub octet_of : Option ℕ → Option ℕ → Option (List ℕ) → Option (List ℕ)
octet_of (some h) (some l) (some rest) = some ((h * 16 + l) ∷ rest)
octet_of h l rest = none

-- hex.DecodeString, its error as none.
unfoldable pub decode_hex : List ℕ → Option (List ℕ)
decode_hex [] = some []
decode_hex (a ∷ []) = none
decode_hex (a ∷ b ∷ s) = octet_of (hex_digit a) (hex_digit b) (decode_hex s)

unfoldable pub decode_hex_lenient : List ℕ → Option (List ℕ)
decode_hex_lenient (a ∷ b ∷ s) =
    if a == 48 && (b == 120 || b == 88) then decode_hex s else decode_hex (a ∷ b ∷ s)
decode_hex_lenient s = decode_hex s

-- An error is no bytes.
unfoldable pub must_decode_hex : List ℕ → List ℕ
must_decode_hex s = elim (decode_hex_lenient s) [ none ↦ [] | some b ↦ b ]
