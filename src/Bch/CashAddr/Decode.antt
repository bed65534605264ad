-- ===== src/Bch/CashAddr/Decode.antt =====
-- internal/bch/cashaddr.go, encodeCashAddr, against the decoder of the specification.
use freedom_names.Common.{
  ℕ, zero, suc, ◌+◌, ◌-◌, ◌*◌, ◌/◌, ◌%◌, ◌^◌, ◌<◌, ◌≡◌, refl, sym, ap, ◌∙◌, Bool, true, false, ◌&&◌,
  List, [], ◌∷◌, ◌++◌, Option, none, some, String, ltb, leb, ◌==◌, ==_iff, bit_or, if◌then◌else◌,
  length, length-append, take, take-append, get_or, arith, All, append_assoc,
}
use Prim.Native.Nat.{bit_xor}
use freedom_names.Bch.CashAddr.{
  cash_addr_charset, cash_addr_prefix, mix, mix_all, polymod_step, polymod_from, polymod, emit,
  regroup, convert_bits, low_bits, checksum_from, checksum, symbols, encode_cash_addr,
}
use freedom_names.Bch.CashAddr.Checksum.{polymod-checksum_from, checksum_from-All, All-append}
use freedom_names.Bch.CashAddr.Regroup.{spread_onto, zeros_onto, spread_onto-convert_bits}
use freedom_names.Bch.CashAddr.Spec.{
  human_prefix, generators, add_when, reduce_by, checksum_of, last_five_bits, symbol_value,
  symbol_values, split_colon, octets, read_version, read_bits, decode_groups, decode_cash_addr,
}

-- A test that holds up to n holds below it.
abbrev all_below : ℕ → (ℕ → Bool) → Bool
all_below zero p = true
all_below (suc n) p = p n && all_below n p

all_below-lookup : (n : ℕ) (p : ℕ → Bool) (d : ℕ) → all_below n p ≡ true → d < n → p d ≡ true
all_below-lookup zero p d e h = absurd (omega (arith, h))
all_below-lookup (suc n) p d e h = ground (arith, e, h, all_below-lookup n p d)

abbrev is_some : Option ℕ → ℕ → Bool
is_some none d = false
is_some (some e) d = e == d

is_some-some : (o : Option ℕ) (d : ℕ) → is_some o d ≡ true → o ≡ some d
is_some-some none d h = cc
is_some-some (some e) d h = ap some ((==_iff e d).0 h)

symbol_value-symbol : (d : ℕ) → d < 32 → symbol_value (get_or cash_addr_charset d 0) ≡ some d
symbol_value-symbol d h =
    is_some-some (symbol_value (get_or cash_addr_charset d 0)) d
      (all_below-lookup 32 (λ e. is_some (symbol_value (get_or cash_addr_charset e 0)) e) d refl h)

symbol_values-symbols : (ds : List ℕ) → All (λ d. d < 32) ds → symbol_values (symbols ds) ≡ some ds
unfolding symbols
symbol_values-symbols [] a = refl
symbol_values-symbols (d ∷ ds) (h, a) =
    rw (symbol_value-symbol d h, symbol_values-symbols ds a) refl

symbols-append : (xs ys : List ℕ) → symbols (xs ++ ys) ≡ symbols xs ++ symbols ys
unfolding symbols
symbols-append [] ys = refl
symbols-append (x ∷ xs) ys = rw (symbols-append xs ys) refl

low_bits-All : (bs : List ℕ) → All (λ d. d < 32) (low_bits bs)
unfolding low_bits
low_bits-All [] = tt
low_bits-All (b ∷ bs) = (omega arith, low_bits-All bs)

if_both : {A : Type 0} (P : A → Type 0) (b : Bool) {x y : A} → P x → P y → P (if b then x else y)
if_both P true h k = h
if_both P false h k = k

emit-All : (n acc bits : ℕ) → All (λ d. d < 32) (emit n 5 acc bits).0
unfolding emit
emit-All zero acc bits = tt
emit-All (suc n) acc bits =
    if_both (λ (o : List ℕ × ℕ). All (λ d. d < 32) o.0) (leb 5 bits)
      (omega arith, emit-All n acc (bits - 5)) tt

regroup-All :
    (bs : List ℕ) (pad : Bool) (acc bits : ℕ) → All (λ d. d < 32) (regroup 8 5 pad acc bits bs)
unfolding regroup
regroup-All [] pad acc bits =
    if_both (λ o. All (λ d. d < 32) o) (pad && ltb 0 bits) (omega arith, tt) tt
regroup-All (b ∷ bs) pad acc bits =
    let acc2 = bit_or (acc * 2 ^ 8 % 2 ^ 32) b in
    let e = emit (bits + 8) 5 acc2 (bits + 8) in
    All-append e.0 (regroup 8 5 pad acc2 e.1 bs) (emit-All (bits + 8) acc2 (bits + 8))
      (regroup-All bs pad acc2 e.1)

split_colon-prefix :
    (network : String) (rest : List ℕ)
    → split_colon (cash_addr_prefix network ++ 58 ∷ rest) ≡ (human_prefix network, rest)
unfolding cash_addr_prefix
split_colon-prefix network rest = ground arith

cash_addr_prefix-human_prefix : (network : String) → cash_addr_prefix network ≡ human_prefix network
unfolding cash_addr_prefix
cash_addr_prefix-human_prefix network = refl

low_bits-last_five_bits : (bs : List ℕ) → low_bits bs ≡ last_five_bits bs
unfolding low_bits
low_bits-last_five_bits [] = refl
low_bits-last_five_bits (b ∷ bs) = rw (low_bits-last_five_bits bs) refl

-- One generator, by the bit of its weight, which halvings bring to the lowest place.
mix-add_when : (c0 w b g c : ℕ) → c0 / w % 2 ≡ b → mix c0 w g c ≡ add_when b g c
unfolding mix add_when
mix-add_when c0 w b g c e = ground (arith, e)

mix_all-reduce_by : (c0 c : ℕ) → mix_all (c0 % 256) c ≡ reduce_by c0 generators c
unfolding mix_all
mix_all-reduce_by c0 c =
    let byte = c0 % 256 in
    mix-add_when byte 0x10 (c0 / 2 / 2 / 2 / 2 % 2) _ _ (omega arith)
    ∙ ap (add_when (c0 / 2 / 2 / 2 / 2 % 2) _) (
        mix-add_when byte 0x08 (c0 / 2 / 2 / 2 % 2) _ _ (omega arith)
        ∙ ap (add_when (c0 / 2 / 2 / 2 % 2) _) (
            mix-add_when byte 0x04 (c0 / 2 / 2 % 2) _ _ (omega arith)
            ∙ ap (add_when (c0 / 2 / 2 % 2) _) (
                mix-add_when byte 0x02 (c0 / 2 % 2) _ _ (omega arith)
                ∙ ap (add_when (c0 / 2 % 2) _)
                    (mix-add_when byte 0x01 (c0 % 2) _ _ (omega arith)))))

polymod-checksum_of : (ds : List ℕ) (c : ℕ) → bit_xor (polymod_from c ds) 1 ≡ checksum_of c ds
unfolding polymod_from polymod_step
polymod-checksum_of [] c = refl
polymod-checksum_of (d ∷ ds) c =
    let low : c % 2 ^ 35 * 2 ^ 5 % 2 ^ 64 ≡ c % 2 ^ 35 * 32 = omega arith in
    polymod-checksum_of ds (polymod_step c d)
    ∙ ap (λ (n : ℕ). checksum_of n ds)
        (ap (λ (n : ℕ). mix_all (c / 2 ^ 35 % 256) (bit_xor n d)) low
          ∙ mix_all-reduce_by (c / 2 ^ 35) (bit_xor (c % 2 ^ 35 * 32) d))

octet : ℕ → ℕ
octet b =
    b / 2 / 2 / 2 / 2 / 2 / 2 / 2 % 2 * 128
    + b / 2 / 2 / 2 / 2 / 2 / 2 % 2 * 64
    + b / 2 / 2 / 2 / 2 / 2 % 2 * 32
    + b / 2 / 2 / 2 / 2 % 2 * 16
    + b / 2 / 2 / 2 % 2 * 8
    + b / 2 / 2 % 2 * 4
    + b / 2 % 2 * 2
    + b % 2

octet_lem : (b : ℕ) → b < 256 → octet b ≡ b
unfolding octet
octet_lem b h = omega (arith, h)

octets-zeros : (p : ℕ) → p < 5 → octets (zeros_onto p []) ≡ ([], zeros_onto p [])
octets-zeros zero h = refl
octets-zeros (suc zero) h = refl
octets-zeros (suc (suc zero)) h = refl
octets-zeros (suc (suc (suc zero))) h = refl
octets-zeros (suc (suc (suc (suc zero)))) h = refl
octets-zeros (suc (suc (suc (suc (suc p))))) h = absurd (omega (arith, h))

octets-spread_onto :
    (bs : List ℕ) (p : ℕ)
    → All (λ b. b < 256) bs
    → p < 5
    → octets (spread_onto 8 bs (zeros_onto p [])) ≡ (bs, zeros_onto p [])
unfolding octet
octets-spread_onto [] p a h = octets-zeros p h
octets-spread_onto (b ∷ bs) p (l, a) h =
    ap (λ (r : List ℕ × List ℕ). (octet b ∷ r.0, r.1)) (octets-spread_onto bs p a h)
    ∙ ap (λ (n : ℕ). (n ∷ bs, zeros_onto p [])) (octet_lem b l)

checksum-length : (prefix ds : List ℕ) → length (checksum prefix ds) ≡ 8
unfolding checksum checksum_from
checksum-length prefix ds = refl

checksum-All : (prefix ds : List ℕ) → All (λ d. d < 32) (checksum prefix ds)
unfolding checksum
checksum-All prefix ds = checksum_from-All 8 _

convert_bits-All : (bs : List ℕ) → All (λ d. d < 32) (convert_bits bs 8 5 true)
unfolding convert_bits
convert_bits-All bs = regroup-All bs true 0 0

-- The specification accepts the checksum of any groups.
checksum_of-checksum :
    (prefix ds : List ℕ)
    → All (λ d. d < 32) ds
    → checksum_of 1 (last_five_bits prefix ++ 0 ∷ (ds ++ checksum prefix ds)) ≡ 0
unfolding checksum polymod
checksum_of-checksum prefix ds a =
    let k = checksum prefix ds in
    let groups = All-append (low_bits prefix) (0 ∷ ds) (low_bits-All prefix) (omega arith, a) in
    ap (λ (l : List ℕ). checksum_of 1 (l ++ 0 ∷ (ds ++ k))) (sym (low_bits-last_five_bits prefix))
    ∙ sym (polymod-checksum_of (low_bits prefix ++ 0 ∷ (ds ++ k)) 1)
    ∙ ap polymod (sym (append_assoc (low_bits prefix) (0 ∷ ds) k))
    ∙ polymod-checksum_from (low_bits prefix ++ 0 ∷ ds) groups

-- Groups, with their checksum behind them, are read by their bits.
decode_groups-checksum :
    (prefix ds bits : List ℕ)
    → All (λ d. d < 32) ds
    → spread_onto 5 ds [] ≡ bits
    → decode_groups prefix (some (ds ++ checksum prefix ds)) ≡ read_bits prefix (octets bits)
decode_groups-checksum prefix ds bits a e =
    let k = checksum prefix ds in
    let front : take (length (ds ++ k) - 8) (ds ++ k) ≡ ds =
      take-append (length (ds ++ k) - 8) ds k
        (omega (arith, length-append ds k, checksum-length prefix ds)) in
    rw (checksum_of-checksum prefix ds a, front, e) refl

read_bits-zeros :
    (prefix bytes : List ℕ) (p : ℕ)
    → p < 5
    → read_bits prefix (bytes, zeros_onto p []) ≡ read_version prefix bytes
read_bits-zeros prefix bytes zero h = refl
read_bits-zeros prefix bytes (suc zero) h = refl
read_bits-zeros prefix bytes (suc (suc zero)) h = refl
read_bits-zeros prefix bytes (suc (suc (suc zero))) h = refl
read_bits-zeros prefix bytes (suc (suc (suc (suc zero)))) h = refl
read_bits-zeros prefix bytes (suc (suc (suc (suc (suc p))))) h = absurd (omega (arith, h))

read_version_lem :
    (prefix hash : List ℕ) (t : ℕ)
    → t < 16
    → length hash ≡ 20
    → read_version prefix (t * 8 % 256 ∷ hash) ≡ some (prefix, t, hash)
read_version_lem prefix hash t h l =
    let type_of : t * 8 % 256 / 8 ≡ t = omega (arith, h) in
    let small : ltb (t * 8 % 256) 128 ≡ true = ground (arith, h) in
    let size : (t * 8 % 256 % 8 == 0) ≡ true = ground (arith, h) in
    rw (type_of, small, size, l) refl

-- A decoder of the CashAddr specification that shares nothing with the encoder accepts every
-- address that is encoded from a type below 16 and a hash of 20 bytes, and gives back the network's
-- prefix, the type and the hash.
pub decode_cash_addr-encode_cash_addr :
    (network : String) (addr_type : ℕ) (hash160 : List ℕ)
    → addr_type < 16
    → All (λ b. b < 256) hash160
    → length hash160 ≡ 20
    → decode_cash_addr (encode_cash_addr network addr_type hash160)
      ≡ some (human_prefix network, addr_type, hash160)
unfolding encode_cash_addr
decode_cash_addr-encode_cash_addr network addr_type hash160 t a l =
    let bytes = addr_type * 2 ^ 3 % 256 ∷ hash160 in
    let small : All (λ b. b < 256) bytes = (omega arith, a) in
    let prefix = cash_addr_prefix network in
    let ds = convert_bits bytes 8 5 true in
    let k = checksum prefix ds in
    let groups = convert_bits-All bytes in
    let (p, few, bits) = spread_onto-convert_bits bytes small in
    let read : symbol_values (symbols ds ++ symbols k) ≡ some (ds ++ k) =
      ap symbol_values (sym (symbols-append ds k))
      ∙ symbol_values-symbols (ds ++ k) (All-append ds k groups (checksum-All prefix ds)) in
    let parts = split_colon-prefix network (symbols ds ++ symbols k) in
    let joined = append_assoc prefix (58 ∷ symbols ds) (symbols k) in
    rw (encode_cash_addr, joined, parts, read)
      (ap (λ (h : List ℕ). decode_groups h (some (ds ++ k)))
          (sym (cash_addr_prefix-human_prefix network))
        ∙ decode_groups-checksum prefix ds (spread_onto 8 bytes (zeros_onto p [])) groups bits
        ∙ ap (read_bits prefix) (octets-spread_onto bytes p small few)
        ∙ read_bits-zeros prefix bytes p few
        ∙ read_version_lem prefix hash160 addr_type t l
        ∙ ap (λ (h : List ℕ). some (h, addr_type, hash160)) (cash_addr_prefix-human_prefix network))
