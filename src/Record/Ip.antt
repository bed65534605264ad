-- ===== src/Record/Ip.antt =====
-- net.ParseIP of the Go library, as internal/record/record.go uses it: an address is IPv4 when
-- To4 answers one, in dotted form or as an IPv4-mapped IPv6 address. An address is its bytes.
use freedom_names.Common.{
  ℕ, zero, suc, ◌+◌, ◌-◌, ◌*◌, ◌/◌, ◌%◌, Bool, true, false, ◌&&◌, ◌||◌, List, [], ◌∷◌, ◌++◌, Option,
  none, some, ltb, leb, ◌==◌, if◌then◌else◌, length, take, drop,
}
use freedom_names.Common.Bytes.{bytes_equal}

pub data Address : Type 0 where
  v4 v6 : List ℕ → Address

-- strings.Split(s, sep), for a separator of one byte.
unfoldable pub split : ℕ → List ℕ → List (List ℕ)
split sep [] = [] ∷ []
split sep (b ∷ bs) = elim (split sep bs) [
  | [] ↦ [] ∷ []
  | p ∷ ps ↦ if b == sep then [] ∷ p ∷ ps else (b ∷ p) ∷ ps
]

unfoldable pub is_digit : ℕ → Bool
is_digit b = leb b'0' b && leb b b'9'

-- One decimal field: digits, at most 255, and no leading zero.
unfoldable pub octet_from : ℕ → List ℕ → Option ℕ
octet_from acc [] = some acc
octet_from acc (b ∷ bs) =
    let next = acc * 10 + (b - b'0') in
    let rest = octet_from next bs in if is_digit b && leb next 255 then rest else none

unfoldable pub octet : List ℕ → Option ℕ
octet [] = none
octet (b ∷ []) = octet_from 0 (b ∷ [])
octet (b ∷ b' ∷ bs) = if b == b'0' then none else octet_from 0 (b ∷ b' ∷ bs)

-- The elements, if there is one for each.
unfoldable pub all_some {ℓ} : {A : Type ℓ} → List (Option A) → Option (List A)
all_some [] = some []
all_some (none ∷ os) = none
all_some (some a ∷ os) = elim (all_some os) [ none ↦ none | some bs ↦ some (a ∷ bs) ]

unfoldable pub octets : List (List ℕ) → Option (List ℕ)
octets [] = some []
octets (p ∷ ps) = elim (octet p) [
  | none ↦ none
  | some a ↦ elim (octets ps) [ none ↦ none | some bs ↦ some (a ∷ bs) ]
]

unfoldable pub parse_ipv4 : List ℕ → Option (List ℕ)
parse_ipv4 s = let ps = split b'.' s in if length ps == 4 then octets ps else none

unfoldable pub hex_digit : ℕ → Option ℕ
hex_digit b =
    if is_digit b
    then some (b - b'0')
    else if leb b'a' b && leb b b'f'
    then some (b - b'a' + 10)
    else if leb b'A' b && leb b b'F'
    then some (b - b'A' + 10)
    else none

unfoldable pub hex_from : ℕ → List ℕ → Option ℕ
hex_from acc [] = some acc
hex_from acc (b ∷ bs) = elim (hex_digit b) [ none ↦ none | some d ↦ hex_from (acc * 16 + d) bs ]

-- A group of one to four hexadecimal digits, as two bytes.
unfoldable pub hex_group : List ℕ → Option (List ℕ)
hex_group g =
    if length g == 0 || ltb 4 (length g)
    then none
    else elim (hex_from 0 g) [ none ↦ none | some n ↦ some ((n / 256) ∷ (n % 256) ∷ []) ]

-- The groups of one side of the ellipsis; the last of the address may be in dotted form.
unfoldable pub groups : Bool → List (List ℕ) → Option (List ℕ)
groups is_last [] = some []
groups is_last (g ∷ []) = elim (hex_group g) [
  | some bs ↦ some bs
  | none ↦ if is_last then parse_ipv4 g else none
]
groups is_last (g ∷ h ∷ gs) = elim (hex_group g) [
  | none ↦ none
  | some bs ↦ elim (groups is_last (h ∷ gs)) [ none ↦ none | some cs ↦ some (bs ++ cs) ]
]

unfoldable pub side : Bool → List ℕ → Option (List ℕ)
side is_last [] = some []
side is_last (b ∷ bs) = groups is_last (split b':' (b ∷ bs))

-- The text before the first "::" and the text after it.
unfoldable pub cut_ellipsis : List ℕ → Option (List ℕ × List ℕ)
cut_ellipsis [] = none
cut_ellipsis (b ∷ []) = none
cut_ellipsis (b ∷ b' ∷ bs) =
    let rest = cut_ellipsis (b' ∷ bs) in
    if b == b':' && b' == b':'
    then some ([], bs)
    else elim rest [ none ↦ none | some (l, r) ↦ some (b ∷ l, r) ]

unfoldable pub zeros : ℕ → List ℕ
zeros zero = []
zeros (suc n) = 0 ∷ zeros n

-- The ellipsis stands for one group of zeros at least.
unfoldable pub fill : Option (List ℕ) → Option (List ℕ) → Option (List ℕ)
fill none r = none
fill (some l) none = none
fill (some l) (some r) =
    if leb (length l + length r) 14
    then some (l ++ (zeros (16 - (length l + length r)) ++ r))
    else none

unfoldable pub parse_ipv6 : List ℕ → Option (List ℕ)
parse_ipv6 s = elim (cut_ellipsis s) [
  | some (l, r) ↦ fill (side false l) (side true r)
  | none ↦ elim (side true s) [ none ↦ none | some bs ↦ if length bs == 16 then some bs else none ]
]

unfoldable pub to4 : List ℕ → Address
to4 bs =
    if bytes_equal (take 12 bs) (zeros 10 ++ (0xff ∷ 0xff ∷ [])) then v4 (drop 12 bs) else v6 bs

-- The first dot or colon tells which form is meant.
unfoldable pub has_colon_first : List ℕ → Option Bool
has_colon_first [] = none
has_colon_first (b ∷ bs) =
    if b == b'.' then some false else if b == b':' then some true else has_colon_first bs

unfoldable pub parse_ip : List ℕ → Option Address
parse_ip s = elim (has_colon_first s) [
  | none ↦ none
  | some false ↦ elim (parse_ipv4 s) [ none ↦ none | some bs ↦ some (v4 bs) ]
  | some true ↦ elim (parse_ipv6 s) [ none ↦ none | some bs ↦ some (to4 bs) ]
]
