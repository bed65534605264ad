-- ===== src/Record/Names.antt =====
-- The names of internal/record/record.go and internal/registry/registry.go: the canonical form,
-- "label.<pubKeyID>.fn", the key ids and the keys of the DHT. strings.ToLower is that of the ASCII
-- letters; a byte of another character stays.
pub mod Split
pub mod RoundTrip
use freedom_names.Common.{
  ℕ, zero, suc, ◌+◌, ◌-◌, Bool, true, false, not, ◌&&◌, ◌||◌, List, [], ◌∷◌, ◌++◌, Option, none,
  some, ltb, leb, ◌==◌, if◌then◌else◌, length,
}
use freedom_names.Common.Bytes.{bytes_equal}
use freedom_names.Record.{Codec, FnRecord}
use freedom_names.Record.Ip.{split}

-- ".fn" without its dot.
abbrev pub tld : List ℕ
tld = b'f' ∷ b'n' ∷ []

abbrev pub dht_namespace : List ℕ
dht_namespace = b'f' ∷ b'n' ∷ []

unfoldable pub lower_byte : ℕ → ℕ
lower_byte b = if leb b'A' b && leb b b'Z' then b + 32 else b

unfoldable pub to_lower : List ℕ → List ℕ
to_lower [] = []
to_lower (b ∷ bs) = lower_byte b ∷ to_lower bs

-- strings.TrimSuffix(s, ".")
unfoldable pub trim_dot : List ℕ → List ℕ
trim_dot [] = []
trim_dot (b ∷ []) = if b == b'.' then [] else b ∷ []
trim_dot (b ∷ b' ∷ bs) = b ∷ trim_dot (b' ∷ bs)

unfoldable pub canonical_name : List ℕ → List ℕ
canonical_name name = trim_dot (to_lower name)

-- strings.Join(parts, ".")
unfoldable pub join : List (List ℕ) → List ℕ
join [] = []
join (p ∷ []) = p
join (p ∷ q ∷ ps) = p ++ (b'.' ∷ join (q ∷ ps))

-- The parts before the last two, and those two.
unfoldable pub split_last : List (List ℕ) → Option (List (List ℕ) × (List ℕ × List ℕ))
split_last [] = none
split_last (p ∷ []) = none
split_last (p ∷ q ∷ []) = some ([], (p, q))
split_last (p ∷ q ∷ r ∷ ps) = elim (split_last (q ∷ r ∷ ps)) [
  | none ↦ none
  | some (front, back) ↦ some (p ∷ front, back)
]

unfoldable pub parse_name : List ℕ → Option (List ℕ × List ℕ)
parse_name name = elim (split_last (split b'.' (canonical_name name))) [
  | none ↦ none
  | some (front, (key_id, last)) ↦
      if ltb (length front) 1 || not (bytes_equal last tld)
      then none
      else if length (join front) == 0 || length key_id == 0
      then none
      else some (join front, key_id)
]

-- strings.HasSuffix
unfoldable pub has_suffix : List ℕ → List ℕ → Bool
has_suffix s [] = bytes_equal s []
has_suffix s (b ∷ bs) = bytes_equal s (b ∷ bs) || has_suffix s bs

-- "/fn/" + id
unfoldable pub dht_key_of : List ℕ → List ℕ
dht_key_of id = (b'/' ∷ dht_namespace) ++ (b'/' ∷ id)

unfoldable pub dht_key_for_name : List ℕ → Option (List ℕ)
dht_key_for_name name = elim (parse_name name) [
  | none ↦ none
  | some (_, key_id) ↦ some (dht_key_of key_id)
]

module _ (c : Codec) where
  unfoldable pub pub_key_id : List ℕ → Option (List ℕ)
  pub_key_id marshaled_pub = elim (c.sum marshaled_pub) [
    | none ↦ none
    | some h ↦ some (c.base36_encode h)
  ]

  unfoldable pub dht_key_for_pub_key : List ℕ → Option (List ℕ)
  dht_key_for_pub_key marshaled_pub = elim (pub_key_id marshaled_pub) [
    | none ↦ none
    | some id ↦ some (dht_key_of id)
  ]

  unfoldable pub dht_key : FnRecord → Option (List ℕ)
  dht_key r = elim (pub_key_id r.pub_key) [ none ↦ none | some id ↦ some (dht_key_of id) ]

  unfoldable pub full_name : FnRecord → Option (List ℕ)
  full_name r = elim (pub_key_id r.pub_key) [
    | none ↦ none
    | some id ↦ some (r.label ++ (b'.' ∷ (id ++ (b'.' ∷ tld))))
  ]

  unfoldable pub is_pub_key_id : List ℕ → Bool
  is_pub_key_id s = elim (c.base36_decode s) [
    | none ↦ false
    | some raw ↦ elim (c.is_sha256 raw) [ none ↦ false | some b ↦ b ]
  ]

  unfoldable pub is_bare_name : List ℕ → Bool
  is_bare_name name =
      if not (has_suffix (b'.' ∷ tld) (canonical_name name))
      then false
      else elim (parse_name name) [ none ↦ true | some (_, key_id) ↦ not (is_pub_key_id key_id) ]
