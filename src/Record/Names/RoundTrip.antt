-- ===== src/Record/Names/RoundTrip.antt =====
-- internal/record/record.go, ParseName, FullName and CanonicalName, against each other.
use freedom_names.Common.{
  ℕ, ◌<◌, ◌≡◌, refl, sym, ap, ◌∙◌, subst, inl, inr, some, List, [], ◌∷◌, ◌++◌, arith, length,
  append_assoc, Option-cases, All,
}
use freedom_names.Common.Bytes.{bytes_equal_iff, bytes_equal_refl}
use freedom_names.Record.{Codec, FnRecord}
use freedom_names.Record.Ip.{split}
use freedom_names.Record.Names.{
  tld, lower_byte, to_lower, trim_dot, canonical_name, join, split_last, parse_name,
  dht_key_for_name, pub_key_id, dht_key, full_name,
}
use freedom_names.Record.Names.Split.{
  dot, HasNoDot, split-append, split_one, join-split, split_last-append, split_last_sound,
  join-append, to_lower-append, trim_dot-append, trim_dot-last, split-nonempty,
}

-- "label.id.fn"
abbrev pub named : List ℕ → List ℕ → List ℕ
named label id = label ++ (dot ∷ (id ++ (dot ∷ tld)))

named_parts :
    (label id : List ℕ)
    → HasNoDot id
    → split dot (named label id) ≡ split dot label ++ (id ∷ tld ∷ [])
unfolding split
named_parts label id u =
    split-append label (id ++ (dot ∷ tld))
    ∙ ap (λ (l : List (List ℕ)). split dot label ++ l)
        (split-append id tld ∙ ap (λ (l : List (List ℕ)). l ++ split dot tld) (split_one id u))

pub parse_name-named :
    (name label id : List ℕ)
    → canonical_name name ≡ named label id
    → 0 < length label
    → 0 < length id
    → HasNoDot id
    → parse_name name ≡ some (label, id)
unfolding parse_name
parse_name-named name label id e l i u =
    let (p, ps, first) = split-nonempty dot label in
    let parts : split_last (split dot (canonical_name name)) ≡ some (split dot label, (id, tld)) =
      ap (λ (n : List ℕ). split_last (split dot n)) e
      ∙ ap split_last (named_parts label id u)
      ∙ split_last-append (split dot label) id tld in
    let count : 0 < length (split dot label) = rw first (omega arith) in
    ground (arith, parts, count, join-split label, bytes_equal_refl tld)

-- What the parts of a name are, where the name parses.
abbrev Parts : List ℕ → List ℕ → List ℕ → List (List ℕ) → Type 0
Parts name label id front =
    (split_last (split dot (canonical_name name)) ≡ some (front, (id, tld)))
    × (0 < length front)
    × (join front ≡ label)
    × (0 < length label)
    × (0 < length id)

parse_name-Parts :
    (name label id : List ℕ)
    → parse_name name ≡ some (label, id)
    → (front : List (List ℕ)) × Parts name label id front
unfolding parse_name
parse_name-Parts name label id e =
    elim (Option-cases (split_last (split dot (canonical_name name)))) [
      | inl bad ↦ absurd (ground (arith, bad, e))
      | inr ((front, (k, last)), found) ↦
          let parts : Parts name label id front =
            ground (arith, found, e, bytes_equal_iff last tld) in
          (front, parts)
    ]

-- parse_name
pub parse_name_sound :
    (name label id : List ℕ)
    → parse_name name ≡ some (label, id)
    → (canonical_name name ≡ named label id) × (0 < length label) × (0 < length id)
parse_name_sound name label id e =
    let (front, parts) = parse_name-Parts name label id e in
    let (found, some_front, whole, l, i) = parts in (by_front front found some_front whole, l, i)
  where
    by_front :
        (front : List (List ℕ))
        → split_last (split dot (canonical_name name)) ≡ some (front, (id, tld))
        → 0 < length front
        → join front ≡ label
        → canonical_name name ≡ named label id
    by_front [] found some_front whole = absurd (omega arith)
    by_front (f ∷ front) found some_front whole =
        sym (join-split (canonical_name name))
        ∙ ap join (split_last_sound (split dot (canonical_name name)) (f ∷ front) id tld found)
        ∙ join-append f front id tld
        ∙ ap (λ (l : List ℕ). l ++ (dot ∷ (id ++ (dot ∷ tld)))) whole

length-to_lower : (s : List ℕ) → length (to_lower s) ≡ length s
unfolding to_lower
length-to_lower [] = refl
length-to_lower (b ∷ bs) = omega (arith, length-to_lower bs)

to_lower-named :
    (label id : List ℕ) → to_lower id ≡ id → to_lower (named label id) ≡ named (to_lower label) id
unfolding to_lower lower_byte
to_lower-named label id lower =
    to_lower-append label (dot ∷ (id ++ (dot ∷ tld)))
    ∙ ap (λ (t : List ℕ). to_lower label ++ (dot ∷ t))
        (to_lower-append id (dot ∷ tld) ∙ ap (λ (t : List ℕ). t ++ (dot ∷ tld)) lower)

-- Such a name does not end in a dot.
trim_dot-named : (label id : List ℕ) → trim_dot (named label id) ≡ named label id
trim_dot-named label id =
    let front = label ++ (dot ∷ (id ++ (dot ∷ b'f' ∷ []))) in
    let e : front ++ (b'n' ∷ []) ≡ named label id = simp append_assoc refl in
    subst (λ (n : List ℕ). trim_dot n ≡ n) e (trim_dot-last front b'n' (λ h. absurd (omega arith)))

-- A text on which strings.ToLower is that of the ASCII letters.
abbrev pub IsAscii : List ℕ → Type 0
IsAscii s = All (λ b. b < 128) s

to_lower-IsAscii : (s : List ℕ) → IsAscii s → IsAscii (to_lower s)
unfolding to_lower lower_byte
to_lower-IsAscii [] a = tt
to_lower-IsAscii (b ∷ bs) (h, a) = (ground (arith, h), to_lower-IsAscii bs a)

IsAscii-to_lower : (s : List ℕ) → IsAscii (to_lower s) → IsAscii s
unfolding to_lower lower_byte
IsAscii-to_lower [] a = tt
IsAscii-to_lower (b ∷ bs) (h, a) = (ground (arith, h), IsAscii-to_lower bs a)

-- Any spelling, in upper or lower case, of the full name of a record with a label, where that name
-- is of ASCII and the key id is not empty, in lower case and without a dot, is of ASCII, parses to
-- the label in lower case and the key id, with and without a trailing dot, and gives the DHT key of
-- the record.
pub full_name-parse_name :
    (c : Codec) (r : FnRecord) (name spelled id : List ℕ)
    → full_name c r ≡ some name
    → IsAscii name
    → pub_key_id c r.pub_key ≡ some id
    → to_lower spelled ≡ to_lower name
    → to_lower id ≡ id
    → HasNoDot id
    → 0 < length id
    → 0 < length r.label
    → IsAscii spelled
      × (parse_name spelled ≡ some (to_lower r.label, id))
      × (parse_name (spelled ++ (dot ∷ [])) ≡ some (to_lower r.label, id))
      × (dht_key_for_name spelled ≡ dht_key c r)
unfolding full_name dht_key_for_name dht_key canonical_name to_lower lower_byte
full_name-parse_name c r name spelled id full ascii hash same lower no_dot i l =
    let label = to_lower r.label in
    let whole : named r.label id ≡ name = ground (arith, full, hash) in
    let spelling : to_lower spelled ≡ named label id =
      same ∙ ap to_lower (sym whole) ∙ to_lower-named r.label id lower in
    let l' : 0 < length label = omega (arith, length-to_lower r.label) in
    let plain =
      parse_name-named spelled label id (ap trim_dot spelling ∙ trim_dot-named label id) l' i
        no_dot in
    (
      IsAscii-to_lower spelled (subst IsAscii (sym same) (to_lower-IsAscii name ascii)),
      plain,
      parse_name-named (spelled ++ (dot ∷ [])) label id
          (ap trim_dot (to_lower-append spelled (dot ∷ []))
            ∙ trim_dot-append (to_lower spelled)
            ∙ spelling)
          l' i no_dot,
      ground (arith, plain, hash),
    )
