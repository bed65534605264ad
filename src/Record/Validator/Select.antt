-- ===== src/Record/Validator/Select.antt =====
-- internal/record/validator.go, Select: the choice among competing values.
use freedom_names.Common.{
  ℕ, suc, ◌+◌, ◌≡◌, ◌≢◌, refl, sym, ap, ◌∙◌, subst, ◌⊎◌, inl, inr, ◌↔◌, false, List, [], ◌∷◌, none,
  some, arith, get_elem?, All-get_elem, All, Bool-cases, Option-cases,
}
use freedom_names.Common.Bytes.{bytes_less_connex}
use freedom_names.Record.{Codec, FnRecord}
use freedom_names.Record.Validator.{
  Best, Selected, selected, refused, no_values, no_valid_values, better_record, weigh, select_from,
  select,
}
use freedom_names.Record.Validator.Ranks.{
  Entry, Outranks, better, better_iff, better_trans, better_cotrans, better_irrefl, int_cases,
}

-- The two lists hold the same values, in any order and number.
abbrev Holds : List (List ℕ) → List ℕ → Type 0
Holds vals v = (i : ℕ) × (get_elem? vals i ≡ some v)

abbrev pub SameValues : List (List ℕ) → List (List ℕ) → Type 0
SameValues xs ys = (v : List ℕ) → Holds xs v ↔ Holds ys v

module _ (c : Codec) where
  abbrev pub Reads : Entry → Type 0
  Reads (r, v) = c.unmarshal_fn_record v ≡ some r

  -- Not better than the entry, if the bytes hold a record.
  abbrev NotBetter : Entry → List ℕ → Type 0
  NotBetter e v = (r : FnRecord) → Reads (r, v) → better (r, v) e ≡ false

  -- Nothing among the candidates is better than the entry.
  abbrev Beaten : Best → List (List ℕ) → Entry → Type 0
  Beaten best vals e =
      ((j : ℕ) (b : Entry) → best ≡ some (j, b) → better b e ≡ false) × All (NotBetter e) vals

  -- A round keeps what is at least as good as what it had and what it saw.
  module _ (i : ℕ) (v : List ℕ) (e : Entry) where
    weigh-Beaten_kept :
        (best : Best)
        → ((j : ℕ) (b : Entry) → weigh c i v best ≡ some (j, b) → better b e ≡ false)
        → (j : ℕ) (b : Entry) → best ≡ some (j, b)
        → better b e ≡ false
    unfolding weigh
    weigh-Beaten_kept best kept j b h = elim (Option-cases (c.unmarshal_fn_record v)) [
      | inl unread ↦ kept j b (ground (arith, unread, h))
      | inr (rec, read) ↦ elim (Bool-cases (better (rec, v) b)) [
        | inl wins ↦ elim (Bool-cases (better b e)) [
          | inl over ↦ absurd (
              ground (
                arith,
                better_trans (rec, v) b e wins over,
                kept i (rec, v) (ground (arith, read, h, wins)),
              ))
          | inr under ↦ under
        ]
        | inr loses ↦ kept j b (ground (arith, read, h, loses))
      ]
    ]

    weigh-Beaten_seen :
        (best : Best)
        → ((j : ℕ) (b : Entry) → weigh c i v best ≡ some (j, b) → better b e ≡ false)
        → NotBetter e v
    unfolding weigh
    weigh-Beaten_seen none kept r read = kept i (r, v) (ground (arith, read))
    weigh-Beaten_seen (some (j, b)) kept r read = elim (Bool-cases (better (r, v) b)) [
      | inl wins ↦ kept i (r, v) (ground (arith, read, wins))
      | inr loses ↦ better_cotrans (r, v) b e loses (kept j b (ground (arith, read, loses)))
    ]

  select_from-Beaten :
      (i : ℕ) (vals : List (List ℕ)) (best : Best) (k : ℕ) (e : Entry)
      → select_from c i vals best ≡ some (k, e)
      → Beaten best vals e
  unfolding select_from
  select_from-Beaten i [] best k e h = (λ j b g. ground (arith, g, h, better_irrefl e), tt)
  select_from-Beaten i (v ∷ vals) best k e h =
      let (kept, others) = select_from-Beaten (suc i) vals (weigh c i v best) k e h in
      (weigh-Beaten_kept i v e best kept, (weigh-Beaten_seen i v e best kept, others))

  -- The value chosen is the one held before, or stands at its index.
  abbrev FoundAt : ℕ → List (List ℕ) → ℕ → Entry → Type 0
  FoundAt i vals k e = (n : ℕ) × (k ≡ i + n) × (get_elem? vals n ≡ some e.1) × Reads e

  consider_origin :
      (i : ℕ) (v : List ℕ) (best : Best) (k : ℕ) (e : Entry)
      → weigh c i v best ≡ some (k, e)
      → (best ≡ some (k, e)) ⊎ ((k ≡ i) × (e.1 ≡ v) × Reads e)
  unfolding weigh
  consider_origin i v best k e h = elim (Option-cases (c.unmarshal_fn_record v)) [
    | inl unread ↦ inl (ground (arith, unread, h))
    | inr (rec, read) ↦ ground (arith, read, h)
  ]

  select_from_origin :
      (i : ℕ) (vals : List (List ℕ)) (best : Best) (k : ℕ) (e : Entry)
      → select_from c i vals best ≡ some (k, e)
      → (best ≡ some (k, e)) ⊎ FoundAt i vals k e
  unfolding select_from
  select_from_origin i [] best k e h = inl h
  select_from_origin i (v ∷ vals) best k e h =
      elim (select_from_origin (suc i) vals (weigh c i v best) k e h) [
        | inl here ↦ elim (consider_origin i v best k e here) [
          | inl before ↦ inl before
          | inr (at, same, read) ↦ inr (0, omega arith, ap some (sym same), read)
        ]
        | inr (n, at, there, read) ↦ inr (suc n, omega arith, there, read)
      ]

  -- The loop ends without a value only where it had none and saw none.
  abbrev Unread : List ℕ → Type 0
  Unread v = c.unmarshal_fn_record v ≡ none

  weigh-none :
      (i : ℕ) (v : List ℕ) (best : Best) → weigh c i v best ≡ none → (best ≡ none) × Unread v
  unfolding weigh
  weigh-none i v best h = elim (Option-cases (c.unmarshal_fn_record v)) [
    | inl unread ↦ (ground (arith, unread, h), unread)
    | inr (rec, read) ↦ absurd (ground (arith, read, h))
  ]

  select_from-none :
      (i : ℕ) (vals : List (List ℕ)) (best : Best)
      → select_from c i vals best ≡ none
      → (best ≡ none) × All Unread vals
  unfolding select_from
  select_from-none i [] best h = (h, tt)
  select_from-none i (v ∷ vals) best h =
      let (kept, others) = select_from-none (suc i) vals (weigh c i v best) h in
      let (before, here) = weigh-none i v best kept in (before, (here, others))

  -- The entry that Select chose, with what makes it the choice.
  pub record Chosen (vals : List (List ℕ)) (i : ℕ) (e : Entry) : Type 0 where
    pub at_index : get_elem? vals i ≡ some e.1
    pub reads : Reads e
    pub not_outranked : (j : ℕ) (d : Entry) → get_elem? vals j ≡ some d.1 → Reads d → ¬ Outranks d e

  -- What each answer of Select means.
  abbrev pub Outcome : List (List ℕ) → Selected → Type 0
  Outcome vals (selected i) = (e : Entry) × Chosen vals i e
  Outcome vals (refused no_values) = vals ≡ []
  Outcome vals (refused no_valid_values) = (vals ≢ []) × All Unread vals

  Beaten-Chosen :
      (vals : List (List ℕ)) (k : ℕ) (e : Entry)
      → select_from c 0 vals none ≡ some (k, e)
      → Chosen vals k e
  Beaten-Chosen vals k e found = elim (select_from_origin 0 vals none k e found) [
    | inl before ↦ absurd (ground (arith, before))
    | inr (n, at, there, read) ↦ record {
      at_index = ground (arith, at, there);
      reads = read;
      not_outranked = λ j (r, v) at_j read_d over.
          let (_, others) = select_from-Beaten 0 vals none k e found in
          let worse : better (r, v) e ≡ false =
            All-get_elem (NotBetter e) vals j v others at_j r read_d in
          absurd (ground (arith, worse, (better_iff (r, v) e).1 over));
    }
  ]

  -- Select answers the index of a value that holds a record and that no value holding a record
  -- outranks, by sequence number, then end of life, then bytes; it refuses only an empty list, or
  -- one of which no value holds a record.
  pub select-Outcome : (vals : List (List ℕ)) → Outcome vals (select c vals)
  unfolding select
  select-Outcome [] = refl
  select-Outcome (v ∷ vals) =
      let e : answer (select_from c 0 (v ∷ vals) none) ≡ select c (v ∷ vals) = ground arith in
      subst (Outcome (v ∷ vals)) e (by_result (select_from c 0 (v ∷ vals) none) refl)
    where
      answer : Best → Selected
      answer none = refused no_valid_values
      answer (some (i, _)) = selected i

      by_result : (b : Best) → select_from c 0 (v ∷ vals) none ≡ b → Outcome (v ∷ vals) (answer b)
      by_result none h = (λ same. absurd cc, (select_from-none 0 (v ∷ vals) none h).1)
      by_result (some (k, e)) h = (e, Beaten-Chosen (v ∷ vals) k e h)

  better-equal : (a b : Entry) → better a b ≡ false → better b a ≡ false → a.1 ≡ b.1
  unfolding better_record
  better-equal (r, x) (s, y) e f =
      ground (arith, int_cases r.eol s.eol, int_cases s.eol r.eol, bytes_less_connex x y)

  Chosen-agree :
      (xs ys : List (List ℕ)) (i j : ℕ) (a b : Entry)
      → SameValues xs ys
      → Chosen xs i a
      → Chosen ys j b
      → a.1 ≡ b.1
  Chosen-agree xs ys i j a b same p q =
      let (i', a_in_ys) = (same a.1).0 (i, p.at_index) in
      let (j', b_in_xs) = (same b.1).1 (j, q.at_index) in
      better-equal a b (not_better a b (q.not_outranked i' a a_in_ys p.reads))
        (not_better b a (p.not_outranked j' b b_in_xs q.reads))
    where
      not_better : (d e : Entry) → ¬ Outranks d e → better d e ≡ false
      not_better d e below = elim (Bool-cases (better d e)) [
        | inl over ↦ absurd (below ((better_iff d e).0 over))
        | inr under ↦ under
      ]

  -- If two lists hold the same values, in any order and number, and Select answers an index for
  -- each, the values at the two indices are the same.
  pub select-agree :
      (xs ys : List (List ℕ)) (i j : ℕ)
      → SameValues xs ys
      → select c xs ≡ selected i
      → select c ys ≡ selected j
      → get_elem? xs i ≡ get_elem? ys j
  select-agree xs ys i j same p q =
      let (a, first) = subst (Outcome xs) p (select-Outcome xs) in
      let (b, second) = subst (Outcome ys) q (select-Outcome ys) in
      first.at_index ∙ ap some (Chosen-agree xs ys i j a b same first second) ∙ sym second.at_index
