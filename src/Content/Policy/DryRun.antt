-- ===== src/Content/Policy/DryRun.antt =====
-- The dry run of an eviction pass and the pass itself: they take the same victims, and give the
-- same answer.
use freedom_names.Common.{
  ℕ, zero, suc, ◌+◌, ◌≡◌, refl, sym, ap, ◌∙◌, subst, inl, inr, Bool, true, false, not, List, [],
  ◌∷◌, Option, none, some, String, if◌then◌else◌, arith, eq_iff, Bool-cases, Option-cases, length,
}
use freedom_names.Common.Assoc.{lookup, remove, member, has_key}
use freedom_names.Common.Assoc.Laws.{IsMap}
use freedom_names.Content.Store.{Hashing}
use freedom_names.Content.Index.{ContentIndex, ContentMeta, hosted_bytes}
use freedom_names.Content.Index.Sets.{sets-evict}
use freedom_names.Content.Index.Sizes.{hosted_bytes-evict}
use freedom_names.Content.Policy.{
  HostingPolicy, Victim, Pass, is_candidate, consider, pick_victim, take_victim, is_over, fit_loop,
  finish_pass, fit, start_pass, size_of, reserve, admit,
}
use freedom_names.Content.Policy.Loop.{
  Takes, pick_victim-Takes, fit_loop-fits, fit_loop-stuck, fit_loop-step,
}

-- The entries that were not spared.
without : List String → List (String × ContentMeta) → List (String × ContentMeta)
without ks [] = []
without ks ((r, m) ∷ sets) =
    let rest = without ks sets in if member r ks then rest else (r, m) ∷ rest

without-nil : (sets : List (String × ContentMeta)) → without [] sets ≡ sets
unfolding without member
without-nil [] = refl
without-nil ((r, m) ∷ sets) = ap (◌∷◌ (r, m)) (without-nil sets)

without-cons :
    (k : String) (ks : List String) (sets : List (String × ContentMeta))
    → without (k ∷ ks) sets ≡ remove k (without ks sets)
unfolding without member remove
without-cons k ks [] = refl
without-cons k ks ((r, m) ∷ sets) = ground (arith, eq_iff k r, eq_iff r k, without-cons k ks sets)

lookup-without :
    (ks : List String) (sets : List (String × ContentMeta)) (r : String)
    → lookup r (without ks sets) ≡ (if member r ks then none else lookup r sets)
unfolding without lookup
lookup-without ks [] r = ground arith
lookup-without ks ((j, m) ∷ sets) r = ground (arith, eq_iff j r, lookup-without ks sets r)

consider-spared :
    (p : HostingPolicy) (now : ℕ) (ks : List String) (r : String) (m : ContentMeta)
    (best : Option Victim)
    → member r ks ≡ true
    → consider p now ks r m best ≡ best
unfolding consider
consider-spared p now ks r m best e = ground arith

consider-unspared :
    (p : HostingPolicy) (now : ℕ) (ks : List String) (r : String) (m : ContentMeta)
    (best : Option Victim)
    → member r ks ≡ false
    → consider p now ks r m best ≡ consider p now [] r m best
unfolding consider member
consider-unspared p now ks r m best e = ground arith

pick_victim-without :
    (p : HostingPolicy) (now : ℕ) (ks : List String) (sets : List (String × ContentMeta))
    (best : Option Victim)
    → pick_victim p now ks sets best ≡ pick_victim p now [] (without ks sets) best
unfolding pick_victim without
pick_victim-without p now ks [] best = refl
pick_victim-without p now ks ((r, m) ∷ sets) best = elim (Bool-cases (member r ks)) [
  | inl e ↦ rw (e, consider-spared p now ks r m best e) (pick_victim-without p now ks sets best)
  | inr e ↦
      rw (e, consider-unspared p now ks r m best e)
        (pick_victim-without p now ks sets (consider p now [] r m best))
]

has_key-without :
    (ks : List String) (sets : List (String × ContentMeta)) (r : String)
    → has_key r sets ≡ false
    → has_key r (without ks sets) ≡ false
unfolding without has_key
has_key-without ks [] r e = e
has_key-without ks ((j, m) ∷ sets) r e = ground (arith, has_key-without ks sets r)

IsMap-without :
    (ks : List String) (sets : List (String × ContentMeta)) → IsMap sets → IsMap (without ks sets)
unfolding without
IsMap-without ks [] u = tt
IsMap-without ks ((r, m) ∷ sets) (new, u) =
    ground (arith, has_key-without ks sets r new, IsMap-without ks sets u)

pub hosted_candidate :
    (p : HostingPolicy) (now : ℕ) (m : ContentMeta) → is_candidate p now m ≡ true → m.owned ≡ false
unfolding is_candidate
hosted_candidate p now m can = ground arith

none-ne-some : {v : Victim} → none ≡ some v → ⊥
none-ne-some e = cc

module _ (hashing : Hashing) (p : HostingPolicy) (now : ℕ) where
  -- A dry run and an applied pass at the same point.
  record Agree (s t : Pass) : Type 0 where
    keys : IsMap s.ix.sets
    nothing_spared : t.spared ≡ []
    nothing_freed : t.freed ≡ 0
    left_over : t.ix.sets ≡ without s.spared s.ix.sets
    counted : hosted_bytes t.ix + s.freed ≡ hosted_bytes s.ix

  Agree-is_over :
      (s t : Pass) (size : ℕ)
      → Agree s t
      → is_over hashing p now size s ≡ is_over hashing p now size t
  unfolding is_over
  Agree-is_over s t size a = ground (arith, a.nothing_freed, a.counted)

  Agree-pick :
      (s t : Pass)
      → Agree s t
      → pick_victim p now s.spared s.ix.sets none ≡ pick_victim p now t.spared t.ix.sets none
  Agree-pick s t a =
      rw (a.nothing_spared, a.left_over) (pick_victim-without p now s.spared s.ix.sets none)

  Agree-take :
      (s t : Pass) (v : Victim)
      → Agree s t
      → Takes p now s.spared s.ix.sets v
      → Agree (take_victim hashing p now false s v.root) (take_victim hashing p now true t v.root)
  unfolding take_victim
  Agree-take s t v a (m, at, can, unspared, x, o) = record {
    keys = a.keys;
    nothing_spared = a.nothing_spared;
    nothing_freed = a.nothing_freed;
    left_over =
        sets-evict hashing t.ix v.root m there
        ∙ ap (remove v.root) a.left_over
        ∙ sym (without-cons v.root s.spared s.ix.sets);
    counted = omega (
      arith,
      a.counted,
      ap size_of at,
      hosted_bytes-evict hashing t.ix v.root m there
          (rw a.left_over (IsMap-without s.spared s.ix.sets a.keys)) (hosted_candidate p now m can),
    );
  }
    where
      there : lookup v.root t.ix.sets ≡ some m
      there = ground (arith, a.left_over, at, unspared, lookup-without s.spared s.ix.sets v.root)

  pub chosen-Takes :
      (s : Pass) (v : Victim)
      → IsMap s.ix.sets
      → pick_victim p now s.spared s.ix.sets none ≡ some v
      → Takes p now s.spared s.ix.sets v
  chosen-Takes s v u e = elim (pick_victim-Takes p now s.spared s.ix.sets none v u e) [
    | inl e ↦ absurd (none-ne-some e)
    | inr t ↦ t
  ]

  Agree-loop :
      (fuel size : ℕ) (s t : Pass)
      → Agree s t
      → (fit_loop hashing p now fuel false size s).0 ≡ (fit_loop hashing p now fuel true size t).0
  Agree-loop zero size s t a = unfold fit_loop in ap not (Agree-is_over s t size a)
  Agree-loop (suc fuel) size s t a = elim (Bool-cases (is_over hashing p now size s)) [
    | inr fits ↦ rw (
      fit_loop-fits hashing p now fuel false size s fits,
      fit_loop-fits hashing p now fuel true size t (sym (Agree-is_over s t size a) ∙ fits),
    )
    | inl over ↦
        let over' : is_over hashing p now size t ≡ true = sym (Agree-is_over s t size a) ∙ over in
        elim (Option-cases (pick_victim p now s.spared s.ix.sets none)) [
          | inl nobody ↦ rw (
            fit_loop-stuck hashing p now fuel false size s over nobody,
            fit_loop-stuck hashing p now fuel true size t over' (sym (Agree-pick s t a) ∙ nobody),
          )
          | inr (v, chosen) ↦ rw (
            fit_loop-step hashing p now fuel false size s v over chosen,
            fit_loop-step hashing p now fuel true size t v over' (sym (Agree-pick s t a) ∙ chosen),
            Agree-loop fuel size _ _ (Agree-take s t v a (chosen-Takes s v a.keys chosen)),
          )
        ]
  ]

  start_Agree : (ix : ContentIndex) → IsMap ix.sets → Agree (start_pass ix) (start_pass ix)
  start_Agree ix u = record {
    keys = u;
    nothing_spared = refl;
    nothing_freed = refl;
    left_over = sym (without-nil ix.sets);
    counted = omega arith;
  }

  fit-agrees :
      (ix : ContentIndex) (size : ℕ)
      → IsMap ix.sets
      → (fit hashing p now ix size false).0 ≡ (fit hashing p now ix size true).0
  unfolding fit finish_pass
  fit-agrees ix size u =
      ground
        (arith, Agree-loop (length ix.sets) size (start_pass ix) (start_pass ix) (start_Agree ix u))

  dry_take :
      (s : Pass) (root : String)
      → ((take_victim hashing p now false s root).ix ≡ s.ix)
        × ((take_victim hashing p now false s root).evicted ≡ s.evicted)
  unfolding take_victim
  dry_take s root = (refl, refl)

  -- A dry run leaves the index alone.
  abbrev Still : Pass → Bool × Pass → Type 0
  Still s r = (r.1.ix ≡ s.ix) × (r.1.evicted ≡ s.evicted)

  dry_loop-Still : (fuel size : ℕ) (s : Pass) → Still s (fit_loop hashing p now fuel false size s)
  dry_loop-Still zero size s = unfold fit_loop in (refl, refl)
  dry_loop-Still (suc fuel) size s = elim (Bool-cases (is_over hashing p now size s)) [
    | inr fits ↦
        subst (Still s) (sym (fit_loop-fits hashing p now fuel false size s fits)) (refl, refl)
    | inl over ↦ elim (Option-cases (pick_victim p now s.spared s.ix.sets none)) [
      | inl nobody ↦
          subst (Still s) (sym (fit_loop-stuck hashing p now fuel false size s over nobody))
            (refl, refl)
      | inr (v, chosen) ↦
          let (same, quiet) = dry_take s v.root in
          let (same', quiet') =
            dry_loop-Still fuel size (take_victim hashing p now false s v.root) in
          subst (Still s) (sym (fit_loop-step hashing p now fuel false size s v over chosen))
            (same' ∙ same, quiet' ∙ quiet)
    ]
  ]

  fit-still : (ix : ContentIndex) (size : ℕ) → (fit hashing p now ix size false).1 ≡ ix
  unfolding fit finish_pass
  fit-still ix size =
      let (same, quiet) = dry_loop-Still (length ix.sets) size (start_pass ix) in ground arith

  -- With distinct set keys, a reservation answers what an admission of the same size would answer;
  -- it adds the size to the reserved bytes if it is granted, and changes nothing else in the index.
  pub reserve_lem :
      (ix : ContentIndex) (size : ℕ)
      → IsMap ix.sets
      → reserve hashing p now ix size ≡ (
          if (admit hashing p now ix size).0
          then (true, record ix { reserved = ix.reserved + size })
          else (false, ix))
  unfolding reserve admit
  reserve_lem ix size u = ground (arith, fit-agrees ix size u, fit-still ix size)
