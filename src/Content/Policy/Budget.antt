-- ===== src/Content/Policy/Budget.antt =====
-- What an eviction pass ends with: the hosted bytes against the budget, and what it leaves alone.
use freedom_names.Common.{
  ℕ, zero, suc, ◌+◌, ◌<◌, ◌≤◌, ◌≡◌, refl, sym, subst, inl, inr, ◌⊎◌, Bool, true, false, ◌||◌, List,
  [], ◌∷◌, none, some, String, if◌then◌else◌, arith, eq_iff, Bool-cases, Option-cases, ltb, length,
}
use freedom_names.Common.Assoc.{lookup, remove, member}
use freedom_names.Common.Assoc.Laws.{IsMap, remove-IsMap, remove-missing}
use freedom_names.Content.Store.{Hashing}
use freedom_names.Content.Index.{ContentIndex, ContentMeta, evict, save, hosted_bytes}
use freedom_names.Content.Index.Sets.{sets-evict}
use freedom_names.Content.Policy.{
  HostingPolicy, Victim, Pass, is_candidate, pick_victim, take_victim, is_over, fit_loop,
  finish_pass, fit, start_pass, admit,
}
use freedom_names.Content.Policy.Loop.{
  Takes, pick_victim-none, fit_loop-fits, fit_loop-stuck, fit_loop-step, fit_loop-zero,
}
use freedom_names.Content.Policy.DryRun.{chosen-Takes}

length-remove :
    (r : String) (m : ContentMeta) (sets : List (String × ContentMeta))
    → IsMap sets
    → lookup r sets ≡ some m
    → length (remove r sets) < length sets
unfolding remove lookup
length-remove r m [] u e = cc
length-remove r m ((j, w) ∷ sets) (new, u) e =
    ground (arith, eq_iff j r, remove-missing j sets new, length-remove r m sets u)

length-zero : (sets : List (String × ContentMeta)) → length sets ≤ 0 → sets ≡ []
length-zero [] e = refl
length-zero (x ∷ sets) e = ground arith

saved_same :
    (evicted : Bool) (ix : ContentIndex)
    → ((if evicted then save ix else ix).sets ≡ ix.sets)
      × (hosted_bytes (if evicted then save ix else ix) ≡ hosted_bytes ix)
unfolding save hosted_bytes
saved_same evicted ix = ground arith

module _ (hashing : Hashing) (p : HostingPolicy) (now : ℕ) where
  -- No set is left that a pass may take.
  abbrev pub Exhausted : ContentIndex → Type 0
  Exhausted ix =
      (r : String) (m : ContentMeta) → lookup r ix.sets ≡ some m → is_candidate p now m ≡ false

  -- What evicting a candidate keeps, a pass keeps.
  module _ (P : ContentIndex → Type 0)
      (keep : (ix : ContentIndex) (root : String) (m : ContentMeta)
        → lookup root ix.sets ≡ some m
        → is_candidate p now m ≡ true
        → P ix
        → P (evict hashing ix root)) where
    -- An applied pass with `fuel` rounds left.
    record Running (fuel : ℕ) (s : Pass) : Type 0 where
      keys : IsMap s.ix.sets
      unspared : s.spared ≡ []
      unfreed : s.freed ≡ 0
      enough : length s.ix.sets ≤ fuel
      holds : P s.ix

    -- How a pass ends.
    record Done (size : ℕ) (fits : Bool) (s : Pass) : Type 0 where
      done_keys : IsMap s.ix.sets
      done_holds : P s.ix
      room : fits ≡ true → hosted_bytes s.ix + size ≤ p.budget
      none_left : fits ≡ false → (p.budget < hosted_bytes s.ix + size) × Exhausted s.ix

    Running-take :
        (fuel : ℕ) (s : Pass) (v : Victim)
        → Running (suc fuel) s
        → Takes p now s.spared s.ix.sets v
        → Running fuel (take_victim hashing p now true s v.root)
    unfolding take_victim
    Running-take fuel s v r (m, at, can, unspared, x, o) = record {
      keys = rw (sets-evict hashing s.ix v.root m at) (remove-IsMap v.root s.ix.sets r.keys);
      unspared = r.unspared;
      unfreed = r.unfreed;
      enough =
          rw (sets-evict hashing s.ix v.root m at)
            (omega (arith, r.enough, length-remove v.root m s.ix.sets r.keys at));
      holds = keep s.ix v.root m at can r.holds;
    }

    stuck-Exhausted :
        (s : Pass)
        → s.spared ≡ []
        → pick_victim p now s.spared s.ix.sets none ≡ none
        → Exhausted s.ix
    unfolding member
    stuck-Exhausted s e f r m at =
        let (same, others) = pick_victim-none p now s.spared s.ix.sets none f in
        elim (Bool-cases (is_candidate p now m)) [
          | inl can ↦ ground (arith, others r m at can)
          | inr cannot ↦ cannot
        ]

    Done-fits :
        (s : Pass) (size : ℕ)
        → IsMap s.ix.sets
        → P s.ix
        → s.freed ≡ 0
        → is_over hashing p now size s ≡ false
        → Done size true s
    unfolding is_over
    Done-fits s size k h z e = record {
      done_keys = k;
      done_holds = h;
      room = λ f. ground arith;
      none_left = λ f. cc;
    }

    Done-stuck :
        (s : Pass) (size : ℕ)
        → IsMap s.ix.sets
        → P s.ix
        → s.freed ≡ 0
        → is_over hashing p now size s ≡ true
        → Exhausted s.ix
        → Done size false s
    unfolding is_over
    Done-stuck s size k h z e x = record {
      done_keys = k;
      done_holds = h;
      room = λ f. cc;
      none_left = λ f. (ground arith, x);
    }

    empty-Exhausted : (s : Pass) → length s.ix.sets ≤ 0 → Exhausted s.ix
    unfolding lookup
    empty-Exhausted s e r m at = ground (arith, length-zero s.ix.sets e)

    -- As many rounds as there are sets are enough.
    loop_Done :
        (fuel size : ℕ) (s : Pass)
        → Running fuel s
        → let r = fit_loop hashing p now fuel true size s in Done size r.0 r.1
    loop_Done zero size s r = elim (Bool-cases (is_over hashing p now size s)) [
      | inr fits ↦
          rw (fit_loop-zero hashing p now true size s, fits)
            (Done-fits s size r.keys r.holds r.unfreed fits)
      | inl over ↦
          rw (fit_loop-zero hashing p now true size s, over)
            (Done-stuck s size r.keys r.holds r.unfreed over (empty-Exhausted s r.enough))
    ]
    loop_Done (suc fuel) size s r = elim (Bool-cases (is_over hashing p now size s)) [
      | inr fits ↦
          rw (fit_loop-fits hashing p now fuel true size s fits)
            (Done-fits s size r.keys r.holds r.unfreed fits)
      | inl over ↦ elim (Option-cases (pick_victim p now s.spared s.ix.sets none)) [
        | inl nobody ↦
            rw (fit_loop-stuck hashing p now fuel true size s over nobody) (
              Done-stuck s size r.keys r.holds r.unfreed over (stuck-Exhausted s r.unspared nobody))
        | inr (v, chosen) ↦ rw (fit_loop-step hashing p now fuel true size s v over chosen) (
            loop_Done fuel size _
              (Running-take fuel s v r (chosen-Takes hashing p now s v r.keys chosen)))
      ]
    ]

    -- How an applied pass ends: it was refused by the size alone, or it ran.
    abbrev Ends : ContentIndex → ℕ → Bool → ContentIndex → Type 0
    Ends ix size fits ix' =
        ((fits ≡ false) × ((p.max_size < size) ⊎ (p.budget < size)) × (ix' ≡ ix))
        ⊎ (s : Pass) × Done size fits s
          × (size ≤ p.max_size)
          × (ix' ≡ (if s.evicted then save s.ix else s.ix))

    fit-Ends :
        (ix : ContentIndex) (size : ℕ)
        → IsMap ix.sets
        → P ix
        → Ends ix size (fit hashing p now ix size true).0 (fit hashing p now ix size true).1
    unfolding fit finish_pass
    fit-Ends ix size u h = elim (Bool-cases (ltb p.max_size size || ltb p.budget size)) [
      | inl big ↦ rw big (inl (refl, ground arith, refl))
      | inr small ↦
          let start : Running (length ix.sets) (start_pass ix) = record {
            keys = u;
            unspared = refl;
            unfreed = refl;
            enough = omega arith;
            holds = h;
          } in
          rw small (
            inr (
              (fit_loop hashing p now (length ix.sets) true size (start_pass ix)).1,
              loop_Done (length ix.sets) size (start_pass ix) start,
              ground arith,
              refl,
            ))
    ]

    -- What eviction and saving keep, a pass keeps.
    pub fit-keeps :
        (ix : ContentIndex) (size : ℕ)
        → ((jx : ContentIndex) → P jx → P (save jx))
        → IsMap ix.sets
        → P ix
        → P (fit hashing p now ix size true).1
    fit-keeps ix size saves u h = elim (fit-Ends ix size u h) [
      | inl (f, b, same) ↦ subst P (sym same) h
      | inr (s, d, b, same) ↦ subst P (sym same) (elim (Bool-cases s.evicted) [
        | inl e ↦ rw e (saves s.ix d.done_holds)
        | inr e ↦ rw e d.done_holds
      ])
    ]

  abbrev Outcome : ContentIndex → ℕ → Bool → ContentIndex → Type 0
  Outcome ix size fits ix' =
      (fits ≡ true → (size ≤ p.max_size) × (hosted_bytes ix' + size ≤ p.budget))
      × (fits ≡ false
          → (((p.max_size < size) ⊎ (p.budget < size)) × (ix' ≡ ix))
            ⊎ (p.budget < hosted_bytes ix' + size) × Exhausted ix')

  abbrev Anything : ContentIndex → Type 0
  Anything ix = Unit

  anything_kept :
      (ix : ContentIndex) (root : String) (m : ContentMeta)
      → lookup root ix.sets ≡ some m
      → is_candidate p now m ≡ true
      → Anything ix
      → Anything (evict hashing ix root)
  anything_kept ix root m at can h = tt

  Done-Outcome :
      (ix ix' : ContentIndex) (size : ℕ) (fits : Bool) (s : Pass)
      → Done Anything anything_kept size fits s
      → size ≤ p.max_size
      → (ix'.sets ≡ s.ix.sets) × (hosted_bytes ix' ≡ hosted_bytes s.ix)
      → Outcome ix size fits ix'
  Done-Outcome ix ix' size fits s d b (same, bytes) = (
    λ f. (b, rw bytes (d.room f)),
    λ f.
        let (over, none_left) = d.none_left f in
        inr (rw bytes over, λ r m at. none_left r m (rw same at at)),
  )

  fit-Outcome :
      (ix : ContentIndex) (size : ℕ)
      → IsMap ix.sets
      → Outcome ix size (fit hashing p now ix size true).0 (fit hashing p now ix size true).1
  fit-Outcome ix size u =
      let r = fit hashing p now ix size true in
      elim (fit-Ends Anything anything_kept ix size u tt) [
        | inl (f, b, same) ↦ (λ f'. cc, λ f'. inl (b, same))
        | inr (s, d, b, same) ↦ Done-Outcome ix r.1 size r.0 s d b (
            subst
              (λ (jx : ContentIndex). (jx.sets ≡ s.ix.sets) × (hosted_bytes jx ≡ hosted_bytes s.ix))
              (sym same) (saved_same s.evicted s.ix))
      ]

  -- With distinct set keys, an admitted size fits the cap of one set and, with the hosted bytes
  -- after the pass, the budget; a refused size is over the cap or the budget by itself and the
  -- index is unchanged, or it does not fit what the pass leaves and no set that a pass may take is
  -- left.
  pub admit_lem :
      (ix ix' : ContentIndex) (size : ℕ) (fits : Bool)
      → IsMap ix.sets
      → admit hashing p now ix size ≡ (fits, ix')
      → (fits ≡ true → (size ≤ p.max_size) × (hosted_bytes ix' + size ≤ p.budget))
        × (fits ≡ false
            → (((p.max_size < size) ⊎ (p.budget < size)) × (ix' ≡ ix))
              ⊎ (p.budget < hosted_bytes ix' + size) × Exhausted ix')
  unfolding admit
  admit_lem ix ix' size fits u e =
      subst (λ (r : Bool × ContentIndex). Outcome ix size r.0 r.1) e (fit-Outcome ix size u)
