-- ===== src/Content/Policy/Loop.antt =====
-- The choice of a victim, and a rule for the eviction loop.
use freedom_names.Common.{
  ℕ, suc, ◌≤◌, ◌≡◌, refl, sym, ap, ◌∙◌, subst, inl, inr, ◌⊎◌, Bool, true, false, not, ◌&&◌, List,
  [], ◌∷◌, Option, none, some, String, arith, eq_iff, str_eq, str_eq_refl, Bool-cases, Option-cases,
}
use freedom_names.Common.Assoc.{lookup, member, has_key}
use freedom_names.Common.Assoc.Laws.{IsMap, lookup-has_key}
use freedom_names.Content.Store.{Hashing}
use freedom_names.Content.Index.{ContentMeta}
use freedom_names.Content.Policy.{
  HostingPolicy, Victim, Pass, is_expired, is_candidate, is_better, consider, pick_victim,
  take_victim, is_over, fit_loop,
}

module _ (p : HostingPolicy) (now : ℕ) where
  -- A victim is a candidate that was not spared.
  abbrev pub Takes : List String → List (String × ContentMeta) → Victim → Type 0
  Takes spared sets v =
      (m : ContentMeta) × (lookup v.root sets ≡ some m)
      × (is_candidate p now m ≡ true)
      × (member v.root spared ≡ false)
      × (v.expired ≡ is_expired p now m)
      × (v.oldest ≡ m.last_access)

  abbrev pub as_victim : String → ContentMeta → Victim
  as_victim root m = record { root = root; expired = is_expired p now m; oldest = m.last_access }

  -- An entry is passed over, or it is a candidate that beats the best so far.
  consider-cases :
      (spared : List String) (root : String) (m : ContentMeta) (best : Option Victim)
      → ((consider p now spared root m best ≡ best)
          × ((is_candidate p now m && not (member root spared)) ≡ true
              → is_better (is_expired p now m) m.last_access best ≡ false))
        ⊎ ((consider p now spared root m best ≡ some (as_victim root m))
            × (is_candidate p now m ≡ true)
            × (member root spared ≡ false)
            × (is_better (is_expired p now m) m.last_access best ≡ true))
  unfolding consider is_candidate
  consider-cases spared root m best =
      let x = is_expired p now m in
      elim (Bool-cases (is_candidate p now m && not (member root spared))) [
        | inl can ↦ elim (Bool-cases (is_better x m.last_access best)) [
          | inl better ↦ inr (ground arith, ground arith, ground arith, better)
          | inr worse ↦ inl (ground arith, λ e. worse)
        ]
        | inr cannot ↦ inl (ground arith, λ e. ground arith)
      ]

  later :
      (root : String) (m : ContentMeta) (rest : List (String × ContentMeta)) (r : String)
      (m' : ContentMeta)
      → has_key root rest ≡ false
      → lookup r rest ≡ some m'
      → lookup r ((root, m) ∷ rest) ≡ some m'
  unfolding lookup
  later root m rest r m' new at = ground (arith, eq_iff root r, lookup-has_key root rest new)

  here_first :
      (v : Victim) (root : String) (m : ContentMeta) (rest : List (String × ContentMeta))
      (spared : List String)
      → some (as_victim root m) ≡ some v
      → is_candidate p now m ≡ true
      → member root spared ≡ false
      → Takes spared ((root, m) ∷ rest) v
  unfolding lookup
  here_first v root m rest spared e can unspared =
      (m, ground (arith, str_eq_refl root), can, ground arith, ground arith, ground arith)

  pub pick_victim-Takes :
      (spared : List String) (sets : List (String × ContentMeta)) (best : Option Victim)
      (v : Victim)
      → IsMap sets
      → pick_victim p now spared sets best ≡ some v
      → (best ≡ some v) ⊎ Takes spared sets v
  unfolding pick_victim
  pick_victim-Takes spared [] best v u e = inl e
  pick_victim-Takes spared ((root, m) ∷ rest) best v (new, u) e =
      let best' = consider p now spared root m best in
      elim (pick_victim-Takes spared rest best' v u e) [
        | inr (m', at, can, unspared, x, o) ↦
            inr (m', later root m rest v.root m' new at, can, unspared, x, o)
        | inl chosen ↦ elim (consider-cases spared root m best) [
          | inl (kept, worse) ↦ inl (sym kept ∙ chosen)
          | inr (taken, can, unspared, better) ↦
              inr (here_first v root m rest spared (sym taken ∙ chosen) can unspared)
        ]
      ]

  consider-none :
      (spared : List String) (root : String) (m : ContentMeta) (best : Option Victim)
      → consider p now spared root m best ≡ none
      → (best ≡ none) × (is_candidate p now m ≡ true → member root spared ≡ true)
  unfolding consider is_candidate is_better
  consider-none spared root m best e = (ground arith, λ can. ground arith)

  -- No entry that was not spared is left out when the choice is empty.
  pub pick_victim-none :
      (spared : List String) (sets : List (String × ContentMeta)) (best : Option Victim)
      → pick_victim p now spared sets best ≡ none
      → (best ≡ none)
        × ((r : String) (m : ContentMeta)
            → lookup r sets ≡ some m
            → is_candidate p now m ≡ true
            → member r spared ≡ true)
  unfolding pick_victim lookup
  pick_victim-none spared [] best e = (e, λ r m at can. cc)
  pick_victim-none spared ((root, m) ∷ rest) best e =
      let (chosen, others) = pick_victim-none spared rest (consider p now spared root m best) e in
      let (empty, spares) = consider-none spared root m best chosen in
      (empty, λ r m' at can. ground (arith, eq_iff root r, spares, others r m'))

  -- `v` comes no later in the order of eviction than an entry with this expiry and access time.
  abbrev pub Before : Victim → Bool → ℕ → Type 0
  Before v expired last_access =
      (expired ≡ true → v.expired ≡ true) × (expired ≡ v.expired → v.oldest ≤ last_access)

  Before-trans :
      (v b : Victim) (x : Bool) (o : ℕ) → Before v b.expired b.oldest → Before b x o → Before v x o
  Before-trans v b x o (h, k) (h', k') = (λ e. ground arith, λ e. ground arith)

  better-Before :
      (root : String) (m : ContentMeta) (b : Victim)
      → is_better (is_expired p now m) m.last_access (some b) ≡ true
      → Before (as_victim root m) b.expired b.oldest
  unfolding is_better
  better-Before root m b e = (λ x. ground arith, λ x. ground arith)

  worse-Before :
      (m : ContentMeta) (b : Victim)
      → is_better (is_expired p now m) m.last_access (some b) ≡ false
      → Before b (is_expired p now m) m.last_access
  unfolding is_better
  worse-Before m b e = (λ x. ground arith, λ x. ground arith)

  consider-Before :
      (spared : List String) (root : String) (m : ContentMeta) (b : Victim)
      → (b' : Victim) × (consider p now spared root m (some b) ≡ some b')
        × Before b' b.expired b.oldest
  consider-Before spared root m b = elim (consider-cases spared root m (some b)) [
    | inl (same, worse) ↦ (b, same, (λ e. e, λ e. omega arith))
    | inr (taken, can, unspared, better) ↦ (as_victim root m, taken, better-Before root m b better)
  ]

  first-better : (m : ContentMeta) → is_better (is_expired p now m) m.last_access none ≡ false → ⊥
  unfolding is_better
  first-better m e = cc

  consider-candidate :
      (spared : List String) (root : String) (m : ContentMeta) (best : Option Victim)
      → (is_candidate p now m && not (member root spared)) ≡ true
      → (b : Victim) × (consider p now spared root m best ≡ some b)
        × Before b (is_expired p now m) m.last_access
  consider-candidate spared root m best can = elim (consider-cases spared root m best) [
    | inr (taken, c, unspared, better) ↦ (as_victim root m, taken, (λ e. e, λ e. omega arith))
    | inl (same, worse) ↦ elim (Option-cases best) [
      | inl e ↦ absurd (first-better m (rw e at (worse can)))
      | inr (b, e) ↦ (b, same ∙ e, worse-Before m b (rw e at (worse can)))
    ]
  ]

  pick_victim-Before :
      (spared : List String) (sets : List (String × ContentMeta)) (b v : Victim)
      → pick_victim p now spared sets (some b) ≡ some v
      → Before v b.expired b.oldest
  unfolding pick_victim
  pick_victim-Before spared [] b v e = (λ x. ground arith, λ x. ground arith)
  pick_victim-Before spared ((root, m) ∷ rest) b v e =
      let (b', chosen, before) = consider-Before spared root m b in
      Before-trans v b' b.expired b.oldest
        (pick_victim-Before spared rest b' v (ap (pick_victim p now spared rest) (sym chosen) ∙ e))
        before

  -- What was noted of the best so far, or of the victim, comes before any candidate.
  pick_victim-Before_all :
      (spared : List String) (sets : List (String × ContentMeta)) (best : Option Victim)
      (v : Victim) (r : String) (m : ContentMeta)
      → pick_victim p now spared sets best ≡ some v
      → lookup r sets ≡ some m
      → is_candidate p now m ≡ true
      → member r spared ≡ false
      → Before v (is_expired p now m) m.last_access
  unfolding pick_victim lookup
  pick_victim-Before_all spared [] best v r m e at can unspared = cc
  pick_victim-Before_all spared ((root, m') ∷ rest) best v r m e at can unspared =
      elim (Bool-cases (str_eq root r)) [
        | inl hit ↦
            let same : m' ≡ m = ground arith in
            let c : (is_candidate p now m' && not (member root spared)) ≡ true =
              ground (arith, eq_iff root r) in
            let (b, chosen, before) = consider-candidate spared root m' best c in
            Before-trans v b (is_expired p now m) m.last_access
              (pick_victim-Before spared rest b v
                (ap (pick_victim p now spared rest) (sym chosen) ∙ e))
              (subst (λ (x : ContentMeta). Before b (is_expired p now x) x.last_access) same before)
        | inr miss ↦
            pick_victim-Before_all spared rest (consider p now spared root m' best) v r m e
              (ground arith) can unspared
      ]

  -- If a pass over sets with distinct roots chooses a victim, then its root is that of a set that
  -- is a candidate and was not spared, and beside any other candidate that was not spared that set
  -- is expired if the other is, and among those of equal expiry it was accessed no later.
  pub pick_victim-first :
      (spared : List String) (sets : List (String × ContentMeta)) (v : Victim) (r : String)
      (m : ContentMeta)
      → IsMap sets
      → pick_victim p now spared sets none ≡ some v
      → lookup r sets ≡ some m
      → is_candidate p now m ≡ true
      → member r spared ≡ false
      → (chosen : ContentMeta) × (lookup v.root sets ≡ some chosen)
        × (is_candidate p now chosen ≡ true)
        × (member v.root spared ≡ false)
        × Before (as_victim v.root chosen) (is_expired p now m) m.last_access
  pick_victim-first spared sets v r m keys e at can unspared =
      elim (pick_victim-Takes spared sets none v keys e) [
        | inl never ↦ absurd (ground (arith, never))
        | inr (chosen, there, is_one, free, x, o) ↦
            let (h, k) = pick_victim-Before_all spared sets none v r m e at can unspared in
            (chosen, there, is_one, free, ((λ e'. sym x ∙ h e'), (λ e'. rw (← o) (k (e' ∙ sym x)))))
      ]

-- The rounds of the loop.
module _ (hashing : Hashing) (p : HostingPolicy) (now fuel : ℕ) (apply : Bool) (size : ℕ)
    (s : Pass) where
  pub fit_loop-fits :
      is_over hashing p now size s ≡ false
      → fit_loop hashing p now (suc fuel) apply size s ≡ (true, s)
  unfolding fit_loop
  fit_loop-fits e = rw (e, fit_loop)

  pub fit_loop-stuck :
      is_over hashing p now size s ≡ true
      → pick_victim p now s.spared s.ix.sets none ≡ none
      → fit_loop hashing p now (suc fuel) apply size s ≡ (false, s)
  unfolding fit_loop
  fit_loop-stuck e f = rw (e, f, fit_loop)

  pub fit_loop-step :
      (v : Victim)
      → is_over hashing p now size s ≡ true
      → pick_victim p now s.spared s.ix.sets none ≡ some v
      → fit_loop hashing p now (suc fuel) apply size s
        ≡ fit_loop hashing p now fuel apply size (take_victim hashing p now apply s v.root)
  unfolding fit_loop
  fit_loop-step v e f = rw (e, f, fit_loop)

pub fit_loop-zero :
    (hashing : Hashing) (p : HostingPolicy) (now : ℕ) (apply : Bool) (size : ℕ) (s : Pass)
    → fit_loop hashing p now 0 apply size s ≡ (not (is_over hashing p now size s), s)
unfolding fit_loop
fit_loop-zero hashing p now apply size s = refl
