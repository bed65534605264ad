-- ===== src/Content/Writers/Claims.antt =====
-- What the critical sections do to the claims and the files.
use freedom_names.Common.{
  ℕ, ◌<◌, ◌≡◌, refl, ◌∙◌, inl, inr, ◌⊎◌, Bool, true, false, List, [], ◌∷◌, String, arith, eq_iff,
  Bool-cases, Option-cases,
}
use freedom_names.Common.Assoc.{lookup, insert, remove, delete, is_empty}
use freedom_names.Common.Assoc.Laws.{IsMap, insert-IsMap}
use freedom_names.Content.Store.{Hashing}
use freedom_names.Content.Index.{
  ContentIndex, ContentMeta, evict, save, flush, hosted_meta, refs, pending_count, set_blobs,
  has_set, touch, touch_all, touch_blob, reference, add_hosted_set, claim_refs, claim_ref,
  release_hashes, release_claim, release_ref, release_refs,
}
use freedom_names.Content.Index.Blobs.{
  on_disk, pending-release_hashes, refs-release_hashes, release_hashes-keeps, release_ref-keeps,
  refs-release_ref, pending-release_ref,
}
use freedom_names.Content.Policy.{HostingPolicy, fit}
use freedom_names.Content.Policy.Budget.{fit-keeps}

-- A section that touches neither claims nor files.
abbrev pub Quiet : ContentIndex → ContentIndex → Type 0
Quiet ix ix' =
    (ix'.pending ≡ ix.pending) × (ix'.store ≡ ix.store) × (IsMap ix.sets → IsMap ix'.sets)

pub save-Quiet : (ix : ContentIndex) → Quiet ix (save ix)
unfolding save
save-Quiet ix = ground arith

pub flush-Quiet : (ix : ContentIndex) → Quiet ix (flush ix)
unfolding flush save
flush-Quiet ix = ground arith

pub touch-Quiet : (ix : ContentIndex) (root : String) (now : ℕ) → Quiet ix (touch ix root now)
unfolding touch
touch-Quiet ix root now = elim (Option-cases (lookup root ix.sets)) [
  | inl e ↦ rw (e, touch) (refl, refl, λ u. u)
  | inr (m, e) ↦
      rw (e, touch) (refl, refl, λ u. insert-IsMap root (record m { last_access = now }) ix.sets u)
]

touch_all-Quiet : (ix : ContentIndex) (rs : List String) (now : ℕ) → Quiet ix (touch_all ix rs now)
unfolding touch_all
touch_all-Quiet ix [] now = (refl, refl, λ u. u)
touch_all-Quiet ix (r ∷ rs) now =
    let (p, s, k) = touch-Quiet ix r now in
    let (p', s', k') = touch_all-Quiet (touch ix r now) rs now in (p' ∙ p, s' ∙ s, λ u. k' (k u))

pub touch_blob-Quiet : (ix : ContentIndex) (h : String) (now : ℕ) → Quiet ix (touch_blob ix h now)
unfolding touch_blob
touch_blob-Quiet ix h now = touch_all-Quiet ix (refs ix h) now

claim_refs-Quiet :
    (root : String) (ix : ContentIndex) (hs : List String)
    → ((claim_refs root ix hs).pending ≡ ix.pending)
      × ((claim_refs root ix hs).store ≡ ix.store)
      × ((claim_refs root ix hs).sets ≡ ix.sets)
unfolding claim_refs claim_ref
claim_refs-Quiet root ix [] = (refl, refl, refl)
claim_refs-Quiet root ix (h ∷ hs) = claim_refs-Quiet root (claim_ref root ix h) hs

pub recorded-Quiet :
    (ix : ContentIndex) (root : String) (m : ContentMeta)
    → Quiet ix (reference (record ix { sets = insert root m ix.sets }) root m)
unfolding reference
recorded-Quiet ix root m =
    let (p, s, k) =
      claim_refs-Quiet root (record ix { sets = insert root m ix.sets }) (set_blobs root m) in
    (p, s, λ u. rw k (insert-IsMap root m ix.sets u))

pub add_hosted_set-Quiet :
    (ix : ContentIndex) (root : String) (size : ℕ) (chunks : List String) (from : String) (now : ℕ)
    → Quiet ix (add_hosted_set ix root size chunks from now)
unfolding add_hosted_set
add_hosted_set-Quiet ix root size chunks from now = elim (Bool-cases (has_set ix root)) [
  | inl e ↦ rw e (touch-Quiet ix root now)
  | inr e ↦
      let m = hosted_meta size chunks from now in
      let (p, s, k) = recorded-Quiet ix root m in
      let (p', s', k') =
        save-Quiet (reference (record ix { sets = insert root m ix.sets }) root m) in
      rw e (p' ∙ p, s' ∙ s, λ u. k' (k u))
]

-- Claims given back without discarding leave the files.
pub store-release_hashes :
    (hashing : Hashing) (ix : ContentIndex) (hs : List String)
    → (release_hashes hashing false ix hs).store ≡ ix.store
unfolding release_hashes release_claim
store-release_hashes hashing ix [] = refl
store-release_hashes hashing ix (h ∷ hs) =
    store-release_hashes hashing (release_claim hashing false ix h) hs

-- A blob is not lost: if it is referenced or claimed, it is on disk.
abbrev pub Alive : String → ContentIndex → Type 0
Alive h ix = (is_empty (refs ix h) ≡ false) ⊎ (0 < pending_count ix h) → on_disk ix h ≡ true

delete_nonempty :
    (r : String) (s : List String) → is_empty (delete r s) ≡ false → is_empty s ≡ false
unfolding delete
delete_nonempty r [] e = e
delete_nonempty r (j ∷ s) e = refl

module _ (hashing : Hashing) where
  release_ref-Alive :
      (root : String) (ix : ContentIndex) (h j : String)
      → Alive j ix
      → Alive j (release_ref hashing root ix h)
  release_ref-Alive root ix h j a (inr held) =
      let held' : 0 < pending_count ix j = rw (pending-release_ref hashing root ix h j) at held in
      release_ref-keeps hashing root ix h j (a (inr held')) (inr held')
  release_ref-Alive root ix h j a (inl named) =
      release_ref-keeps hashing root ix h j
        (a (
          inl (
            ground (
              arith,
              named,
              eq_iff h j,
              refs-release_ref hashing root ix h j,
              delete_nonempty root (refs ix h),
            ))))
        (inl named)

  release_refs-Alive :
      (root : String) (ix : ContentIndex) (hs : List String) (j : String)
      → Alive j ix
      → Alive j (release_refs hashing root ix hs)
  unfolding release_refs
  release_refs-Alive root ix [] j a = a
  release_refs-Alive root ix (h ∷ hs) j a =
      release_refs-Alive root (release_ref hashing root ix h) hs j (release_ref-Alive root ix h j a)

  evict-Alive : (ix : ContentIndex) (root j : String) → Alive j ix → Alive j (evict hashing ix root)
  unfolding evict
  evict-Alive ix root j a = elim (Option-cases (lookup root ix.sets)) [
    | inl e ↦ rw (e, evict) a
    | inr (m, e) ↦
        rw (e, evict)
          (release_refs-Alive root (record ix { sets = remove root ix.sets }) (set_blobs root m) j
            a)
  ]

  save-Alive : (ix : ContentIndex) (j : String) → Alive j ix → Alive j (save ix)
  unfolding save
  save-Alive ix j a = elim (Bool-cases ix.savable) [ inl e ↦ simp e a | inr e ↦ simp e a ]

  -- A pass deletes no blob that a set or a writer wants when it is over.
  pub fit-Alive :
      (p : HostingPolicy) (now : ℕ) (ix : ContentIndex) (size : ℕ) (j : String)
      → IsMap ix.sets
      → Alive j ix
      → Alive j (fit hashing p now ix size true).1
  fit-Alive p now ix size j u a =
      fit-keeps hashing p now (Alive j) (λ jx root m at can h. evict-Alive jx root j h) ix size
        (λ jx h. save-Alive jx j h) u a

  pub release_hashes-Alive :
      (d : Bool) (ix : ContentIndex) (hs : List String) (j : String)
      → on_disk ix j ≡ true
      → Alive j (release_hashes hashing d ix hs)
  release_hashes-Alive d ix hs j here (inl named) =
      release_hashes-keeps hashing d ix hs j here
        (inl (rw (refs-release_hashes hashing d ix hs j) at named))
  release_hashes-Alive d ix hs j here (inr held) =
      release_hashes-keeps hashing d ix hs j here
        (inr (omega (arith, held, pending-release_hashes hashing d ix hs j)))
