-- ===== src/Content/Policy/Commit.antt =====
-- What a pass leaves alone, and the commit of a set that was reserved.
use freedom_names.Common.{
  ℕ, ◌+◌, ◌-◌, ◌<◌, ◌≤◌, ◌≡◌, refl, ◌∙◌, inl, inr, Bool, true, false, List, [], ◌∷◌, none, some,
  String, if◌then◌else◌, arith, eq_iff, str_eq_refl, Option-cases,
}
use freedom_names.Common.Assoc.{lookup, insert, remove}
use freedom_names.Common.Assoc.Laws.{IsMap, remove-IsMap, lookup-remove, lookup-insert}
use freedom_names.Content.Store.{Hashing}
use freedom_names.Content.Index.{
  ContentIndex, ContentMeta, BlobClaims, evict, save, hosted_bytes, hosted_sizes, hosted_meta,
  pending_count, set_blobs, has_set, touch, reference, add_hosted_set, release_claims, claim_refs,
  claim_ref, release_hashes, release_claim, drop_blob,
}
use freedom_names.Content.Index.Blobs.{on_disk, pending-release_refs, release_refs-keeps}
use freedom_names.Content.Index.Sets.{
  sets-evict, IsWhole, evict-IsWhole, save-IsWhole, sets-release_hashes,
}
use freedom_names.Content.Index.Sizes.{reserved-evict}
use freedom_names.Content.Policy.{HostingPolicy, is_candidate, fit, admit, commit_hosted}
use freedom_names.Content.Policy.Budget.{fit-keeps, admit_lem}

pending-evict :
    (hashing : Hashing) (ix : ContentIndex) (root j : String)
    → pending_count (evict hashing ix root) j ≡ pending_count ix j
unfolding evict
pending-evict hashing ix root j = elim (Option-cases (lookup root ix.sets)) [
  | inl e ↦ rw (e, evict) refl
  | inr (m, e) ↦
      rw (e, evict)
        (pending-release_refs hashing root (record ix { sets = remove root ix.sets })
          (set_blobs root m) j)
]

claimed-evict :
    (hashing : Hashing) (ix : ContentIndex) (root j : String)
    → on_disk ix j ≡ true
    → 0 < pending_count ix j
    → on_disk (evict hashing ix root) j ≡ true
unfolding evict
claimed-evict hashing ix root j here held = elim (Option-cases (lookup root ix.sets)) [
  | inl e ↦ rw (e, evict) here
  | inr (m, e) ↦
      rw (e, evict)
        (release_refs-keeps hashing root (record ix { sets = remove root ix.sets })
          (set_blobs root m) j here (inr held))
]

save_same :
    (ix : ContentIndex)
    → ((save ix).sets ≡ ix.sets)
      × ((save ix).reserved ≡ ix.reserved)
      × ((save ix).pending ≡ ix.pending)
      × ((save ix).store ≡ ix.store)
unfolding save
save_same ix = ground arith

module _ (hashing : Hashing) (p : HostingPolicy) (now : ℕ) (ix : ContentIndex) (size : ℕ)
    (u : IsMap ix.sets) where
  abbrev pub after : ContentIndex
  after = (fit hashing p now ix size true).1

  -- A set that is not a candidate survives.
  pub fit-spares :
      (r : String) (m : ContentMeta)
      → lookup r ix.sets ≡ some m
      → is_candidate p now m ≡ false
      → lookup r after.sets ≡ some m
  fit-spares r m at safe =
      fit-keeps hashing p now (λ jx. lookup r jx.sets ≡ some m)
        (λ jx root m' at' can h.
          rw (sets-evict hashing jx root m' at')
            (ground (arith, h, at', eq_iff root r, lookup-remove r root jx.sets)))
        ix size (λ jx h. ground (arith, save_same jx)) u at

  pub fit-IsMap : IsMap after.sets
  fit-IsMap =
      fit-keeps hashing p now (λ jx. IsMap jx.sets)
        (λ jx root m at can h. rw (sets-evict hashing jx root m at) (remove-IsMap root jx.sets h))
        ix size (λ jx h. ground (arith, save_same jx)) u u

  pub fit-IsWhole : IsWhole ix → IsWhole after
  fit-IsWhole v =
      fit-keeps hashing p now IsWhole (λ jx root m at can h. evict-IsWhole hashing jx root h) ix
        size save-IsWhole u v

  pub fit-reserved : after.reserved ≡ ix.reserved
  fit-reserved =
      fit-keeps hashing p now (λ jx. jx.reserved ≡ ix.reserved)
        (λ jx root m at can h. reserved-evict hashing jx root ∙ h) ix size
        (λ jx h. ground (arith, save_same jx)) u refl

  pub fit-pending : (j : String) → pending_count after j ≡ pending_count ix j
  fit-pending j =
      fit-keeps hashing p now (λ jx. pending_count jx j ≡ pending_count ix j)
        (λ jx root m at can h. pending-evict hashing jx root j ∙ h) ix size
        (λ jx h. ground (arith, save_same jx)) u refl

  -- A blob that some writer claims survives.
  pub fit-claimed :
      (j : String) → on_disk ix j ≡ true → 0 < pending_count ix j → on_disk after j ≡ true
  fit-claimed j here held =
      let (h', n') =
        fit-keeps hashing p now
          (λ (jx : ContentIndex). (on_disk jx j ≡ true) × (0 < pending_count jx j))
          (λ jx root m at can h.
            let (h1, n1) = h in
            (
              claimed-evict hashing jx root j h1 n1,
              omega (arith, n1, pending-evict hashing jx root j),
            ))
          ix size (λ jx h. ground (arith, save_same jx)) u (here, held) in
      h'

hosted_sizes-insert_new :
    (r : String) (m : ContentMeta) (sets : List (String × ContentMeta))
    → lookup r sets ≡ none
    → hosted_sizes (insert r m sets) ≡ hosted_sizes sets + (if m.owned then 0 else m.size)
unfolding hosted_sizes insert lookup
hosted_sizes-insert_new r m [] e = omega arith
hosted_sizes-insert_new r m ((j, w) ∷ sets) e =
    ground (arith, eq_iff j r, hosted_sizes-insert_new r m sets)

hosted_sizes-insert_same :
    (r : String) (m m' : ContentMeta) (sets : List (String × ContentMeta))
    → lookup r sets ≡ some m
    → m'.owned ≡ m.owned
    → m'.size ≡ m.size
    → hosted_sizes (insert r m' sets) ≡ hosted_sizes sets
unfolding hosted_sizes insert lookup
hosted_sizes-insert_same r m m' [] e o z = cc
hosted_sizes-insert_same r m m' ((j, w) ∷ sets) e o z =
    ground (arith, eq_iff j r, hosted_sizes-insert_same r m m' sets)

sets-claim_refs :
    (root : String) (ix : ContentIndex) (hs : List String)
    → ((claim_refs root ix hs).sets ≡ ix.sets) × ((claim_refs root ix hs).reserved ≡ ix.reserved)
unfolding claim_refs claim_ref
sets-claim_refs root ix [] = (refl, refl)
sets-claim_refs root ix (h ∷ hs) = sets-claim_refs root (claim_ref root ix h) hs

pub reserved-release_hashes :
    (hashing : Hashing) (d : Bool) (ix : ContentIndex) (hs : List String)
    → (release_hashes hashing d ix hs).reserved ≡ ix.reserved
unfolding release_hashes release_claim drop_blob
reserved-release_hashes hashing d ix [] = refl
reserved-release_hashes hashing d ix (h ∷ hs) =
    ground (arith, reserved-release_hashes hashing d (release_claim hashing d ix h) hs)

-- The numbers of the index after a set is added.
module _ (ix : ContentIndex) (root : String) (size : ℕ) (chunks : List String) (from : String)
    (now : ℕ) where
  abbrev added : ContentIndex
  added = add_hosted_set ix root size chunks from now

  added-bounds : (added.reserved ≡ ix.reserved) × (hosted_bytes added ≤ hosted_bytes ix + size)
  unfolding add_hosted_set hosted_bytes hosted_meta has_set touch reference
  added-bounds =
      let m = hosted_meta size chunks from now in
      let jx : ContentIndex = record ix { sets = insert root m ix.sets } in
      elim (Option-cases (lookup root ix.sets)) [
        | inl e ↦ ground (
          arith,
          e,
          save_same (reference jx root m),
          sets-claim_refs root jx (set_blobs root m),
          hosted_sizes-insert_new root m ix.sets e,
        )
        | inr (m', e) ↦ ground (
          arith,
          e,
          hosted_sizes-insert_same root m' (record m' { last_access = now }) ix.sets e refl refl,
        )
      ]

  added-has : has_set added root ≡ true
  unfolding add_hosted_set hosted_meta has_set touch reference
  added-has =
      let m = hosted_meta size chunks from now in
      let jx : ContentIndex = record ix { sets = insert root m ix.sets } in
      elim (Option-cases (lookup root ix.sets)) [
        | inl e ↦ ground (
          arith,
          e,
          str_eq_refl root,
          save_same (reference jx root m),
          sets-claim_refs root jx (set_blobs root m),
          lookup-insert root root m ix.sets,
        )
        | inr (m', e) ↦ ground (
          arith,
          e,
          str_eq_refl root,
          lookup-insert root root (record m' { last_access = now }) ix.sets,
        )
      ]

-- With distinct set keys, a commit takes its size off the reserved bytes (down to 0) whatever it
-- answers; when it succeeds the set is indexed, the hosted bytes are within the budget and the
-- handle is empty; when it fails the handle is unchanged.
pub commit_hosted_lem :
    (hashing : Hashing) (p : HostingPolicy) (now : ℕ) (ix ix' : ContentIndex) (root : String)
    (size : ℕ) (chunks : List String) (from : String) (claims claims' : BlobClaims) (fits : Bool)
    → IsMap ix.sets
    → commit_hosted hashing p now ix root size chunks from claims ≡ (fits, ix', claims')
    → (ix'.reserved ≡ ix.reserved - size)
      × (fits ≡ true
          → (has_set ix' root ≡ true) × (hosted_bytes ix' ≤ p.budget) × (claims'.hashes ≡ []))
      × (fits ≡ false → claims' ≡ claims)
unfolding commit_hosted release_claims admit hosted_bytes has_set
commit_hosted_lem hashing p now ix ix' root size chunks from claims claims' fits u e =
    let jx : ContentIndex = record ix { reserved = ix.reserved - size } in
    let kx = (fit hashing p now jx size true).1 in
    let fits' = (fit hashing p now jx size true).0 in
    let lx = add_hosted_set kx root size chunks from now in
    let (room, none_left) = admit_lem hashing p now jx kx size fits' u refl in
    ground (
      arith,
      e,
      room,
      fit-reserved hashing p now jx size u,
      added-bounds kx root size chunks from now,
      added-has kx root size chunks from now,
      sets-release_hashes hashing false lx claims.hashes,
      reserved-release_hashes hashing false lx claims.hashes,
    )
