-- ===== src/Content/Index/Blobs.antt =====
-- What claims and evictions do to references, claim counts and files, blob by blob.
use freedom_names.Common.{
  ℕ, suc, ◌-◌, ◌<◌, ◌≡◌, refl, ◌∙◌, inl, inr, ◌⊎◌, Bool, true, false, not, ◌&&◌, ◌||◌, List, [],
  ◌∷◌, Option, none, some, String, if◌then◌else◌, arith, eq_iff, str_eq,
}
use freedom_names.Common.Assoc.{lookup, member, add, delete, is_empty}
use freedom_names.Common.Assoc.Laws.{lookup-insert, lookup-remove, member-add, member-delete}
use freedom_names.Content.Store.{Hashing, delete_blob}
use freedom_names.Content.Index.{
  ContentIndex, refs, pending_count, claim_ref, claim_refs, drop_blob, release_claim,
  release_hashes, release_ref, release_refs,
}

-- There is a file under the hash.
abbrev pub is_some {ℓ} : {A : Type ℓ} → Option A → Bool
is_some none = false
is_some (some a) = true

abbrev pub on_disk : ContentIndex → String → Bool
on_disk ix h = is_some (lookup h ix.store.files)

-- How often a hash stands in a handle.
abbrev pub count : String → List String → ℕ
count h [] = 0
count h (j ∷ js) = if str_eq j h then suc (count h js) else count h js

-- References taken.
pub refs-claim_ref :
    (root : String) (ix : ContentIndex) (h j : String)
    → refs (claim_ref root ix h) j ≡ (if str_eq h j then add root (refs ix h) else refs ix j)
unfolding claim_ref
refs-claim_ref root ix h j = ground (arith, lookup-insert j h (add root (refs ix h)) ix.blobs)

pub member-claim_refs :
    (root : String) (ix : ContentIndex) (hs : List String) (j r : String)
    → member r (refs (claim_refs root ix hs) j)
      ≡ (member r (refs ix j) || str_eq root r && member j hs)
unfolding claim_refs member
member-claim_refs root ix [] j r = ground arith
member-claim_refs root ix (h ∷ hs) j r = ground (
  arith,
  eq_iff h j,
  member-claim_refs root (claim_ref root ix h) hs j r,
  refs-claim_ref root ix h j,
  member-add r root (refs ix h),
)

pub member→nonempty : (r : String) (s : List String) → member r s ≡ true → is_empty s ≡ false
unfolding member
member→nonempty r [] e = cc
member→nonempty r (j ∷ s) e = refl

module _ (hashing : Hashing) where
  -- Only the named file goes.
  drop_blob-keeps :
      (ix : ContentIndex) (h j : String)
      → str_eq h j ≡ false
      → on_disk (drop_blob hashing ix h) j ≡ on_disk ix j
  unfolding drop_blob delete_blob
  drop_blob-keeps ix h j e = ground (arith, lookup-remove j h ix.store.files)

  -- Claims given back.
  pub pending-release_claim :
      (d : Bool) (ix : ContentIndex) (h j : String)
      → pending_count (release_claim hashing d ix h) j
        ≡ (if str_eq h j then pending_count ix h - 1 else pending_count ix j)
  unfolding release_claim drop_blob
  pending-release_claim d ix h j =
      ground
        (arith, lookup-remove j h ix.pending, lookup-insert j h (pending_count ix h - 1) ix.pending)

  pub refs-release_claim :
      (d : Bool) (ix : ContentIndex) (h j : String)
      → refs (release_claim hashing d ix h) j ≡ refs ix j
  unfolding release_claim drop_blob
  refs-release_claim d ix h j = ground arith

  release_claim-keeps :
      (d : Bool) (ix : ContentIndex) (h j : String)
      → on_disk ix j ≡ true
      → (is_empty (refs ix j) ≡ false) ⊎ (0 < pending_count (release_claim hashing d ix h) j)
      → on_disk (release_claim hashing d ix h) j ≡ true
  unfolding release_claim drop_blob delete_blob
  release_claim-keeps d ix h j here wanted = ground (
    arith,
    eq_iff h j,
    lookup-remove j h ix.pending,
    lookup-insert j h (pending_count ix h - 1) ix.pending,
    lookup-remove j h ix.store.files,
  )

  -- References given up.
  pub refs-release_ref :
      (root : String) (ix : ContentIndex) (h j : String)
      → refs (release_ref hashing root ix h) j
        ≡ (if str_eq h j then delete root (refs ix h) else refs ix j)
  unfolding release_ref drop_blob
  refs-release_ref root ix h j =
      ground
        (arith, lookup-remove j h ix.blobs, lookup-insert j h (delete root (refs ix h)) ix.blobs)

  pub pending-release_ref :
      (root : String) (ix : ContentIndex) (h j : String)
      → pending_count (release_ref hashing root ix h) j ≡ pending_count ix j
  unfolding release_ref drop_blob
  pending-release_ref root ix h j = ground arith

  pub release_ref-keeps :
      (root : String) (ix : ContentIndex) (h j : String)
      → on_disk ix j ≡ true
      → (is_empty (refs (release_ref hashing root ix h) j) ≡ false) ⊎ (0 < pending_count ix j)
      → on_disk (release_ref hashing root ix h) j ≡ true
  unfolding release_ref drop_blob delete_blob
  release_ref-keeps root ix h j here wanted = ground (
    arith,
    eq_iff h j,
    lookup-remove j h ix.blobs,
    lookup-insert j h (delete root (refs ix h)) ix.blobs,
    lookup-remove j h ix.store.files,
  )

  -- The whole handle.
  pub pending-release_hashes :
      (d : Bool) (ix : ContentIndex) (hs : List String) (j : String)
      → pending_count (release_hashes hashing d ix hs) j ≡ pending_count ix j - count j hs
  unfolding release_hashes
  pending-release_hashes d ix [] j = omega arith
  pending-release_hashes d ix (h ∷ hs) j = ground (
    arith,
    eq_iff h j,
    pending-release_hashes d (release_claim hashing d ix h) hs j,
    pending-release_claim d ix h j,
  )

  pub refs-release_hashes :
      (d : Bool) (ix : ContentIndex) (hs : List String) (j : String)
      → refs (release_hashes hashing d ix hs) j ≡ refs ix j
  unfolding release_hashes
  refs-release_hashes d ix [] j = refl
  refs-release_hashes d ix (h ∷ hs) j =
      refs-release_hashes d (release_claim hashing d ix h) hs j ∙ refs-release_claim d ix h j

  pub release_hashes-keeps :
      (d : Bool) (ix : ContentIndex) (hs : List String) (j : String)
      → on_disk ix j ≡ true
      → (is_empty (refs ix j) ≡ false) ⊎ (count j hs < pending_count ix j)
      → on_disk (release_hashes hashing d ix hs) j ≡ true
  unfolding release_hashes
  release_hashes-keeps d ix [] j here wanted = here
  release_hashes-keeps d ix (h ∷ hs) j here wanted = ground (
    arith,
    eq_iff h j,
    release_hashes-keeps d (release_claim hashing d ix h) hs j,
    release_claim-keeps d ix h j here,
    pending-release_claim d ix h j,
    refs-release_claim d ix h j,
  )

  pub member-release_refs :
      (root : String) (ix : ContentIndex) (hs : List String) (j r : String)
      → member r (refs (release_refs hashing root ix hs) j)
        ≡ (member r (refs ix j) && not (str_eq root r && member j hs))
  unfolding release_refs member
  member-release_refs root ix [] j r = ground arith
  member-release_refs root ix (h ∷ hs) j r = ground (
    arith,
    eq_iff h j,
    member-release_refs root (release_ref hashing root ix h) hs j r,
    refs-release_ref root ix h j,
    member-delete r root (refs ix h),
  )

  pub pending-release_refs :
      (root : String) (ix : ContentIndex) (hs : List String) (j : String)
      → pending_count (release_refs hashing root ix hs) j ≡ pending_count ix j
  unfolding release_refs
  pending-release_refs root ix [] j = refl
  pending-release_refs root ix (h ∷ hs) j =
      pending-release_refs root (release_ref hashing root ix h) hs j
      ∙ pending-release_ref root ix h j

  pub release_refs-keeps :
      (root : String) (ix : ContentIndex) (hs : List String) (j : String)
      → on_disk ix j ≡ true
      → ((r : String) × (str_eq root r ≡ false) × (member r (refs ix j) ≡ true))
        ⊎ (0 < pending_count ix j)
      → on_disk (release_refs hashing root ix hs) j ≡ true
  unfolding release_refs
  release_refs-keeps root ix [] j here wanted = here
  release_refs-keeps root ix (h ∷ hs) j here (inl (r, other, named)) =
      let ix' = release_ref hashing root ix h in
      let still : member r (refs ix' j) ≡ true =
        ground
          (arith, eq_iff h j, refs-release_ref root ix h j, member-delete r root (refs ix h)) in
      release_refs-keeps root ix' hs j
        (release_ref-keeps root ix h j here (inl (member→nonempty r (refs ix' j) still)))
        (inl (r, other, still))
  release_refs-keeps root ix (h ∷ hs) j here (inr claimed) =
      release_refs-keeps root (release_ref hashing root ix h) hs j
        (release_ref-keeps root ix h j here (inr claimed))
        (inr (rw (pending-release_ref root ix h j) claimed))
