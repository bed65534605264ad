-- ===== src/Content/Index/Sets.antt =====
-- The index invariant: every set holds a reference on each of its blobs, and each blob of an owned
-- set is on disk. Each critical section keeps it.
use freedom_names.Common.{
  ℕ, ◌≡◌, refl, inl, inr, Bool, true, false, List, [], ◌∷◌, Option, none, some, String,
  if◌then◌else◌, arith, eq_iff, str_eq, str_eq_refl, Bool-cases, Option-cases,
}
use freedom_names.Common.Assoc.{lookup, insert, remove, member}
use freedom_names.Common.Assoc.Laws.{lookup-insert, lookup-remove}
use freedom_names.Content.Store.{Hashing, BlobStore, ok, put, has}
use freedom_names.Content.Index.{
  ContentIndex, ContentMeta, BlobClaims, refs, set_blobs, save, claim_ref, claim_refs, reference,
  claim, touch, touch_all, has_set, hosted_meta, owned_meta, drop_blob, release_claim,
  release_hashes, release_claims, release_ref, release_refs, evict, mark_owned, add_hosted_set,
}
use freedom_names.Content.Index.Blobs.{
  on_disk, is_some, member-claim_refs, refs-release_hashes, release_hashes-keeps,
  member-release_refs, release_refs-keeps, member→nonempty,
}

pub record IsWhole (ix : ContentIndex) : Type 0 where
  pub covers :
      (root : String) (m : ContentMeta) (h : String)
      → lookup root ix.sets ≡ some m
      → member h (set_blobs root m) ≡ true
      → member root (refs ix h) ≡ true
  pub present :
      (root : String) (m : ContentMeta) (h : String)
      → lookup root ix.sets ≡ some m
      → m.owned ≡ true
      → member h (set_blobs root m) ≡ true
      → on_disk ix h ≡ true

sets-claim_refs :
    (root : String) (ix : ContentIndex) (hs : List String) → (claim_refs root ix hs).sets ≡ ix.sets
unfolding claim_refs claim_ref
sets-claim_refs root ix [] = refl
sets-claim_refs root ix (h ∷ hs) = sets-claim_refs root (claim_ref root ix h) hs

store-claim_refs :
    (root : String) (ix : ContentIndex) (hs : List String)
    → (claim_refs root ix hs).store ≡ ix.store
unfolding claim_refs claim_ref
store-claim_refs root ix [] = refl
store-claim_refs root ix (h ∷ hs) = store-claim_refs root (claim_ref root ix h) hs

pub save-IsWhole : (ix : ContentIndex) → IsWhole ix → IsWhole (save ix)
unfolding save
save-IsWhole ix v = elim (Bool-cases ix.savable) [
  | inl e ↦ simp e (record { covers = v.covers; present = v.present })
  | inr e ↦ simp e v
]

-- Recording a set whose blobs are all on disk.
module _ (ix : ContentIndex) (root : String) (m : ContentMeta) (v : IsWhole ix)
    (here : (h : String)
      → m.owned ≡ true
      → member h (set_blobs root m) ≡ true
      → on_disk ix h ≡ true) where
  recorded : ContentIndex
  recorded = reference (record ix { sets = insert root m ix.sets }) root m

  lookup-recorded :
      (r : String) → lookup r recorded.sets ≡ (if str_eq root r then some m else lookup r ix.sets)
  unfolding recorded reference
  lookup-recorded r = rw sets-claim_refs (lookup-insert r root m ix.sets)

  recorded-IsWhole : IsWhole recorded
  unfolding recorded reference
  recorded-IsWhole = record {
    covers = λ r m' h e named. ground (
      arith,
      e,
      lookup-recorded r,
      eq_iff root r,
      member-claim_refs root (record ix { sets = insert root m ix.sets }) (set_blobs root m) h r,
      v.covers r m' h,
    );
    present = λ r m' h e own named. ground (
      arith,
      e,
      lookup-recorded r,
      eq_iff root r,
      store-claim_refs root (record ix { sets = insert root m ix.sets }) (set_blobs root m),
      v.present r m' h,
      here h,
    );
  }

module _ (hashing : Hashing) where
  sets-release_refs :
      (root : String) (ix : ContentIndex) (hs : List String)
      → (release_refs hashing root ix hs).sets ≡ ix.sets
  unfolding release_refs release_ref drop_blob
  sets-release_refs root ix [] = refl
  sets-release_refs root ix (h ∷ hs) =
      ground (arith, sets-release_refs root (release_ref hashing root ix h) hs)

  pub sets-release_hashes :
      (d : Bool) (ix : ContentIndex) (hs : List String)
      → (release_hashes hashing d ix hs).sets ≡ ix.sets
  unfolding release_hashes release_claim drop_blob
  sets-release_hashes d ix [] = refl
  sets-release_hashes d ix (h ∷ hs) =
      ground (arith, sets-release_hashes d (release_claim hashing d ix h) hs)

  -- Eviction takes the set and leaves the others whole.
  module _ (ix : ContentIndex) (root : String) (hs : List String) (v : IsWhole ix) where
    evicted : ContentIndex
    evicted = release_refs hashing root (record ix { sets = remove root ix.sets }) hs

    evicted-other :
        (r : String) (m : ContentMeta)
        → lookup r evicted.sets ≡ some m
        → (str_eq root r ≡ false) × (lookup r ix.sets ≡ some m)
    unfolding evicted
    evicted-other r m e = ground (
      arith,
      sets-release_refs root (record ix { sets = remove root ix.sets }) hs,
      lookup-remove r root ix.sets,
    )

    evicted-IsWhole : IsWhole evicted
    unfolding evicted
    evicted-IsWhole = record {
      covers = λ r m h e named.
          let (other, e') = evicted-other r m e in
          ground (
            arith,
            member-release_refs hashing root (record ix { sets = remove root ix.sets }) hs h r,
            v.covers r m h e' named,
          );
      present = λ r m h e own named.
          let (other, e') = evicted-other r m e in
          release_refs-keeps hashing root (record ix { sets = remove root ix.sets }) hs h
            (v.present r m h e' own named) (inl (r, other, v.covers r m h e' named));
    }

  pub evict-IsWhole :
      (ix : ContentIndex) (root : String) → IsWhole ix → IsWhole (evict hashing ix root)
  unfolding evict evicted
  evict-IsWhole ix root v = elim (Option-cases (lookup root ix.sets)) [
    | inl e ↦ rw (e, evict) v
    | inr (m, e) ↦ rw (e, evict) (evicted-IsWhole ix root (set_blobs root m) v)
  ]

  -- Giving claims back, with or without deleting, never touches a blob that a set names.
  pub release_hashes-IsWhole :
      (d : Bool) (ix : ContentIndex) (hs : List String)
      → IsWhole ix
      → IsWhole (release_hashes hashing d ix hs)
  release_hashes-IsWhole d ix hs v = record {
    covers = λ r m h e named.
        rw (refs-release_hashes hashing d ix hs h)
          (v.covers r m h (rw (sets-release_hashes d ix hs) at e) named);
    present = λ r m h e own named.
        let e' : lookup r ix.sets ≡ some m = rw (sets-release_hashes d ix hs) at e in
        release_hashes-keeps hashing d ix hs h (v.present r m h e' own named)
          (inl (member→nonempty r (refs ix h) (v.covers r m h e' named)));
  }

-- A change of an entry that keeps its chunks.
pub touch-IsWhole :
    (ix : ContentIndex) (root : String) (now : ℕ) → IsWhole ix → IsWhole (touch ix root now)
unfolding touch
touch-IsWhole ix root now v = elim (Option-cases (lookup root ix.sets)) [
  | inl e ↦ rw (e, touch) v
  | inr (m, e) ↦
      rw (e, touch)
        (record {
          covers = λ r m' h e' named. ground (
            arith,
            e,
            eq_iff root r,
            lookup-insert r root (record m { last_access = now }) ix.sets,
            v.covers r m h,
            v.covers r m' h,
          );
          present = λ r m' h e' own named. ground (
            arith,
            e,
            eq_iff root r,
            lookup-insert r root (record m { last_access = now }) ix.sets,
            v.present r m h,
            v.present r m' h,
          );
        })
]

pub touch_all-IsWhole :
    (ix : ContentIndex) (rs : List String) (now : ℕ) → IsWhole ix → IsWhole (touch_all ix rs now)
unfolding touch_all
touch_all-IsWhole ix [] now v = v
touch_all-IsWhole ix (r ∷ rs) now v =
    touch_all-IsWhole (touch ix r now) rs now (touch-IsWhole ix r now v)

pub add_hosted_set-IsWhole :
    (ix : ContentIndex) (root : String) (size : ℕ) (chunks : List String) (from : String) (now : ℕ)
    → IsWhole ix
    → IsWhole (add_hosted_set ix root size chunks from now)
unfolding add_hosted_set recorded hosted_meta
add_hosted_set-IsWhole ix root size chunks from now v = elim (Bool-cases (has_set ix root)) [
  | inl e ↦ rw e (touch-IsWhole ix root now v)
  | inr e ↦ rw e (
      save-IsWhole _
        (recorded-IsWhole ix root (hosted_meta size chunks from now) v (λ h own named. cc)))
]

chunks-owned_meta :
    (old : Option ContentMeta) (size : ℕ) (chunks : List String) (now : ℕ)
    → (owned_meta old size chunks now).chunks ≡ chunks
unfolding owned_meta
chunks-owned_meta none size chunks now = refl
chunks-owned_meta (some m) size chunks now = refl

pub mark_owned-IsWhole :
    (hashing : Hashing) (ix : ContentIndex) (root : String) (size : ℕ) (chunks : List String)
    (claims : BlobClaims) (now : ℕ)
    → IsWhole ix
    → ((h : String) → member h (root ∷ chunks) ≡ true → on_disk ix h ≡ true)
    → IsWhole (mark_owned hashing ix root size chunks claims now).0
unfolding mark_owned recorded release_claims
mark_owned-IsWhole hashing ix root size chunks claims now v here =
    let m = owned_meta (lookup root ix.sets) size chunks now in
    let same : m.chunks ≡ chunks = chunks-owned_meta (lookup root ix.sets) size chunks now in
    save-IsWhole _ (
      release_hashes-IsWhole hashing false _ claims.hashes
        (recorded-IsWhole ix root m v (λ h own e. here h (rw same at e))))

-- Claiming touches neither sets, references nor files.
pub claim-IsWhole :
    (ix : ContentIndex) (c : BlobClaims) (h : String) → IsWhole ix → IsWhole (claim ix c h).0
unfolding claim
claim-IsWhole ix c h v = record { covers = v.covers; present = v.present }

-- A blob written to the store takes no other away.
pub put_blob-keeps :
    (hashing : Hashing) (s : BlobStore) (b : List ℕ) (h : String)
    → is_some (lookup h s.files) ≡ true
    → is_some (lookup h (put hashing s b).0.files) ≡ true
unfolding put
put_blob-keeps hashing s b h e = ground (arith, lookup-insert h (hashing.content_hash b) b s.files)

pub sets-evict :
    (hashing : Hashing) (ix : ContentIndex) (root : String) (m : ContentMeta)
    → lookup root ix.sets ≡ some m
    → (evict hashing ix root).sets ≡ remove root ix.sets
unfolding evict
sets-evict hashing ix root m e =
    rw (e, evict)
      (sets-release_refs hashing root (record ix { sets = remove root ix.sets }) (set_blobs root m))

-- A successful write leaves the blob on disk.
pub put-on_disk :
    (hashing : Hashing) (s : BlobStore) (b : List ℕ) (h : String)
    → (put hashing s b).1 ≡ ok h
    → (h ≡ hashing.content_hash b) × (is_some (lookup h (put hashing s b).0.files) ≡ true)
unfolding put has
put-on_disk hashing s b h e = elim (Option-cases (lookup (hashing.content_hash b) s.files)) [
  | inl new ↦ ground (
    arith,
    new,
    hashing.well_formed b,
    str_eq_refl (hashing.content_hash b),
    lookup-insert (hashing.content_hash b) (hashing.content_hash b) b s.files,
  )
  | inr (c, old) ↦ ground (arith, old, hashing.well_formed b)
]
