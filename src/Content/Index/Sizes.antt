-- ===== src/Content/Index/Sizes.antt =====
-- The bytes that the hosting budget counts.
use freedom_names.Common.{
  ◌+◌, ◌≡◌, refl, ap, inl, inr, Option-cases, List, [], ◌∷◌, some, String, false, arith, eq_iff,
}
use freedom_names.Common.Assoc.{lookup, remove}
use freedom_names.Common.Assoc.Laws.{IsMap, remove-missing}
use freedom_names.Content.Store.{Hashing}
use freedom_names.Content.Index.{
  ContentIndex, ContentMeta, hosted_sizes, hosted_bytes, set_blobs, drop_blob, release_ref,
  release_refs, evict,
}
use freedom_names.Content.Index.Sets.{sets-evict}

hosted_sizes-remove :
    (r : String) (m : ContentMeta) (sets : List (String × ContentMeta))
    → IsMap sets
    → lookup r sets ≡ some m
    → m.owned ≡ false
    → hosted_sizes (remove r sets) + m.size ≡ hosted_sizes sets
unfolding hosted_sizes remove lookup
hosted_sizes-remove r m [] u at h = cc
hosted_sizes-remove r m ((j, w) ∷ sets) (new, u) at h =
    ground (arith, eq_iff j r, remove-missing j sets new, hosted_sizes-remove r m sets u)

module _ (hashing : Hashing) where
  reserved-release_refs :
      (root : String) (ix : ContentIndex) (hs : List String)
      → (release_refs hashing root ix hs).reserved ≡ ix.reserved
  unfolding release_refs release_ref drop_blob
  reserved-release_refs root ix [] = refl
  reserved-release_refs root ix (h ∷ hs) =
      ground (arith, reserved-release_refs root (release_ref hashing root ix h) hs)

  pub reserved-evict :
      (ix : ContentIndex) (root : String) → (evict hashing ix root).reserved ≡ ix.reserved
  unfolding evict
  reserved-evict ix root = elim (Option-cases (lookup root ix.sets)) [
    | inl e ↦ rw (e, evict) refl
    | inr (m, e) ↦
        rw (e, evict)
          (reserved-release_refs root (record ix { sets = remove root ix.sets }) (set_blobs root m))
  ]

  -- Evicting a hosted set frees its size.
  pub hosted_bytes-evict :
      (ix : ContentIndex) (root : String) (m : ContentMeta)
      → lookup root ix.sets ≡ some m
      → IsMap ix.sets
      → m.owned ≡ false
      → hosted_bytes (evict hashing ix root) + m.size ≡ hosted_bytes ix
  unfolding hosted_bytes
  hosted_bytes-evict ix root m at u h = omega (
    arith,
    reserved-evict ix root,
    ap hosted_sizes (sets-evict hashing ix root m at),
    hosted_sizes-remove root m ix.sets u at h,
  )
