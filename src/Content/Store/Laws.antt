-- ===== src/Content/Store/Laws.antt =====
-- The blob store as a content-addressed map.
use freedom_names.Common.{
  ℕ, ◌≡◌, refl, List, some, String, arith, eq_iff, str_eq_refl, Option-cases, inl, inr,
}
use freedom_names.Common.Assoc.{lookup}
use freedom_names.Common.Assoc.Laws.{lookup-insert, lookup-remove}
use freedom_names.Content.Store.{Hashing, BlobStore, ok, has, put, get, delete_blob}

module _ (hashing : Hashing) where
  open hashing use {content_hash, is_content_hash, well_formed}

  -- Every file holds bytes that hash to its name.
  abbrev pub IsSound : BlobStore → Type 0
  IsSound s = (h : String) (b : List ℕ) → lookup h s.files ≡ some b → content_hash b ≡ h

  pub put-IsSound : (s : BlobStore) (b : List ℕ) → IsSound s → IsSound (put hashing s b).0
  unfolding put
  put-IsSound s b v h c e =
      ground (arith, lookup-insert h (content_hash b) b s.files, eq_iff (content_hash b) h, v h c)

  pub delete_blob-IsSound :
      (s : BlobStore) (k : String) → IsSound s → IsSound (delete_blob hashing s k)
  unfolding delete_blob
  delete_blob-IsSound s k v h c e = ground (arith, lookup-remove h k s.files, v h c)

  -- In a store whose files hash to their names, after a successful write the answered hash is that
  -- of the data and reads back to bytes with the hash of the data.
  pub get-put :
      (s s' : BlobStore) (b : List ℕ) (h : String)
      → IsSound s
      → put hashing s b ≡ (s', ok h)
      → (c : List ℕ) × (get hashing s' h ≡ ok c)
        × (content_hash c ≡ content_hash b)
        × (h ≡ content_hash b)
  unfolding put get has
  get-put s s' b h v e = elim (Option-cases (lookup (content_hash b) s.files)) [
    | inl new ↦ (
      b,
      ground (
        arith,
        well_formed b,
        new,
        lookup-insert (content_hash b) (content_hash b) b s.files,
        str_eq_refl (content_hash b),
      ),
      refl,
      ground arith,
    )
    | inr (c, old) ↦ (c, ground (arith, well_formed b, old), v (content_hash b) c old, ground arith)
  ]
