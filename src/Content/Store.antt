-- ===== src/Content/Store.antt =====
-- internal/content/content.go, the blob store: a directory of files named by content hash.
pub mod Laws
use freedom_names.Common.{
  ℕ, ◌*◌, ◌^◌, ◌≡◌, Bool, true, false, List, [], ◌∷◌, Option, none, some, String, ltb,
  if◌then◌else◌, length,
}
use freedom_names.Common.Assoc.{lookup, insert, remove}

-- ContentHash and IsContentHash, over the multihash and base36 packages: hashing succeeds, and
-- the text that encodes a hash is a well-formed one.
pub record Hashing : Type 0 where
  pub content_hash : List ℕ → String
  pub is_content_hash : String → Bool
  pub well_formed : (data' : List ℕ) → is_content_hash (content_hash data') ≡ true

abbrev pub max_blob_size : ℕ
max_blob_size = 32 * 2 ^ 20

pub data StoreError : Type 0 where
  blob_too_large blob_not_found invalid_hash write_failed : StoreError

pub data StoreResult {ℓ} (A : Type ℓ) : Type ℓ where
  ok : A → StoreResult A
  err : StoreError → StoreResult A

-- The blobs on disk. `writable` is the operating system's answer to creating, writing and renaming
-- a file; a failure leaves no file under the hash.
pub record BlobStore : Type 0 where
  pub files : List (String × List ℕ)
  pub writable : Bool

module _ (hashing : Hashing) where
  open hashing use {content_hash, is_content_hash}

  unfoldable pub has : BlobStore → String → Bool
  has s hash =
      if is_content_hash hash
      then elim (lookup hash s.files) [ some _ ↦ true | none ↦ false ]
      else false

  unfoldable pub put : BlobStore → List ℕ → BlobStore × StoreResult String
  put s blob =
      if ltb max_blob_size (length blob)
      then (s, err blob_too_large)
      else if has s (content_hash blob)
      then (s, ok (content_hash blob))
      else if s.writable
      then (record s { files = insert (content_hash blob) blob s.files }, ok (content_hash blob))
      else (s, err write_failed)

  unfoldable pub get : BlobStore → String → StoreResult (List ℕ)
  get s hash =
      if is_content_hash hash
      then elim (lookup hash s.files) [ some blob ↦ ok blob | none ↦ err blob_not_found ]
      else err invalid_hash

  -- A missing blob is no error.
  unfoldable pub delete_blob : BlobStore → String → BlobStore
  delete_blob s hash = if is_content_hash hash then record s { files = remove hash s.files } else s

  -- The size that a streaming reader reports.
  unfoldable pub open_size : BlobStore → String → StoreResult ℕ
  open_size s hash = elim (get s hash) [ ok blob ↦ ok (length blob) | err e ↦ err e ]

  -- The names that are content hashes, in the directory's order.
  list_from : List (String × List ℕ) → List String
  list_from [] = []
  list_from ((name, blob) ∷ rest) =
      let names = list_from rest in if is_content_hash name then name ∷ names else names

  unfoldable pub list_blobs : BlobStore → List String
  unfolding list_from
  list_blobs s = list_from s.files
