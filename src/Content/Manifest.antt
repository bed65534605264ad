-- ===== src/Content/Manifest.antt =====
-- internal/content/content.go, manifests, and internal/node/contentnet.go, the reader of chunks. A
-- manifest with a negative number, which the tests reject, is none that JSON decoding gives.
pub mod Sizes
pub mod Stream
mod Tests
use freedom_names.Common.{
  ℕ, zero, suc, ◌+◌, ◌-◌, ◌*◌, ◌^◌, Bool, true, false, not, ◌&&◌, ◌||◌, List, [], ◌∷◌, ◌++◌, Option,
  none, some, String, ltb, leb, ◌==◌, if◌then◌else◌, length, take, drop,
}
use freedom_names.Content.Store.{Hashing, max_blob_size}

abbrev pub max_content_size : ℕ
max_content_size = 2 ^ 30

-- MaxContentSize / ChunkSize
abbrev pub max_manifest_chunks : ℕ
max_manifest_chunks = 128

pub record ChunkManifest : Type 0 where
  pub total_size : ℕ
  pub chunk_size : ℕ
  pub chunks : List String

-- ChunkLen, for an index within the chunks; the difference is positive for a decoded manifest, the
-- only one that the readers are given.
unfoldable pub chunk_len : ChunkManifest → ℕ → ℕ
chunk_len m i =
    if i + 1 == length m.chunks
    then m.total_size - (length m.chunks - 1) * m.chunk_size
    else m.chunk_size

-- What follows the magic prefix in the data, if it starts with it.
unfoldable pub without_prefix : List ℕ → List ℕ → Option (List ℕ)
without_prefix [] data' = some data'
without_prefix (x ∷ xs) [] = none
without_prefix (x ∷ xs) (y ∷ ys) = let rest = without_prefix xs ys in if x == y then rest else none

-- encoding/json into the struct, and the magic prefix.
pub record ManifestFormat : Type 0 where
  pub magic : List ℕ
  pub unmarshal : List ℕ → Option ChunkManifest

unfoldable pub all_hashes : Hashing → List String → Bool
all_hashes hashing [] = true
all_hashes hashing (h ∷ hs) = hashing.is_content_hash h && all_hashes hashing hs

-- The tests of DecodeManifest.
unfoldable pub is_valid : Hashing → ChunkManifest → Bool
is_valid hashing m =
    let n = length m.chunks in
    not (ltb m.chunk_size 1 || ltb max_blob_size m.chunk_size)
    && (not (ltb n 2 || ltb max_manifest_chunks n)
        && (not (
              ltb max_content_size m.total_size
              || (leb m.total_size ((n - 1) * m.chunk_size) || ltb (n * m.chunk_size) m.total_size))
            && all_hashes hashing m.chunks))

unfoldable pub decode_manifest : Hashing → ManifestFormat → List ℕ → Option ChunkManifest
decode_manifest hashing format data' = elim (without_prefix format.magic data') [
  | none ↦ none
  | some body ↦ elim (format.unmarshal body) [
    | none ↦ none
    | some m ↦ if is_valid hashing m then some m else none
  ]
]

-- chunkReader: the index of the next chunk, and the unread part of the current one.
pub record ChunkReader : Type 0 where
  pub next : ℕ
  pub cur : List ℕ

pub data ReadResult : Type 0 where
  bytes : List ℕ → ChunkReader → ReadResult
  end_of_file : ReadResult
  fetch_failed : ℕ → ReadResult
  length_mismatch : ℕ → ReadResult

module _ (m : ChunkManifest) (fetch : String → Option (List ℕ)) where
  -- The loop that fetches until there are bytes, over the chunks from the next one on; then
  -- the copy of at most `size` bytes.
  unfoldable pub read_from : ℕ → List String → ChunkReader → ReadResult
  read_from size [] r =
      if length r.cur == 0
      then end_of_file
      else bytes (take size r.cur) (record r { cur = drop size r.cur })
  read_from size (h ∷ hs) r = elim (length r.cur == 0) [
    | false ↦ bytes (take size r.cur) (record r { cur = drop size r.cur })
    | true ↦ elim (fetch h) [
      | none ↦ fetch_failed r.next
      | some d ↦ elim (length d == chunk_len m r.next) [
        | false ↦ length_mismatch r.next
        | true ↦ read_from size hs (record { next = suc r.next; cur = d })
      ]
    ]
  ]

  unfoldable pub read : ℕ → ChunkReader → ReadResult
  read size r = read_from size (drop r.next m.chunks) r
