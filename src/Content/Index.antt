-- ===== src/Content/Index.antt =====
-- internal/content/contentindex.go, the index of content sets: references, claims and eviction of
-- one set. Each function is a critical section under the index's mutex. Times are unix seconds.
pub mod Blobs
pub mod Sets
pub mod Sizes
use freedom_names.Common.{
  ℕ, suc, ◌+◌, ◌-◌, Bool, true, false, not, ◌&&◌, List, [], ◌∷◌, ◌++◌, Option, none, some, String,
  ltb, ◌==◌, if◌then◌else◌, map,
}
use freedom_names.Common.Assoc.{lookup, insert, remove, member, add, delete, is_empty}
use freedom_names.Content.Store.{Hashing, BlobStore, delete_blob}

pub record ContentMeta : Type 0 where
  pub owned : Bool
  pub size : ℕ
  pub chunks : List String
  pub stored_at : ℕ
  pub last_access : ℕ
  pub from : String

-- `saved` is the sidecar file; `savable` is the operating system's answer to writing it.
pub record ContentIndex : Type 0 where
  pub store : BlobStore
  pub sets : List (String × ContentMeta)
  pub blobs : List (String × List String)
  pub dirty : Bool
  pub pending : List (String × ℕ)
  pub reserved : ℕ
  pub saved : List (String × ContentMeta)
  pub savable : Bool

-- ix.blobs[h], nil if missing.
abbrev pub or_nil : Option (List String) → List String
or_nil none = []
or_nil (some rs) = rs

abbrev pub refs : ContentIndex → String → List String
refs ix h = or_nil (lookup h ix.blobs)

abbrev pub or_zero : Option ℕ → ℕ
or_zero none = 0
or_zero (some n) = n

-- ix.pending[h], 0 if missing.
abbrev pub pending_count : ContentIndex → String → ℕ
pending_count ix h = or_zero (lookup h ix.pending)

-- The blobs that a set consists of.
abbrev pub set_blobs : String → ContentMeta → List String
set_blobs root m = root ∷ m.chunks

-- A failed write leaves the changes dirty.
unfoldable pub save : ContentIndex → ContentIndex
save ix = if ix.savable then record ix { saved = ix.sets; dirty = false } else ix

unfoldable pub claim_ref : String → ContentIndex → String → ContentIndex
claim_ref root ix h = record ix { blobs = insert h (add root (refs ix h)) ix.blobs }

unfoldable pub claim_refs : String → ContentIndex → List String → ContentIndex
claim_refs root ix [] = ix
claim_refs root ix (h ∷ hs) = claim_refs root (claim_ref root ix h) hs

unfoldable pub reference : ContentIndex → String → ContentMeta → ContentIndex
reference ix root m = claim_refs root ix (set_blobs root m)

-- One writer's handle; a nil handle is one without hashes.
pub record BlobClaims : Type 0 where
  pub hashes : List String

unfoldable pub begin_write : BlobClaims
begin_write = record { hashes = [] }

-- `Claim` counts the claim and remembers it in the handle.
unfoldable pub claim : ContentIndex → BlobClaims → String → ContentIndex × BlobClaims
claim ix c h = (
  record ix { pending = insert h (pending_count ix h + 1) ix.pending },
  record c { hashes = c.hashes ++ (h ∷ []) },
)

unfoldable pub touch : ContentIndex → String → ℕ → ContentIndex
touch ix root now = elim (lookup root ix.sets) [
  | none ↦ ix
  | some m ↦ record ix { sets = insert root (record m { last_access = now }) ix.sets; dirty = true }
]

unfoldable pub touch_all : ContentIndex → List String → ℕ → ContentIndex
touch_all ix [] now = ix
touch_all ix (root ∷ roots) now = touch_all (touch ix root now) roots now

unfoldable pub touch_blob : ContentIndex → String → ℕ → ContentIndex
touch_blob ix h now = touch_all ix (refs ix h) now

unfoldable pub has_set : ContentIndex → String → Bool
has_set ix root = elim (lookup root ix.sets) [ none ↦ false | some m ↦ true ]

unfoldable pub roots : ContentIndex → List String
roots ix = map (λ (root, m). root) ix.sets

unfoldable pub hosted_sizes : List (String × ContentMeta) → ℕ
hosted_sizes [] = 0
hosted_sizes ((root, m) ∷ rest) = (if m.owned then 0 else m.size) + hosted_sizes rest

-- The hosted sets and the bytes promised to transfers.
unfoldable pub hosted_bytes : ContentIndex → ℕ
unfolding hosted_sizes
hosted_bytes ix = ix.reserved + hosted_sizes ix.sets

-- The entry of MarkOwned: it keeps the time the set was stored, if the set was known.
unfoldable pub owned_meta : Option ContentMeta → ℕ → List String → ℕ → ContentMeta
owned_meta (some m) size chunks now = record m {
  owned = true;
  size = size;
  chunks = chunks;
  last_access = now;
}
owned_meta none size chunks now = record {
  owned = true;
  size = size;
  chunks = chunks;
  stored_at = now;
  last_access = now;
  from = "";
}

unfoldable pub hosted_meta : ℕ → List String → String → ℕ → ContentMeta
hosted_meta size chunks from now = record {
  owned = false;
  size = size;
  chunks = chunks;
  stored_at = now;
  last_access = now;
  from = from;
}

-- addHostedLocked: a set that is there already is only touched.
unfoldable pub add_hosted_set : ContentIndex → String → ℕ → List String → String → ℕ → ContentIndex
add_hosted_set ix root size chunks from now =
    let m = hosted_meta size chunks from now in
    if has_set ix root
    then touch ix root now
    else save (reference (record ix { sets = insert root m ix.sets }) root m)

module _ (hashing : Hashing) where
  -- ix.store.Delete(h)
  unfoldable pub drop_blob : ContentIndex → String → ContentIndex
  drop_blob ix h = record ix { store = delete_blob hashing ix.store h }

  -- One hash of releaseClaimsLocked: its count goes down by one, and a discarded blob that no
  -- claim and no set wants is deleted.
  unfoldable pub release_claim : Bool → ContentIndex → String → ContentIndex
  release_claim discard ix h =
      let remaining = pending_count ix h - 1 in
      let counted = record ix {
        pending = if ltb 0 remaining then insert h remaining ix.pending else remove h ix.pending;
      } in
      if discard && (remaining == 0 && is_empty (refs ix h)) then drop_blob counted h else counted

  unfoldable pub release_hashes : Bool → ContentIndex → List String → ContentIndex
  release_hashes discard ix [] = ix
  release_hashes discard ix (h ∷ hs) = release_hashes discard (release_claim discard ix h) hs

  -- The handle is emptied, so that a second release does nothing.
  unfoldable pub release_claims : Bool → ContentIndex → BlobClaims → ContentIndex × BlobClaims
  release_claims discard ix c = (release_hashes discard ix c.hashes, record c { hashes = [] })

  unfoldable pub discard_claims : ContentIndex → BlobClaims → ContentIndex × BlobClaims
  discard_claims ix c = release_claims true ix c

  -- `release` of evictLocked: the blob loses one reference, and is deleted with the last one
  -- unless a writer claims it.
  unfoldable pub release_ref : String → ContentIndex → String → ContentIndex
  release_ref root ix h =
      let left = delete root (refs ix h) in
      if is_empty left
      then (let gone = record ix { blobs = remove h ix.blobs } in
          if pending_count ix h == 0 then drop_blob gone h else gone)
      else record ix { blobs = insert h left ix.blobs }

  unfoldable pub release_refs : String → ContentIndex → List String → ContentIndex
  release_refs root ix [] = ix
  release_refs root ix (h ∷ hs) = release_refs root (release_ref root ix h) hs

  unfoldable pub evict : ContentIndex → String → ContentIndex
  evict ix root = elim (lookup root ix.sets) [
    | none ↦ ix
    | some m ↦ release_refs root (record ix { sets = remove root ix.sets }) (set_blobs root m)
  ]

  unfoldable pub mark_owned :
      ContentIndex → String → ℕ → List String → BlobClaims → ℕ → ContentIndex × BlobClaims
  mark_owned ix root size chunks claims now =
      let m = owned_meta (lookup root ix.sets) size chunks now in
      let recorded = reference (record ix { sets = insert root m ix.sets }) root m in
      let (ix', claims') = release_claims false recorded claims in (save ix', claims')

  unfoldable pub add_hosted :
      ContentIndex → String → ℕ → List String → String → BlobClaims → ℕ → ContentIndex × BlobClaims
  add_hosted ix root size chunks from claims now =
      release_claims false (add_hosted_set ix root size chunks from now) claims

-- Flush, called by the heal loop.
unfoldable pub flush : ContentIndex → ContentIndex
flush ix = if ix.dirty then save ix else ix
