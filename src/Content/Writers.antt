-- ===== src/Content/Writers.antt =====
-- The writers of internal/node that share one content index: pushes (replicate.go,
-- handlePushStream), local publishes (contentnet.go, Put) and the cache of fetched content (Open).
-- Each step is one critical section, or one write to the store, of one of them.
pub mod Claims
pub mod Effects
pub mod Commits
pub mod Handles
pub mod Safety
pub mod Owned
use freedom_names.Common.{
  ℕ, zero, suc, ◌+◌, ◌≡◌, Bool, true, false, not, ◌&&◌, ◌||◌, List, [], ◌∷◌, ◌++◌, String, ltb,
  if◌then◌else◌, length,
}
use freedom_names.Common.Assoc.{member}
use freedom_names.Content.Store.{Hashing, BlobStore, StoreResult, ok, err, put}
use freedom_names.Content.Index.{
  ContentIndex, BlobClaims, begin_write, claim, touch, touch_blob, discard_claims, mark_owned,
  add_hosted, flush,
}
use freedom_names.Content.Policy.{HostingPolicy, admit, reserve, release, commit_hosted}

-- A writer's handle, and the blobs that it claimed and then wrote.
pub record Writer : Type 0 where
  pub claims : BlobClaims
  pub written : List String

abbrev pub new_writer : Writer
new_writer = record { claims = record { hashes = [] }; written = [] }

pub record World : Type 0 where
  pub ix : ContentIndex
  pub writers : List Writer

abbrev pub writer_at : ℕ → List Writer → Writer
writer_at n [] = new_writer
writer_at zero (w ∷ ws) = w
writer_at (suc n) (w ∷ ws) = writer_at n ws

abbrev pub set_writer : ℕ → Writer → List Writer → List Writer
set_writer n w' [] = []
set_writer zero w' (w ∷ ws) = w' ∷ ws
set_writer (suc n) w' (w ∷ ws) = w ∷ set_writer n w' ws

-- The steps; the number is the writer's.
pub data Action : Type 0 where
  begin_transfer : Action
  claim_blob : ℕ → String → Action
  put_blob : ℕ → List ℕ → Action
  discard_transfer : ℕ → Action
  commit_push : ℕ → String → ℕ → List String → String → ℕ → Action
  publish : ℕ → String → ℕ → List String → ℕ → Action
  cache_set : ℕ → String → ℕ → List String → String → ℕ → Action
  admit_set : ℕ → ℕ → Action
  reserve_set : ℕ → ℕ → Action
  release_set : ℕ → Action
  touch_set : String → ℕ → Action
  touch_blob_sets : String → ℕ → Action
  flush_index : Action

abbrev pub all_in : List String → List String → Bool
all_in ks [] = true
all_in ks (h ∷ hs) = member h ks && all_in ks hs

-- What the code has done by the time it takes a step: the handle is open, a committed push has
-- claimed each of its blobs, a publish has claimed and written each of them.
unfoldable pub is_allowed : Action → World → Bool
is_allowed (claim_blob n h) w = ltb n (length w.writers)
is_allowed (put_blob n b) w = ltb n (length w.writers)
is_allowed (discard_transfer n) w = ltb n (length w.writers)
is_allowed (commit_push n root size chunks from now) w =
    ltb n (length w.writers) && all_in (writer_at n w.writers).claims.hashes (root ∷ chunks)
is_allowed (publish n root size chunks now) w =
    ltb n (length w.writers) && all_in (writer_at n w.writers).written (root ∷ chunks)
is_allowed (cache_set n root size chunks from now) w = ltb n (length w.writers)
is_allowed begin_transfer w = true
is_allowed (admit_set size now) w = true
is_allowed (reserve_set size now) w = true
is_allowed (release_set size) w = true
is_allowed (touch_set root now) w = true
is_allowed (touch_blob_sets h now) w = true
is_allowed flush_index w = true

-- The handle after a call that took it: once its claims are gone, what it wrote is no longer its
-- own.
abbrev pub with_claims : BlobClaims → Writer → Writer
with_claims c x = elim c.hashes [ [] ↦ new_writer | h ∷ hs ↦ record x { claims = c } ]

abbrev pub after_call : World → ℕ → ContentIndex × BlobClaims → World
after_call w n (ix, c) = record {
  ix = ix;
  writers = set_writer n (with_claims c (writer_at n w.writers)) w.writers;
}

abbrev pub after_commit : World → ℕ → Bool × ContentIndex × BlobClaims → World
after_commit w n (fits, ix, c) = after_call w n (ix, c)

abbrev pub wrote : StoreResult String → Writer → Writer
wrote (ok h) x = if member h x.claims.hashes then record x { written = h ∷ x.written } else x
wrote (err e) x = x

abbrev pub after_put : World → ℕ → BlobStore × StoreResult String → World
after_put w n (store, r) =
    let ix = w.ix in
    record {
      ix = record ix { store = store };
      writers = set_writer n (wrote r (writer_at n w.writers)) w.writers;
    }

module _ (hashing : Hashing) (p : HostingPolicy) where
  unfoldable pub run : Action → World → World
  run begin_transfer w = record w {
    writers = w.writers ++ ((record { claims = begin_write; written = [] }) ∷ []);
  }
  run (claim_blob n h) w = after_call w n (claim w.ix (writer_at n w.writers).claims h)
  run (put_blob n b) w = after_put w n (put hashing w.ix.store b)
  run (discard_transfer n) w =
      after_call w n (discard_claims hashing w.ix (writer_at n w.writers).claims)
  run (commit_push n root size chunks from now) w =
      after_commit w n
        (commit_hosted hashing p now w.ix root size chunks from (writer_at n w.writers).claims)
  run (publish n root size chunks now) w =
      after_call w n (mark_owned hashing w.ix root size chunks (writer_at n w.writers).claims now)
  run (cache_set n root size chunks from now) w =
      after_call w n
        (add_hosted hashing w.ix root size chunks from (writer_at n w.writers).claims now)
  run (admit_set size now) w = record w { ix = (admit hashing p now w.ix size).1 }
  run (reserve_set size now) w = record w { ix = (reserve hashing p now w.ix size).1 }
  run (release_set size) w = record w { ix = release w.ix size }
  run (touch_set root now) w = record w { ix = touch w.ix root now }
  run (touch_blob_sets h now) w = record w { ix = touch_blob w.ix h now }
  run flush_index w = record w { ix = flush w.ix }

  -- The worlds that a sequence of allowed steps leads to.
  pub data Reaches (w : World) : World → Type 0 where
    start : Reaches w w
    step :
        {w' w'' : World}
        → Reaches w w'
        → (a : Action) → is_allowed a w' ≡ true
        → run a w' ≡ w''
        → Reaches w w''
