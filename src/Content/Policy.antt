-- ===== src/Content/Policy.antt =====
-- internal/content/contentindex.go, the hosting policy: what fits the budget, in which order sets
-- are evicted, reservations and commits. Sizes are not negative and their sums do not overflow.
pub mod Loop
pub mod DryRun
pub mod Budget
pub mod Commit
use freedom_names.Common.{
  ℕ, zero, suc, ◌+◌, ◌-◌, ◌*◌, ◌/◌, ◌^◌, Bool, true, false, not, ◌&&◌, ◌||◌, List, [], ◌∷◌, Option,
  none, some, String, ltb, leb, ◌==◌, if◌then◌else◌, length,
}
use freedom_names.Common.Assoc.{lookup, member}
use freedom_names.Content.Store.{Hashing}
use freedom_names.Content.Index.{
  ContentIndex, ContentMeta, BlobClaims, evict, save, hosted_bytes, add_hosted_set, release_claims,
}

-- evictionProtection, in seconds.
abbrev pub eviction_protection : ℕ
eviction_protection = 3600

-- The operator's budget, the cap of one set, and the time to live, in nanoseconds (0 is none).
pub record HostingPolicy : Type 0 where
  pub budget : ℕ
  pub max_size : ℕ
  pub ttl : ℕ

-- `ttl > 0 && now - m.LastAccess > int64(ttl.Seconds())`
unfoldable pub is_expired : HostingPolicy → ℕ → ContentMeta → Bool
is_expired p now m = ltb 0 p.ttl && ltb (m.last_access + p.ttl / 10 ^ 9) now

-- `now - m.StoredAt < evictionProtection`
unfoldable pub is_young : ℕ → ContentMeta → Bool
is_young now m = ltb now (m.stored_at + eviction_protection)

-- A set that the pass may take: hosted, and expired or past its protection.
unfoldable pub is_candidate : HostingPolicy → ℕ → ContentMeta → Bool
is_candidate p now m = not m.owned && (is_expired p now m || not (is_young now m))

pub record Victim : Type 0 where
  pub root : String
  pub expired : Bool
  pub oldest : ℕ

abbrev bool_eq : Bool → Bool → Bool
bool_eq true b = b
bool_eq false b = not b

-- Expired sets come first, then the least recently accessed.
unfoldable pub is_better : Bool → ℕ → Option Victim → Bool
is_better expired last_access none = true
is_better expired last_access (some v) =
    expired && not v.expired || bool_eq expired v.expired && ltb last_access v.oldest

unfoldable pub consider :
    HostingPolicy → ℕ → List String → String → ContentMeta → Option Victim → Option Victim
consider p now spared root m best =
    let expired = is_expired p now m in
    if m.owned || member root spared
    then best
    else if not expired && is_young now m
    then best
    else if is_better expired m.last_access best
    then some (record { root = root; expired = expired; oldest = m.last_access })
    else best

-- The loop over the sets, in the order of the list that stands for the map.
unfoldable pub pick_victim :
    HostingPolicy → ℕ → List String → List (String × ContentMeta) → Option Victim → Option Victim
pick_victim p now spared [] best = best
pick_victim p now spared ((root, m) ∷ rest) best =
    pick_victim p now spared rest (consider p now spared root m best)

-- The variables of the eviction loop. The pass that applies evicts from `ix`; the dry run counts
-- in `freed` and `spared`.
pub record Pass : Type 0 where
  pub ix : ContentIndex
  pub freed : ℕ
  pub spared : List String
  pub evicted : Bool

abbrev pub size_of : Option ContentMeta → ℕ
size_of none = 0
size_of (some m) = m.size

abbrev pub start_pass : ContentIndex → Pass
start_pass ix = record { ix = ix; freed = 0; spared = []; evicted = false }

module _ (hashing : Hashing) (p : HostingPolicy) (now : ℕ) where
  unfoldable pub take_victim : Bool → Pass → String → Pass
  take_victim true s root = record s { ix = evict hashing s.ix root; evicted = true }
  take_victim false s root = record s {
    freed = s.freed + size_of (lookup root s.ix.sets);
    spared = root ∷ s.spared;
  }

  -- `hosted - freed + size > budget`, without the subtraction.
  unfoldable pub is_over : ℕ → Pass → Bool
  is_over size s = ltb (p.budget + s.freed) (hosted_bytes s.ix + size)

  -- Each round takes one more set, so that as many rounds as there are sets are enough.
  unfoldable pub fit_loop : ℕ → Bool → ℕ → Pass → Bool × Pass
  fit_loop zero apply size s = (not (is_over size s), s)
  fit_loop (suc fuel) apply size s = elim (is_over size s) [
    | false ↦ (true, s)
    | true ↦ elim (pick_victim p now s.spared s.ix.sets none) [
      | none ↦ (false, s)
      | some v ↦ fit_loop fuel apply size (take_victim apply s v.root)
    ]
  ]

  -- The index is saved once if anything was evicted.
  unfoldable pub finish_pass : Bool × Pass → Bool × ContentIndex
  finish_pass (fits, s) = (fits, if s.evicted then save s.ix else s.ix)

  unfoldable pub fit : ContentIndex → ℕ → Bool → Bool × ContentIndex
  fit ix size apply =
      if ltb p.max_size size || ltb p.budget size
      then (false, ix)
      else finish_pass (fit_loop (length ix.sets) apply size (start_pass ix))

  unfoldable pub admit : ContentIndex → ℕ → Bool × ContentIndex
  admit ix size = fit ix size true

  unfoldable pub reserve : ContentIndex → ℕ → Bool × ContentIndex
  reserve ix size =
      let (fits, ix') = fit ix size false in
      if fits then (true, record ix' { reserved = ix'.reserved + size }) else (false, ix')

  -- The reservation is dropped before the set is measured; it is gone whether the set fits or not.
  unfoldable pub commit_hosted :
      ContentIndex
      → String
      → ℕ
      → List String
      → String
      → BlobClaims
      → Bool × ContentIndex × BlobClaims
  commit_hosted ix root size chunks from claims =
      let (fits, ix') = fit (record ix { reserved = ix.reserved - size }) size true in
      let (ix'', claims') =
        release_claims hashing false (add_hosted_set ix' root size chunks from now) claims in
      if fits then (true, ix'', claims') else (false, ix', claims)

unfoldable pub release : ContentIndex → ℕ → ContentIndex
release ix size = record ix { reserved = ix.reserved - size }
