-- ===== src/Bch/Registry/Cache.antt =====
-- internal/bch/registry_bch.go, ResolveOwner and cacheStore: the owner cache, keyed by label. Times
-- are nanoseconds; a lookup takes none.
pub mod Bounds
use freedom_names.Common.{
  ℕ, zero, suc, ◌+◌, ◌-◌, ◌*◌, ◌^◌, Bool, true, false, not, ◌&&◌, ◌||◌, List, [], ◌∷◌, Option, none,
  some, ltb, leb, ◌==◌, if◌then◌else◌, length,
}
use freedom_names.Bch.Crypto.{Crypto}
use freedom_names.Bch.Registry.{
  Chain, Lookup, LookupError, found, failed, crashed, not_found, history_truncated, server_failed,
  bad_transaction,
}
use freedom_names.Bch.Registry.Resolve.{resolve}
use freedom_names.Common.Bytes.{bytes_equal}

abbrev pub owner_cache_ttl : ℕ
owner_cache_ttl = 300 * 10 ^ 9

abbrev pub not_found_cache_ttl : ℕ
not_found_cache_ttl = 30 * 10 ^ 9

abbrev pub max_owner_cache_entries : ℕ
max_owner_cache_entries = 4096

-- `owner` is none for an entry with notFound set.
pub record OwnerCacheEntry : Type 0 where
  pub owner : Option (List ℕ)
  pub expires_at : ℕ

abbrev pub OwnerCache : Type 0
OwnerCache = List (List ℕ × OwnerCacheEntry)

unfoldable pub cached : List ℕ → OwnerCache → Option OwnerCacheEntry
cached label [] = none
cached label ((k, e) ∷ cache) = if bytes_equal k label then some e else cached label cache

unfoldable pub forget : List ℕ → OwnerCache → OwnerCache
forget label [] = []
forget label ((k, e) ∷ cache) =
    let rest = forget label cache in if bytes_equal k label then rest else (k, e) ∷ rest

unfoldable pub drop_expired : ℕ → OwnerCache → OwnerCache
drop_expired now [] = []
drop_expired now ((k, e) ∷ cache) =
    let rest = drop_expired now cache in if ltb e.expires_at now then rest else (k, e) ∷ rest

-- The entry that expires first, by the loop's `oldest`.
unfoldable pub soonest : Option (List ℕ × ℕ) → OwnerCache → Option (List ℕ × ℕ)
soonest best [] = best
soonest none ((k, e) ∷ cache) = soonest (some (k, e.expires_at)) cache
soonest (some (oldest, at)) ((k, e) ∷ cache) =
    soonest (if ltb e.expires_at at then some (k, e.expires_at) else some (oldest, at)) cache

-- The loop that evicts while the cache is full; each round takes an entry, so that as many rounds
-- as there are entries are enough.
unfoldable pub make_space : ℕ → ℕ → OwnerCache → OwnerCache
make_space cap zero cache = cache
make_space cap (suc fuel) cache = elim (leb cap (length cache)) [
  | false ↦ cache
  | true ↦ elim (soonest none cache) [
    | none ↦ cache
    | some (oldest, at) ↦ make_space cap fuel (forget oldest cache)
  ]
]

unfoldable pub store_within : ℕ → ℕ → List ℕ → OwnerCacheEntry → OwnerCache → OwnerCache
store_within cap now label entry cache =
    let live = if leb cap (length cache) then drop_expired now cache else cache in
    (label, entry) ∷ forget label (make_space cap (length live) live)

unfoldable pub cache_store : ℕ → List ℕ → OwnerCacheEntry → OwnerCache → OwnerCache
cache_store now label entry cache = store_within max_owner_cache_entries now label entry cache

abbrev pub answer_of : Option (List ℕ) → Lookup (List ℕ)
answer_of none = failed not_found
answer_of (some key) = found key

-- What ResolveOwner does with the result of a lookup.
abbrev pub remember : ℕ → List ℕ → OwnerCache → Lookup (List ℕ) → Lookup (List ℕ) × OwnerCache
remember now label cache (found key) = (
  found key,
  cache_store now label (record { owner = some key; expires_at = now + owner_cache_ttl }) cache,
)
remember now label cache (failed not_found) = (
  failed not_found,
  cache_store now label (record { owner = none; expires_at = now + not_found_cache_ttl }) cache,
)
remember now label cache (failed history_truncated) = (failed history_truncated, cache)
remember now label cache (failed server_failed) = (failed server_failed, cache)
remember now label cache (failed bad_transaction) = (failed bad_transaction, cache)
remember now label cache crashed = (crashed, cache)

abbrev pub is_live : ℕ → Option OwnerCacheEntry → Bool
is_live now none = false
is_live now (some e) = ltb now e.expires_at

abbrev pub owner_in : Option OwnerCacheEntry → Option (List ℕ)
owner_in none = none
owner_in (some e) = e.owner

-- ResolveOwner, for a normalized label.
unfoldable pub resolve_owner :
    Crypto → Chain → ℕ → ℕ → List ℕ → OwnerCache → Lookup (List ℕ) × OwnerCache
resolve_owner c chain min_conf now label cache =
    if is_live now (cached label cache)
    then (answer_of (owner_in (cached label cache)), cache)
    else remember now label cache (resolve c chain min_conf label)
