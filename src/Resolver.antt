-- ===== src/Resolver.antt =====
-- internal/resolver/cache.go and internal/resolver/resolve.go: the memory cache and the resolver in
-- front of the DHT. The LRU cache of golang-lru is a parameter, Lru; the record store and the name
-- registry are functions, none where they return an error. Times are in nanoseconds since 1970.
pub mod Fresh
pub mod Served
pub mod Hits
mod Tests
use freedom_names.Common.{
  ℕ, ◌+◌, ◌*◌, ◌^◌, Bool, true, false, not, ◌&&◌, ◌||◌, List, [], ◌∷◌, Option, none, some, ltb, leb,
  ◌==◌, if◌then◌else◌,
}
use freedom_names.Common.Bytes.{bytes_equal}
use freedom_names.Record.{Codec, FnRecord, Rr, ℤ, pos, negsuc, second}
use freedom_names.Record.Names.{canonical_name, dht_key_for_name, dht_key_for_pub_key, is_bare_name}

-- lru.Cache, with keys that are texts.
pub record Lru (V : Type 0) : Type 1 where
  pub State : Type 0
  pub get : State → List ℕ → Option V × State
  pub add : State → List ℕ → V → State
  pub remove : State → List ℕ → State
  pub len : State → ℕ
  pub purge : State → State

pub record CacheRecord : Type 0 where
  pub records : List Rr
  pub expires_at : ℕ

-- 5 minutes
abbrev pub default_cache_ttl : ℕ
default_cache_ttl = 5 * 60 * second

-- The loop of cacheTTL.
unfoldable pub min_ttl : ℕ → List Rr → ℕ
min_ttl least [] = least
min_ttl least (r ∷ rs) =
    min_ttl (if ltb 0 r.ttl && (least == 0 || ltb r.ttl least) then r.ttl else least) rs

unfoldable pub cache_ttl : List Rr → ℕ
cache_ttl rs = if min_ttl 0 rs == 0 then default_cache_ttl else min_ttl 0 rs * second

-- time.Unix(eol, 0). It counts seconds from the year 1 in an int64, and wraps to a time that is past.
unfoldable pub unix_time : ℕ → ℕ
unix_time eol = if leb (2 ^ 63) (eol + 62_135_596_800) then 0 else eol * second

unfoldable pub expiry : ℕ → List Rr → ℤ → ℕ
expiry now rs (pos eol) =
    let expires = now + cache_ttl rs in
    if ltb 0 eol && ltb (unix_time eol) expires then unix_time eol else expires
expiry now rs (negsuc n) = now + cache_ttl rs

module _ (l : Lru CacheRecord) where
  unfoldable pub cache_get : ℕ → l.State → List ℕ → Option (List Rr) × l.State
  cache_get now s name =
      let found = l.get s name in
      elim found.0 [
        | none ↦ (none, found.1)
        | some v ↦
            if ltb v.expires_at now
            then (none, l.remove found.1 name)
            else (some v.records, found.1)
      ]

  unfoldable pub cache_add : ℕ → l.State → List ℕ → List Rr → ℤ → l.State
  cache_add now s name rs eol =
      l.add s name (record { records = rs; expires_at = expiry now rs eol })

  unfoldable pub expire : l.State → List ℕ → l.State
  expire s name = l.remove s name

  unfoldable pub cache_length : l.State → ℕ
  cache_length s = l.len s

  unfoldable pub clear : l.State → l.State
  clear s = l.purge s

pub data ResolveError : Type 0 where
  not_fn_name no_key_id registry_not_found owner_failed lookup_failed : ResolveError

pub data Resolved {ℓ} (A : Type ℓ) : Type ℓ where
  resolved : A → Resolved A
  failed : ResolveError → Resolved A

abbrev pub or_failed {ℓ} : {A : Type ℓ} → ResolveError → Option A → Resolved A
or_failed e none = failed e
or_failed e (some a) = resolved a

-- What a call of Resolve is given: the time, the DHT as it is then, the registry, and the name.
pub record Request : Type 0 where
  pub now : ℕ
  pub store : List ℕ → Option FnRecord
  pub registry : Option (List ℕ → Option (List ℕ))
  pub name : List ℕ

unfoldable pub filter_type : List ℕ → List Rr → List Rr
filter_type t [] = []
filter_type t (r ∷ rs) =
    let rest = filter_type t rs in if bytes_equal r.rr_type t then r ∷ rest else rest

module _ (c : Codec) where
  unfoldable pub dht_key_for : Option (List ℕ → Option (List ℕ)) → List ℕ → Resolved (List ℕ)
  dht_key_for registry name =
      if not (is_bare_name c name)
      then or_failed not_fn_name (dht_key_for_name name)
      else elim registry [
        | none ↦ failed registry_not_found
        | some resolve_owner ↦ elim (resolve_owner name) [
          | none ↦ failed owner_failed
          | some pub_key ↦ or_failed no_key_id (dht_key_for_pub_key c pub_key)
        ]
      ]

  module _ (l : Lru CacheRecord) where
    -- After a miss.
    unfoldable pub look_up : Request → l.State → List ℕ → Resolved (List Rr) × l.State
    look_up q s canonical = elim (dht_key_for q.registry canonical) [
      | failed e ↦ (failed e, s)
      | resolved key ↦ elim (q.store key) [
        | none ↦ (failed lookup_failed, s)
        | some rec ↦ (resolved rec.records, cache_add l q.now s canonical rec.records rec.eol)
      ]
    ]

    unfoldable pub resolve : Request → l.State → Resolved (List Rr) × l.State
    resolve q s =
        let canonical = canonical_name q.name in
        let cached = cache_get l q.now s canonical in
        elim cached.0 [ some rs ↦ (resolved rs, cached.1) | none ↦ look_up q cached.1 canonical ]

    unfoldable pub resolve_type : Request → List ℕ → l.State → Resolved (List Rr) × l.State
    resolve_type q t s =
        let answer = resolve q s in
        elim answer.0 [
          | failed e ↦ (failed e, answer.1)
          | resolved rs ↦ (resolved (filter_type t rs), answer.1)
        ]
