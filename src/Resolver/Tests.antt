-- ===== src/Resolver/Tests.antt =====
-- Runs of internal/resolver with a cache of a hundred entries, the oldest dropped first.
use freedom_names.Common.{
  ◌*◌, ℕ, ◌≡◌, refl, ◌⊎◌, inl, inr, List, [], ◌∷◌, Option, none, some, arith, length, if◌then◌else◌,
  Bool-cases,
}
use freedom_names.Common.Bytes.{bytes_equal, bytes_equal_iff, bytes_equal_refl}
use freedom_names.Record.{FnRecord, second, record_type_a}
use freedom_names.Record.Ip.{split}
use freedom_names.Record.Names.{
  lower_byte, to_lower, trim_dot, canonical_name, join, split_last, parse_name, has_suffix,
  dht_key_of, dht_key_for_name, is_pub_key_id, is_bare_name,
}
use freedom_names.Record.Tests.{toy, published, key_id_key}
use freedom_names.Resolver.{
  Lru, CacheRecord, Request, resolved, failed, lookup_failed, min_ttl, cache_ttl, unix_time, expiry,
  cache_get, cache_add, dht_key_for, look_up, resolve, resolve_type, filter_type,
}
use freedom_names.Resolver.Served.{LruLaws, after, Means, resolve-Means}

-- What is held, by key, and the keys.
abbrev Entries : Type 0
Entries = (List ℕ → Option CacheRecord) × List (List ℕ)

unfoldable drop_key : List ℕ → List (List ℕ) → List (List ℕ)
drop_key k [] = []
drop_key k (j ∷ js) = let rest = drop_key k js in if bytes_equal j k then rest else j ∷ rest

abbrev toy_lru : Lru CacheRecord
toy_lru = record {
  State = Entries;
  get = λ (held, ks) k. (held k, (held, ks));
  add = λ (held, ks) k v. (λ j. if bytes_equal k j then some v else held j, k ∷ drop_key k ks);
  remove = λ (held, ks) k. (λ j. if bytes_equal k j then none else held j, drop_key k ks);
  len = λ (held, ks). length ks;
  purge = λ s. (λ j. none, []);
}

toy-LruLaws : LruLaws toy_lru
toy-LruLaws = record {
  get-get = λ s j k. refl;
  get-add_self = λ s k v. ground (arith, bytes_equal_refl k);
  get-add = added;
  get-remove = removed;
}
  where
    added :
        (s : Entries) (j k : List ℕ) (v w : CacheRecord)
        → (if bytes_equal j k then some w else s.0 k) ≡ some v
        → ((j ≡ k) × (v ≡ w)) ⊎ (s.0 k ≡ some v)
    added s j k v w e = elim (Bool-cases (bytes_equal j k)) [
      | inl same ↦ inl (ground (arith, e, same, bytes_equal_iff j k))
      | inr other ↦ inr (ground (arith, e, other))
    ]

    removed :
        (s : Entries) (j k : List ℕ) (v : CacheRecord)
        → ◌≡◌ {A = Option CacheRecord} (if bytes_equal j k then none else s.0 k) (some v)
        → s.0 k ≡ some v
    removed s j k v e = elim (Bool-cases (bytes_equal j k)) [
      | inl same ↦ absurd (ground (arith, e, same))
      | inr other ↦ ground (arith, e, other)
    ]

abbrev nothing_held : Entries
nothing_held = (λ k. none, [])

-- The DHT, which holds one record.
abbrev network : List ℕ → Option FnRecord
network k = if bytes_equal k key_id_key then some published else none

-- site.k1.fn
abbrev full : List ℕ
full = b's' ∷ b'i' ∷ b't' ∷ b'e' ∷ b'.' ∷ b'k' ∷ b'1' ∷ b'.' ∷ b'f' ∷ b'n' ∷ []

-- Site.k1.fn.
abbrev dotted : List ℕ
dotted = b'S' ∷ b'i' ∷ b't' ∷ b'e' ∷ b'.' ∷ b'k' ∷ b'1' ∷ b'.' ∷ b'f' ∷ b'n' ∷ b'.' ∷ []

abbrev first : Request
first = record { now = 1000 * second; store = network; registry = none; name = full }

-- Later, with the network away.
abbrev later : Request
later = record { now = 1030 * second; store = λ k. none; registry = none; name = dotted }

later_served :
    (resolve toy toy_lru later (after toy toy_lru toy-LruLaws nothing_held (first ∷ []))).0
    ≡ resolved published.records
unfolding resolve look_up dht_key_for cache_get cache_add min_ttl cache_ttl unix_time expiry after
    is_bare_name is_pub_key_id has_suffix parse_name canonical_name to_lower lower_byte trim_dot
    split split_last join dht_key_of dht_key_for_name bytes_equal drop_key
later_served = refl

-- A minute after the fetch, the shortest TTL, the network is asked again.
expired_refused :
    (resolve toy toy_lru
      (record later { now = 1061 * second })
      (after toy toy_lru toy-LruLaws nothing_held (first ∷ []))).0
    ≡ failed lookup_failed
unfolding resolve look_up dht_key_for cache_get cache_add min_ttl cache_ttl unix_time expiry after
    is_bare_name is_pub_key_id has_suffix parse_name canonical_name to_lower lower_byte trim_dot
    split split_last join dht_key_of dht_key_for_name bytes_equal drop_key
expired_refused = refl

texts_only :
    (resolve_type toy toy_lru first record_type_a nothing_held).0
    ≡ resolved (filter_type record_type_a published.records)
unfolding resolve resolve_type look_up dht_key_for cache_get cache_add min_ttl cache_ttl unix_time
    expiry is_bare_name is_pub_key_id has_suffix parse_name canonical_name to_lower lower_byte
    trim_dot split split_last join dht_key_of dht_key_for_name bytes_equal drop_key
texts_only = refl

nothing_found : (k : List ℕ) → (toy_lru.get nothing_held k).0 ≡ none
nothing_found k = refl

resolve-Means_example :
    Means toy toy_lru toy-LruLaws
      (first ∷ [])
      later
      (resolve toy toy_lru later (after toy toy_lru toy-LruLaws nothing_held (first ∷ []))).0
resolve-Means_example =
    resolve-Means toy toy_lru toy-LruLaws nothing_held nothing_found (first ∷ []) later
