-- ===== src/Bch/Registry/Cache/Bounds.antt =====
-- The cache stays bounded, and answers what it stored.
use freedom_names.Common.{
  ℕ, zero, suc, ◌+◌, ◌<◌, ◌≤◌, ◌≡◌, ◌≢◌, refl, inl, inr, ◌⊎◌, Bool, true, false, ◌||◌, List, [],
  ◌∷◌, Option, none, some, ltb, leb, if◌then◌else◌, length, arith, Bool-cases, Option-cases, leb→le,
  leb→lt, lt→ltb,
}
use freedom_names.Bch.Crypto.{Crypto}
use freedom_names.Bch.Registry.{
  Chain, Lookup, LookupError, found, failed, crashed, not_found, history_truncated, server_failed,
  bad_transaction,
}
use freedom_names.Bch.Registry.Resolve.{resolve}
use freedom_names.Bch.Registry.Cache.{
  OwnerCache, OwnerCacheEntry, cached, forget, drop_expired, soonest, make_space, store_within,
  cache_store, answer_of, remember, is_live, resolve_owner, owner_cache_ttl, not_found_cache_ttl,
}
use freedom_names.Common.Bytes.{bytes_equal, bytes_equal_refl}

length-forget : (label : List ℕ) (cache : OwnerCache) → length (forget label cache) ≤ length cache
unfolding forget
length-forget label [] = omega arith
length-forget label ((k, e) ∷ cache) = ground (arith, length-forget label cache)

-- A key of the cache.
has_entry : List ℕ → OwnerCache → Bool
has_entry label [] = false
has_entry label ((k, e) ∷ cache) = bytes_equal k label || has_entry label cache

length-forget_present :
    (label : List ℕ) (cache : OwnerCache)
    → has_entry label cache ≡ true
    → length (forget label cache) < length cache
unfolding forget has_entry
length-forget_present label [] e = cc
length-forget_present label ((k, x) ∷ cache) e =
    ground (arith, length-forget label cache, length-forget_present label cache)

soonest_present :
    (best : Option (List ℕ × ℕ)) (cache : OwnerCache) (oldest : List ℕ) (at : ℕ)
    → soonest best cache ≡ some (oldest, at)
    → (best ≡ some (oldest, at)) ⊎ (has_entry oldest cache ≡ true)
unfolding soonest has_entry
soonest_present none [] oldest at e = cc
soonest_present (some b) [] oldest at e = inl e
soonest_present none ((k, x) ∷ cache) oldest at e =
    elim (soonest_present (some (k, x.expires_at)) cache oldest at e) [
      | inl f ↦ inr (ground (arith, f, bytes_equal_refl k))
      | inr f ↦ inr (ground (arith, f))
    ]
soonest_present (some (o, t)) ((k, x) ∷ cache) oldest at e =
    elim (Bool-cases (ltb x.expires_at t)) [
      | inl b ↦ elim (soonest_present (some (k, x.expires_at)) cache oldest at (rw b at e)) [
        | inl f ↦ inr (ground (arith, f, bytes_equal_refl k))
        | inr f ↦ inr (ground (arith, f))
      ]
      | inr b ↦ elim (soonest_present (some (o, t)) cache oldest at (rw b at e)) [
        | inl f ↦ inl f
        | inr f ↦ inr (ground (arith, f))
      ]
    ]

soonest-some : (b : List ℕ × ℕ) (cache : OwnerCache) → soonest (some b) cache ≡ none → ⊥
unfolding soonest
soonest-some b [] e = cc
soonest-some (o, t) ((k, x) ∷ cache) e = elim (Bool-cases (ltb x.expires_at t)) [
  | inl f ↦ soonest-some (k, x.expires_at) cache (rw f at e)
  | inr f ↦ soonest-some (o, t) cache (rw f at e)
]

soonest-none : (cache : OwnerCache) → soonest none cache ≡ none → length cache ≡ 0
unfolding soonest
soonest-none [] e = refl
soonest-none ((k, x) ∷ cache) e = absurd (soonest-some (k, x.expires_at) cache e)

length-make_space :
    (cap fuel : ℕ) (cache : OwnerCache)
    → length cache ≤ fuel
    → 0 < cap
    → length (make_space cap fuel cache) < cap
unfolding make_space
length-make_space cap zero cache le pos = omega (arith, le, pos)
length-make_space cap (suc fuel) cache le pos = elim (Bool-cases (leb cap (length cache))) [
  | inr b ↦ rw (b, make_space) (leb→lt cap (length cache) b)
  | inl b ↦ elim (Option-cases (soonest none cache)) [
    | inl e ↦ absurd (omega (arith, soonest-none cache e, leb→le cap (length cache) b, pos))
    | inr ((oldest, at), e) ↦
        let there : has_entry oldest cache ≡ true = elim (soonest_present none cache oldest at e) [
          | inl f ↦ cc
          | inr f ↦ f
        ] in
        rw (b, e, make_space)
          (length-make_space cap fuel (forget oldest cache)
            (omega (arith, le, length-forget_present oldest cache there)) pos)
  ]
]

length-store_within :
    (cap now : ℕ) (label : List ℕ) (entry : OwnerCacheEntry) (cache : OwnerCache)
    → 0 < cap
    → length (store_within cap now label entry cache) ≤ cap
unfolding store_within
length-store_within cap now label entry cache pos =
    let live = if leb cap (length cache) then drop_expired now cache else cache in
    omega (
      arith,
      length-forget label (make_space cap (length live) live),
      length-make_space cap (length live) live (omega arith) pos,
    )

cached-store_within :
    (cap now : ℕ) (label : List ℕ) (entry : OwnerCacheEntry) (cache : OwnerCache)
    → cached label (store_within cap now label entry cache) ≡ some entry
unfolding store_within cached
cached-store_within cap now label entry cache = rw (bytes_equal_refl label) refl

length-cache_store :
    (now : ℕ) (label : List ℕ) (entry : OwnerCacheEntry) (cache : OwnerCache)
    → length (cache_store now label entry cache) ≤ 4096
unfolding cache_store
length-cache_store now label entry cache =
    length-store_within 4096 now label entry cache (omega arith)

cached-cache_store :
    (now : ℕ) (label : List ℕ) (entry : OwnerCacheEntry) (cache : OwnerCache)
    → cached label (cache_store now label entry cache) ≡ some entry
unfolding cache_store
cached-cache_store now label entry cache = cached-store_within 4096 now label entry cache

remember-bounded :
    (now : ℕ) (label : List ℕ) (cache : OwnerCache) (r : Lookup (List ℕ))
    → length cache ≤ 4096
    → length (remember now label cache r).1 ≤ 4096
remember-bounded now label cache (found key) le = length-cache_store now label _ cache
remember-bounded now label cache (failed not_found) le = length-cache_store now label _ cache
remember-bounded now label cache (failed history_truncated) le = le
remember-bounded now label cache (failed server_failed) le = le
remember-bounded now label cache (failed bad_transaction) le = le
remember-bounded now label cache crashed le = le

module _ (c : Crypto) (chain : Chain) (min_conf now : ℕ) (label : List ℕ) (cache : OwnerCache) where
  -- A cache of at most 4096 entries has at most 4096 entries after any lookup.
  pub resolve_owner-bounded :
      length cache ≤ 4096 → length (resolve_owner c chain min_conf now label cache).1 ≤ 4096
  unfolding resolve_owner
  resolve_owner-bounded le = elim (Bool-cases (is_live now (cached label cache))) [
    | inl hit ↦ rw hit le
    | inr miss ↦ rw miss (remember-bounded now label cache (resolve c chain min_conf label) le)
  ]

  live_entry :
      (o : Option (List ℕ)) (later : ℕ)
      → later < now + not_found_cache_ttl
      → (at : ℕ) × (later < at)
        × (cached label (remember now label cache (answer_of o)).1
            ≡ some (record { owner = o; expires_at = at }))
  live_entry none later lt = (now + not_found_cache_ttl, lt, cached-cache_store now label _ cache)
  live_entry (some key) later lt =
      (now + owner_cache_ttl, omega (arith, lt), cached-cache_store now label _ cache)

  -- When no live entry is cached and the lookup gives a key or "not found", every lookup less than
  -- 30 seconds later gives the same answer from the cache and leaves it unchanged, whatever the
  -- chain says then.
  pub resolve_owner-repeats :
      (chain' : Chain) (min_conf' later : ℕ) (o : Option (List ℕ))
      → is_live now (cached label cache) ≡ false
      → resolve c chain min_conf label ≡ answer_of o
      → later < now + not_found_cache_ttl
      → let cache' = (resolve_owner c chain min_conf now label cache).1 in
        resolve_owner c chain' min_conf' later label cache' ≡ (answer_of o, cache')
  unfolding resolve_owner
  resolve_owner-repeats chain' min_conf' later o miss e lt =
      let (at, live, there) = live_entry o later lt in
      let cache' = (remember now label cache (answer_of o)).1 in
      let hit : is_live later (cached label cache') ≡ true = rw there (lt→ltb later at live) in
      rw (miss, e, hit, there) refl

  -- A failure of the lookup is no answer: it is not kept.
  pub resolve_owner-transient :
      (x : LookupError)
      → is_live now (cached label cache) ≡ false
      → resolve c chain min_conf label ≡ failed x
      → x ≢ not_found
      → resolve_owner c chain min_conf now label cache ≡ (failed x, cache)
  unfolding resolve_owner
  resolve_owner-transient not_found miss e other = absurd (other refl)
  resolve_owner-transient history_truncated miss e other = rw (miss, e) refl
  resolve_owner-transient server_failed miss e other = rw (miss, e) refl
  resolve_owner-transient bad_transaction miss e other = rw (miss, e) refl
