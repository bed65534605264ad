-- ===== src/Resolver/Served.antt =====
-- internal/resolver: what Resolve answers, after any calls. The laws of the LRU cache are its
-- documented behaviour: an answer is the value last added under that very key.
use freedom_names.Common.{
  ℕ, suc, ◌≤◌, ◌≡◌, refl, sym, ap, ◌∙◌, subst, ◌⊎◌, inl, inr, List, [], ◌∷◌, Option, none, some,
  arith, ltb, Bool-cases, Option-cases, get_elem?,
}
use freedom_names.Record.{Codec, FnRecord, Rr}
use freedom_names.Record.Names.{canonical_name}
use freedom_names.Resolver.Fresh.{IsFresh, expiry-IsFresh}
use freedom_names.Resolver.{
  Lru, CacheRecord, expiry, cache_get, cache_add, Request, ResolveError, lookup_failed, Resolved,
  resolved, failed, dht_key_for, look_up, resolve,
}

pub record LruLaws {V : Type 0} (l : Lru V) : Type 0 where
  pub get-get : (s : l.State) (j k : List ℕ) → (l.get (l.get s j).1 k).0 ≡ (l.get s k).0
  pub get-add_self : (s : l.State) (k : List ℕ) (v : V) → (l.get (l.add s k v) k).0 ≡ some v
  pub get-add :
      (s : l.State) (j k : List ℕ) (v w : V)
      → (l.get (l.add s j w) k).0 ≡ some v
      → ((j ≡ k) × (v ≡ w)) ⊎ ((l.get s k).0 ≡ some v)
  pub get-remove :
      (s : l.State) (j k : List ℕ) (v : V)
      → (l.get (l.remove s j) k).0 ≡ some v
      → (l.get s k).0 ≡ some v

-- The record that a request fetches from the DHT, when it is not answered by the cache.
unfoldable pub fetched : Codec → Request → Option FnRecord
fetched c q = elim (dht_key_for c q.registry (canonical_name q.name)) [
  | failed e ↦ none
  | resolved key ↦ q.store key
]

module _ (c : Codec) (l : Lru CacheRecord) (laws : LruLaws l) where
  -- A cached value was fetched for a name of this key by one of the requests.
  abbrev pub FetchedBy : List Request → List ℕ → CacheRecord → Type 0
  FetchedBy qs k v =
      (i : ℕ) × (q : Request) × (rec : FnRecord) × (get_elem? qs i ≡ some q)
      × (fetched c q ≡ some rec)
      × (canonical_name q.name ≡ k)
      × (v.records ≡ rec.records)
      × (v.expires_at ≡ expiry q.now rec.records rec.eol)

  -- The requests so far, the last first, account for every value in the cache.
  abbrev pub Accounts : List Request → l.State → Type 0
  Accounts qs s = (k : List ℕ) (v : CacheRecord) → (l.get s k).0 ≡ some v → FetchedBy qs k v

  FetchedBy-later :
      (q : Request) (qs : List Request) (k : List ℕ) (v : CacheRecord)
      → FetchedBy qs k v
      → FetchedBy (q ∷ qs) k v
  FetchedBy-later q qs k v (i, p, rec, at, got, key, rs, ends) =
      (suc i, p, rec, at, got, key, rs, ends)

  cache_get_state :
      (now : ℕ) (s : l.State) (name : List ℕ)
      → ((cache_get l now s name).1 ≡ (l.get s name).1)
        ⊎ ((cache_get l now s name).1 ≡ l.remove (l.get s name).1 name)
  unfolding cache_get
  cache_get_state now s name = elim (Option-cases (l.get s name).0) [
    | inl miss ↦ inl (ground (arith, miss))
    | inr (v, hit) ↦ elim (Bool-cases (ltb v.expires_at now)) [
      | inl late ↦ inr (ground (arith, hit, late))
      | inr early ↦ inl (ground (arith, hit, early))
    ]
  ]

  cache_get_hit :
      (now : ℕ) (s : l.State) (name : List ℕ) (rs : List Rr)
      → (cache_get l now s name).0 ≡ some rs
      → (v : CacheRecord) × ((l.get s name).0 ≡ some v) × (v.records ≡ rs) × (now ≤ v.expires_at)
  unfolding cache_get
  cache_get_hit now s name rs h = elim (Option-cases (l.get s name).0) [
    | inl miss ↦ absurd (ground (arith, miss, h))
    | inr (v, hit) ↦ elim (Bool-cases (ltb v.expires_at now)) [
      | inl late ↦ absurd (ground (arith, hit, late, h))
      | inr early ↦ (v, hit, ground (arith, hit, early, h), ground (arith, early))
    ]
  ]

  -- What a look-up comes to: an error that leaves the cache as it was, or what was fetched.
  abbrev pub Looked : Request → l.State → Type 0
  Looked q s =
      ((fetched c q ≡ none)
        × ((e : ResolveError) × (look_up c l q s (canonical_name q.name) ≡ (failed e, s))))
      ⊎ ((rec : FnRecord) × (fetched c q ≡ some rec)
          × (look_up c l q s (canonical_name q.name) ≡ (
            resolved rec.records,
            cache_add l q.now s (canonical_name q.name) rec.records rec.eol,
          )))

  pub look_up_cases : (q : Request) (s : l.State) → Looked q s
  unfolding look_up fetched
  look_up_cases q s = by_key (dht_key_for c q.registry (canonical_name q.name)) refl
    where
      by_key :
          (k : Resolved (List ℕ))
          → dht_key_for c q.registry (canonical_name q.name) ≡ k
          → Looked q s
      by_key (failed e) k = inl (ground (arith, k), (e, ground (arith, k)))
      by_key (resolved key) k = elim (Option-cases (q.store key)) [
        | inl bad ↦ inl (ground (arith, k, bad), (lookup_failed, ground (arith, k, bad)))
        | inr (rec, got) ↦ inr (rec, ground (arith, k, got), ground (arith, k, got))
      ]

  cache_get-Accounts :
      (now : ℕ) (qs : List Request) (s : l.State) (name : List ℕ)
      → Accounts qs s
      → Accounts qs (cache_get l now s name).1
  cache_get-Accounts now qs s name held k v h = elim (cache_get_state now s name) [
    | inl e ↦
        held k v (sym (laws.get-get s name k) ∙ ap (λ (t : l.State). (l.get t k).0) (sym e) ∙ h)
    | inr e ↦ held k v (
        sym (laws.get-get s name k)
        ∙ laws.get-remove (l.get s name).1 name k v
            (ap (λ (t : l.State). (l.get t k).0) (sym e) ∙ h))
  ]

  cache_add-Accounts :
      (q : Request) (qs : List Request) (s : l.State) (rec : FnRecord)
      → fetched c q ≡ some rec
      → Accounts qs s
      → Accounts (q ∷ qs) (cache_add l q.now s (canonical_name q.name) rec.records rec.eol)
  unfolding cache_add
  cache_add-Accounts q qs s rec got held k v h =
      elim (laws.get-add s (canonical_name q.name) k v _ h) [
        | inl (key, new) ↦ (
          0,
          q,
          rec,
          refl,
          got,
          key,
          ap (λ (w : CacheRecord). w.records) new,
          ap (λ (w : CacheRecord). w.expires_at) new,
        )
        | inr old ↦ FetchedBy-later q qs k v (held k v old)
      ]

  -- What Resolve answers comes from the DHT now, or from a record fetched before that is fresh.
  abbrev pub Served : List Request → Request → List Rr → Type 0
  Served qs q rs =
      ((rec : FnRecord) × (fetched c q ≡ some rec) × (rec.records ≡ rs))
      ⊎ ((i : ℕ) × (p : Request) × (rec : FnRecord) × (get_elem? qs i ≡ some p)
          × (fetched c p ≡ some rec)
          × (canonical_name p.name ≡ canonical_name q.name)
          × (rec.records ≡ rs)
          × IsFresh rec p.now q.now)

  resolve_hit :
      (qs : List Request) (q : Request) (s : l.State) (rs : List Rr)
      → Accounts qs s
      → (cache_get l q.now s (canonical_name q.name)).0 ≡ some rs
      → Served qs q rs
  resolve_hit qs q s rs held h =
      let (v, found, same, early) = cache_get_hit q.now s (canonical_name q.name) rs h in
      let (i, p, rec, at, got, key, records, ends) = held (canonical_name q.name) v found in
      inr (
        i,
        p,
        rec,
        at,
        got,
        key,
        sym records ∙ same,
        expiry-IsFresh rec p.now q.now (subst (λ (e : ℕ). q.now ≤ e) ends early),
      )

  pub resolve_cached :
      (q : Request) (s : l.State) (rs : List Rr)
      → (cache_get l q.now s (canonical_name q.name)).0 ≡ some rs
      → resolve c l q s ≡ (resolved rs, (cache_get l q.now s (canonical_name q.name)).1)
  unfolding resolve
  resolve_cached q s rs h = ground (arith, h)

  pub resolve_missed :
      (q : Request) (s : l.State)
      → (cache_get l q.now s (canonical_name q.name)).0 ≡ none
      → resolve c l q s
        ≡ look_up c l q (cache_get l q.now s (canonical_name q.name)).1 (canonical_name q.name)
  unfolding resolve
  resolve_missed q s h = ground (arith, h)

  -- What a result means: a failure is the DHT's or the registry's now, and is not cached.
  abbrev pub Means : List Request → Request → Resolved (List Rr) → Type 0
  Means qs q (resolved rs) = Served qs q rs
  Means qs q (failed e) = fetched c q ≡ none

  abbrev Sound : List Request → Request → Resolved (List Rr) × l.State → Type 0
  Sound qs q (answer, s) = Means qs q answer × Accounts (q ∷ qs) s

  resolve-Sound :
      (qs : List Request) (q : Request) (s : l.State) → Accounts qs s → Sound qs q (resolve c l q s)
  resolve-Sound qs q s held =
      let canonical = canonical_name q.name in
      let kept = cache_get-Accounts q.now qs s canonical held in
      let later : Accounts (q ∷ qs) (cache_get l q.now s canonical).1 =
        λ k v h. FetchedBy-later q qs k v (kept k v h) in
      elim (Option-cases (cache_get l q.now s canonical).0) [
        | inr (rs, hit) ↦
            subst (Sound qs q) (sym (resolve_cached q s rs hit))
              (resolve_hit qs q s rs held hit, later)
        | inl miss ↦ elim (look_up_cases q (cache_get l q.now s canonical).1) [
          | inl (none_fetched, (e, looked)) ↦
              subst (Sound qs q) (sym (resolve_missed q s miss ∙ looked)) (none_fetched, later)
          | inr (rec, got, looked) ↦ subst (Sound qs q) (sym (resolve_missed q s miss ∙ looked)) (
            inl (rec, got, refl),
            cache_add-Accounts q qs (cache_get l q.now s canonical).1 rec got kept,
          )
        ]
      ]

  -- The cache after the requests, the last first.
  unfoldable pub after : l.State → List Request → l.State
  after s [] = s
  after s (q ∷ qs) = (resolve c l q (after s qs)).1

  module _ (s : l.State) (empty : (k : List ℕ) → (l.get s k).0 ≡ none) where
    after-Accounts : (qs : List Request) → Accounts qs (after s qs)
    unfolding after
    after-Accounts [] = λ k v h. absurd (ground (arith, empty k, h))
    after-Accounts (q ∷ qs) = (resolve-Sound qs q (after s qs) (after-Accounts qs)).1

    -- Starting with an empty cache, after any requests, an answer of Resolve is what the DHT gives
    -- now, or what it gave to an earlier request for the same canonical name, no TTL of which has
    -- run out since and whose end of life, where it is positive, is not past; a failure means that
    -- nothing is fetched now.
    pub resolve-Means :
        (qs : List Request) (q : Request) → Means qs q (resolve c l q (after s qs)).0
    resolve-Means qs q = (resolve-Sound qs q (after s qs) (after-Accounts qs)).0
