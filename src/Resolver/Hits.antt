-- ===== src/Resolver/Hits.antt =====
-- internal/resolver: a record that was fetched answers later requests for every spelling of its
-- name, until it expires.
use freedom_names.Common.{ℕ, ◌≤◌, ◌≡◌, ap, ◌∙◌, inl, inr, List, none, some, arith}
use freedom_names.Record.{Codec, FnRecord, Rr}
use freedom_names.Record.Names.{canonical_name}
use freedom_names.Resolver.{
  Lru, CacheRecord, expiry, cache_get, cache_add, Request, Resolved, resolved, resolve,
}
use freedom_names.Resolver.Served.{LruLaws, fetched, look_up_cases, resolve_cached, resolve_missed}

module _ (c : Codec) (l : Lru CacheRecord) (laws : LruLaws l) where
  cache_get-cache_add :
      (at now : ℕ) (s : l.State) (k : List ℕ) (rec : FnRecord)
      → now ≤ expiry at rec.records rec.eol
      → (cache_get l now (cache_add l at s k rec.records rec.eol) k).0 ≡ some rec.records
  unfolding cache_get cache_add
  cache_get-cache_add at now s k rec early =
      let hit =
        laws.get-add_self s k
          (record { records = rec.records; expires_at = expiry at rec.records rec.eol }) in
      ground (arith, hit, early)

  -- resolve
  pub resolve_again :
      (q p : Request) (s : l.State) (rec : FnRecord)
      → (cache_get l q.now s (canonical_name q.name)).0 ≡ none
      → fetched c q ≡ some rec
      → canonical_name p.name ≡ canonical_name q.name
      → p.now ≤ expiry q.now rec.records rec.eol
      → (resolve c l p (resolve c l q s).1).0 ≡ resolved rec.records
  resolve_again q p s rec miss got same early =
      elim (look_up_cases c l laws q (cache_get l q.now s (canonical_name q.name)).1) [
        | inl (none_fetched, _) ↦ absurd (ground (arith, none_fetched, got))
        | inr (rec', got', looked) ↦
            let cached = (cache_get l q.now s (canonical_name q.name)).1 in
            let same_rec : rec' ≡ rec = ground (arith, got, got') in
            let e =
              ap (λ (x : Resolved (List Rr) × l.State). x.1)
                (resolve_missed c l laws q s miss ∙ looked) in
            let hit : (cache_get l p.now (resolve c l q s).1 (canonical_name p.name)).0
                ≡ some rec.records =
              rw (e, same, same_rec)
                (cache_get-cache_add q.now p.now cached (canonical_name q.name) rec early) in
            ap (λ (x : Resolved (List Rr) × l.State). x.0)
              (resolve_cached c l laws p (resolve c l q s).1 rec.records hit)
      ]
