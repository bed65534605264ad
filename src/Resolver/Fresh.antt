-- ===== src/Resolver/Fresh.antt =====
-- internal/resolver/cache.go, cacheTTL and Add: how long a record may be served.
use freedom_names.Common.{
  ℕ, ◌+◌, ◌*◌, ◌≤◌, ◌<◌, ◌≡◌, refl, sym, subst, ◌⊎◌, inl, inr, ◌&&◌, ◌||◌, List, [], ◌∷◌, arith,
  All, ltb, ◌==◌, Bool-cases, All-map,
}
use freedom_names.Record.{FnRecord, Rr, ℤ, pos, negsuc, second}
use freedom_names.Resolver.{min_ttl, cache_ttl, unix_time, expiry}

-- Not past an end that is set. Verify refuses a record whose end is negative.
abbrev NotPast : ℕ → ℤ → Type 0
NotPast now (pos eol) = (eol ≡ 0) ⊎ (now ≤ eol * second)
NotPast now (negsuc n) = Unit

abbrev HasTtl : List Rr → Type 0
HasTtl [] = ⊥
HasTtl (r ∷ rs) = (0 < r.ttl) ⊎ HasTtl rs

-- The record, fetched at one time, may be served at a later one: no TTL that is set has run out, a
-- record without one is kept five minutes, and the record has not reached its end.
pub record IsFresh (rec : FnRecord) (at now : ℕ) : Type 0 where
  pub within_ttls : All (λ (r : Rr). (r.ttl ≡ 0) ⊎ (now ≤ at + r.ttl * second)) rec.records
  pub within_default : HasTtl rec.records ⊎ (now ≤ at + 300 * second)
  pub within_end : NotPast now rec.eol

-- A TTL that is set bounds the least TTL, which then is set.
abbrev Bounds : ℕ → ℕ → Type 0
Bounds least ttl = (ttl ≡ 0) ⊎ ((0 < least) × (least ≤ ttl))

min_ttl_step :
    (least : ℕ) (r : Rr) (rs : List Rr)
    → (m : ℕ) × (min_ttl least (r ∷ rs) ≡ min_ttl m rs) × Bounds m least × Bounds m r.ttl
unfolding min_ttl
min_ttl_step least r rs = elim (Bool-cases (ltb 0 r.ttl && (least == 0 || ltb r.ttl least))) [
  | inl smaller ↦ (r.ttl, rw smaller refl, ground (arith, smaller), ground arith)
  | inr other ↦ (least, rw other refl, ground arith, ground (arith, other))
]

Bounds-trans : (a b t : ℕ) → Bounds a b → Bounds b t → Bounds a t
Bounds-trans a b t p q = ground (arith, p, q)

min_ttl-Bounds :
    (least : ℕ) (rs : List Rr)
    → Bounds (min_ttl least rs) least × All (λ (r : Rr). Bounds (min_ttl least rs) r.ttl) rs
unfolding min_ttl
min_ttl-Bounds least [] = (ground arith, tt)
min_ttl-Bounds least (r ∷ rs) =
    let (m, e, old, here) = min_ttl_step least r rs in
    let (below, others) = min_ttl-Bounds m rs in
    subst (λ (t : ℕ). Bounds t least × (Bounds t r.ttl × All (λ (r : Rr). Bounds t r.ttl) rs))
      (sym e) (Bounds-trans _ m least below old, (Bounds-trans _ m r.ttl below here, others))

min_ttl-HasTtl : (rs : List Rr) → HasTtl rs ⊎ (min_ttl 0 rs ≡ 0)
unfolding min_ttl
min_ttl-HasTtl [] = inr refl
min_ttl-HasTtl (r ∷ rs) = ground (arith, min_ttl-HasTtl rs)

unix_time-le : (eol : ℕ) → unix_time eol ≤ eol * second
unfolding unix_time
unix_time-le eol = ground arith

expiry-le : (at : ℕ) (rs : List Rr) (eol : ℤ) → expiry at rs eol ≤ at + cache_ttl rs
unfolding expiry
expiry-le at rs (pos eol) = ground arith
expiry-le at rs (negsuc n) = ground arith

expiry-NotPast : (at now : ℕ) (rs : List Rr) (eol : ℤ) → now ≤ expiry at rs eol → NotPast now eol
unfolding expiry
expiry-NotPast at now rs (pos eol) h = ground (arith, h, unix_time-le eol)
expiry-NotPast at now rs (negsuc n) h = tt

pub expiry-IsFresh :
    (rec : FnRecord) (at now : ℕ) → now ≤ expiry at rec.records rec.eol → IsFresh rec at now
unfolding cache_ttl
expiry-IsFresh rec at now h =
    let kept = expiry-le at rec.records rec.eol in
    record {
      within_ttls =
          All-map rec.records (λ r b. within r.ttl b kept) (min_ttl-Bounds 0 rec.records).1;
      within_default = elim (min_ttl-HasTtl rec.records) [
        | inl has ↦ inl has
        | inr unset ↦ inr (ground (arith, h, kept, unset))
      ];
      within_end = expiry-NotPast at now rec.records rec.eol h;
    }
  where
    within :
        (t : ℕ)
        → Bounds (min_ttl 0 rec.records) t
        → expiry at rec.records rec.eol ≤ at + cache_ttl rec.records
        → (t ≡ 0) ⊎ (now ≤ at + t * second)
    within t b kept = ground (arith, b, kept, h)
