-- ===== src/Content/Writers/Handles.antt =====
-- The invariant of the index with its writers, and the steps of one handle.
use freedom_names.Common.{
  ℕ, zero, suc, ◌+◌, ◌<◌, ◌≤◌, ◌≡◌, ◌≢◌, refl, ap, ◌∙◌, inl, inr, ◌⊎◌, true, List, [], ◌∷◌, ◌++◌,
  String, arith, eq_iff, length,
}
use freedom_names.Common.Assoc.{member}
use freedom_names.Common.Assoc.Laws.{IsMap}
use freedom_names.Content.Index.{ContentIndex, BlobClaims, pending_count}
use freedom_names.Content.Index.Blobs.{on_disk, count}
use freedom_names.Content.Index.Sets.{IsWhole}
use freedom_names.Content.Writers.{
  Writer, World, new_writer, writer_at, set_writer, all_in, with_claims, after_call,
}
use freedom_names.Content.Writers.Claims.{Alive, Quiet}
use freedom_names.Content.Writers.Effects.{Effect, Counted}

-- How often the open handles claim a blob.
abbrev pub total : String → List Writer → ℕ
total h [] = 0
total h (w ∷ ws) = count h w.claims.hashes + total h ws

-- What each step keeps: the index is whole, its counts are the handles' claims, and a blob that a
-- writer wrote under its claim is still on disk.
pub record IsConsistent (w : World) : Type 0 where
  pub keys : IsMap w.ix.sets
  pub whole : IsWhole w.ix
  pub counted : (h : String) → pending_count w.ix h ≡ total h w.writers
  pub held :
      (n : ℕ) (h : String)
      → member h (writer_at n w.writers).written ≡ true
      → (0 < count h (writer_at n w.writers).claims.hashes) × (on_disk w.ix h ≡ true)

pub writer_at-set_writer :
    (n k : ℕ) (x : Writer) (ws : List Writer)
    → n < length ws
    → ((k ≡ n) × (writer_at k (set_writer n x ws) ≡ x))
      ⊎ ((k ≢ n) × (writer_at k (set_writer n x ws) ≡ writer_at k ws))
writer_at-set_writer n k x [] lt = ground (arith, lt)
writer_at-set_writer zero zero x (w ∷ ws) lt = inl (refl, refl)
writer_at-set_writer zero (suc k) x (w ∷ ws) lt = inr (omega arith, refl)
writer_at-set_writer (suc n) zero x (w ∷ ws) lt = inr (omega arith, refl)
writer_at-set_writer (suc n) (suc k) x (w ∷ ws) lt =
    elim (writer_at-set_writer n k x ws (omega (arith, lt))) [
      | inl (e, f) ↦ inl (omega (arith, e), f)
      | inr (e, f) ↦ inr (ground (arith, e), f)
    ]

pub total-set_writer :
    (h : String) (n : ℕ) (x : Writer) (ws : List Writer)
    → n < length ws
    → total h (set_writer n x ws) + count h (writer_at n ws).claims.hashes
      ≡ total h ws + count h x.claims.hashes
total-set_writer h n x [] lt = omega (arith, lt)
total-set_writer h zero x (w ∷ ws) lt = omega arith
total-set_writer h (suc n) x (w ∷ ws) lt =
    omega (arith, total-set_writer h n x ws (omega (arith, lt)))

pub count-le-total :
    (h : String) (n : ℕ) (ws : List Writer) → count h (writer_at n ws).claims.hashes ≤ total h ws
count-le-total h n [] = omega arith
count-le-total h zero (w ∷ ws) = omega arith
count-le-total h (suc n) (w ∷ ws) = omega (arith, count-le-total h n ws)

-- A new handle claims and wrote nothing.
pub writer_at-append :
    (n : ℕ) (ws : List Writer) → writer_at n (ws ++ (new_writer ∷ [])) ≡ writer_at n ws
writer_at-append zero [] = refl
writer_at-append (suc n) [] = refl
writer_at-append zero (w ∷ ws) = refl
writer_at-append (suc n) (w ∷ ws) = writer_at-append n ws

pub total-append : (h : String) (ws : List Writer) → total h (ws ++ (new_writer ∷ [])) ≡ total h ws
total-append h [] = refl
total-append h (w ∷ ws) = ap (λ (t : ℕ). count h w.claims.hashes + t) (total-append h ws)

pub held_member :
    (ks hs : List String)
    → all_in ks hs ≡ true
    → (h : String) → member h hs ≡ true
    → member h ks ≡ true
unfolding member
held_member ks [] e h m = cc
held_member ks (j ∷ hs) e h m =
    ground (arith, eq_iff j h, eq_iff h j, held_member ks hs (ground arith) h)

pub member-count : (h : String) (hs : List String) → member h hs ≡ true → 0 < count h hs
unfolding member
member-count h [] e = cc
member-count h (j ∷ hs) e = ground (arith, eq_iff j h, eq_iff h j, member-count h hs)

with_claims-claims :
    (hs : List String) (x : Writer) → (with_claims (record { hashes = hs }) x).claims.hashes ≡ hs
with_claims-claims [] x = refl
with_claims-claims (h ∷ hs) x = refl

with_claims-written :
    (hs : List String) (x : Writer) (h : String)
    → member h (with_claims (record { hashes = hs }) x).written ≡ true
    → (member h x.written ≡ true) × (hs ≢ [])
unfolding member
with_claims-written [] x h e = cc
with_claims-written (j ∷ hs) x h e = (e, λ f. cc)

-- The world after a step, from what the step did to the index and to the handles.
module _ (w : World) (v : IsConsistent w) where
  pub settle :
      (ix' : ContentIndex) (ws : List Writer)
      → IsMap ix'.sets
      → IsWhole ix'
      → ((h : String) → pending_count ix' h ≡ total h ws)
      → ((h : String) → on_disk w.ix h ≡ true → Alive h ix')
      → ((n : ℕ) (h : String)
          → member h (writer_at n ws).written ≡ true
          → (0 < count h (writer_at n ws).claims.hashes) × (on_disk w.ix h ≡ true))
      → IsConsistent (record { ix = ix'; writers = ws })
  settle ix' ws k wh c a s = record {
    keys = k;
    whole = wh;
    counted = c;
    held = λ n h m.
        let (some_claim, here) = s n h m in
        (some_claim, a h here (inr (omega (arith, some_claim, c h, count-le-total h n ws))));
  }

  pub handle_Counted : (n : ℕ) → Counted w.ix (writer_at n w.writers).claims
  handle_Counted n h = omega (arith, v.counted h, count-le-total h n w.writers)

  still_written :
      (n : ℕ) (h : String) (ix' : ContentIndex) (c' : BlobClaims)
      → Effect w.ix (writer_at n w.writers).claims ix' c'
      → member h (with_claims c' (writer_at n w.writers)).written ≡ true
      → (0 < count h (with_claims c' (writer_at n w.writers)).claims.hashes)
        × (on_disk w.ix h ≡ true)
  still_written n h ix' c' e m =
      let (before, some_left) = with_claims-written c'.hashes (writer_at n w.writers) h m in
      let (claimed, here) = v.held n h before in
      elim e.kept [
        | inl gone ↦ absurd (some_left gone)
        | inr more ↦ (
          omega (
            arith,
            claimed,
            more h,
            ap (count h) (with_claims-claims c'.hashes (writer_at n w.writers)),
          ),
          here,
        )
      ]

  -- A call with one writer's handle.
  pub call_IsConsistent :
      (n : ℕ) (ix' : ContentIndex) (c' : BlobClaims)
      → n < length w.writers
      → Effect w.ix (writer_at n w.writers).claims ix' c'
      → IsConsistent (after_call w n (ix', c'))
  call_IsConsistent n ix' c' lt e =
      let x = with_claims c' (writer_at n w.writers) in
      settle ix' (set_writer n x w.writers) e.keys e.whole
        (λ h. omega (
          arith,
          e.balance h,
          v.counted h,
          total-set_writer h n x w.writers lt,
          ap (count h) (with_claims-claims c'.hashes (writer_at n w.writers)),
          count-le-total h n w.writers,
        ))
        e.alive
        (λ k h m. elim (writer_at-set_writer n k x w.writers lt) [
          | inr (other, same) ↦ rw same (v.held k h (rw same at m))
          | inl (mine, same) ↦ rw same (still_written n h ix' c' e (rw same at m))
        ])

  -- A section without a handle.
  pub lone_IsConsistent :
      (ix' : ContentIndex)
      → IsMap ix'.sets
      → IsWhole ix'
      → ((h : String) → pending_count ix' h ≡ pending_count w.ix h)
      → ((h : String) → on_disk w.ix h ≡ true → Alive h ix')
      → IsConsistent (record w { ix = ix' })
  lone_IsConsistent ix' k wh c a = settle ix' w.writers k wh (λ h. c h ∙ v.counted h) a v.held

  pub Quiet-IsConsistent :
      (ix' : ContentIndex) → Quiet w.ix ix' → IsWhole ix' → IsConsistent (record w { ix = ix' })
  Quiet-IsConsistent ix' (p, s, k) wh =
      lone_IsConsistent ix' (k v.keys) wh (λ h. ground (arith, p))
        (λ h here wanted. ground (arith, s, here))
