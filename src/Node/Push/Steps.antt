-- ===== src/Node/Push/Steps.antt =====
-- The receiver of a push (internal/node/replicate.go, handlePushStream) as one of the writers of the
-- content index: each of its calls is an allowed step of Content.Writers.
use freedom_names.Common.{
  ℕ, ◌≡◌, refl, ap, ◌∙◌, true, List, [], ◌∷◌, ◌++◌, String, arith, ltb, length, lt→ltb,
  length-append,
}
use freedom_names.Content.Store.{Hashing, StoreResult, ok, err, put}
use freedom_names.Content.Index.{ContentIndex, BlobClaims, claim, discard_claims}
use freedom_names.Content.Policy.{HostingPolicy, release, commit_hosted}
use freedom_names.Content.Writers.{
  Writer, World, Action, writer_at, set_writer, with_claims, after_call, wrote, all_in, is_allowed,
  run, Reaches,
}

-- The newest handle.
pub writer_at_last : (ws : List Writer) (x : Writer) → writer_at (length ws) (ws ++ (x ∷ [])) ≡ x
writer_at_last [] x = refl
writer_at_last (w ∷ ws) x = writer_at_last ws x

pub set_writer_last :
    (ws : List Writer) (x y : Writer) → set_writer (length ws) y (ws ++ (x ∷ [])) ≡ ws ++ (y ∷ [])
set_writer_last [] x y = refl
set_writer_last (w ∷ ws) x y = ap (◌∷◌ w) (set_writer_last ws x y)

is_last : (ws : List Writer) (x : Writer) → ltb (length ws) (length (ws ++ (x ∷ []))) ≡ true
is_last ws x = lt→ltb _ _ (omega (arith, length-append ws (x ∷ [])))

with_claims_same : (c : BlobClaims) (x : Writer) → (with_claims c x).claims ≡ c
with_claims_same c x = by_hashes c.hashes
  where
    by_hashes :
        (hs : List String)
        → (with_claims (record { hashes = hs }) x).claims ≡ record { hashes = hs }
    by_hashes [] = refl
    by_hashes (h ∷ hs) = refl

wrote_same : (r : StoreResult String) (x : Writer) → (wrote r x).claims ≡ x.claims
wrote_same (ok h) x = ground arith
wrote_same (err e) x = refl

module _ (hashing : Hashing) (p : HostingPolicy) (w : World) where
  -- The steps so far lead to this index, and to a new handle with these claims.
  abbrev pub Holding : ContentIndex → BlobClaims → Type 0
  Holding ix c =
      (x : Writer) × (x.claims ≡ c)
      × Reaches hashing p w (record { ix = ix; writers = w.writers ++ (x ∷ []) })

  -- A call that takes the handle.
  Holding-call :
      (ix : ContentIndex) (c : BlobClaims) (a : Action)
      (f : ContentIndex → BlobClaims → ContentIndex × BlobClaims)
      → Holding ix c
      → ((x : Writer)
          → x.claims ≡ c
          → is_allowed a (record { ix = ix; writers = w.writers ++ (x ∷ []) }) ≡ true)
      → ((v : World)
          → run hashing p a v
            ≡ after_call v
                (length w.writers)
                (f v.ix (writer_at (length w.writers) v.writers).claims))
      → Holding (f ix c).0 (f ix c).1
  Holding-call ix c a f (x, same, r) allowed does = (
    with_claims (f ix c).1 x,
    with_claims_same (f ix c).1 x,
    Reaches.step r a (allowed x same)
        (does _ ∙ rw (writer_at_last w.writers x, set_writer_last w.writers x, same) refl),
  )

  pub Holding-claim :
      (ix : ContentIndex) (c : BlobClaims) (h : String)
      → Holding ix c
      → Holding (claim ix c h).0 (claim ix c h).1
  unfolding is_allowed run
  Holding-claim ix c h held =
      Holding-call ix c (Action.claim_blob (length w.writers) h) (λ jx d. claim jx d h) held
        (λ x same. is_last w.writers x) (λ v. refl)

  pub Holding-discard_claims :
      (ix : ContentIndex) (c : BlobClaims)
      → Holding ix c
      → Holding (discard_claims hashing ix c).0 (discard_claims hashing ix c).1
  unfolding is_allowed run
  Holding-discard_claims ix c held =
      Holding-call ix c (Action.discard_transfer (length w.writers))
        (λ jx d. discard_claims hashing jx d) held (λ x same. is_last w.writers x) (λ v. refl)

  pub Holding-commit_hosted :
      (ix : ContentIndex) (c : BlobClaims) (now : ℕ) (root : String) (size : ℕ)
      (chunks : List String) (from : String)
      → all_in c.hashes (root ∷ chunks) ≡ true
      → Holding ix c
      → Holding
          (commit_hosted hashing p now ix root size chunks from c).1
          (commit_hosted hashing p now ix root size chunks from c).2
  unfolding is_allowed run
  Holding-commit_hosted ix c now root size chunks from all held =
      Holding-call ix c (Action.commit_push (length w.writers) root size chunks from now)
        (λ jx d.
          let (fits, kx, e) = commit_hosted hashing p now jx root size chunks from d in (kx, e))
        held (λ x same. ground (arith, is_last w.writers x, writer_at_last w.writers x, same, all))
        (λ v. refl)

  pub Holding-put :
      (ix : ContentIndex) (c : BlobClaims) (b : List ℕ)
      → Holding ix c
      → Holding (record ix { store = (put hashing ix.store b).0 }) c
  unfolding is_allowed run
  Holding-put ix c b (x, same, r) = (
    wrote (put hashing ix.store b).1 x,
    wrote_same (put hashing ix.store b).1 x ∙ same,
    Reaches.step r (Action.put_blob (length w.writers) b) (is_last w.writers x)
        (rw (writer_at_last w.writers x, set_writer_last w.writers x) refl),
  )

  pub Holding-release :
      (ix : ContentIndex) (c : BlobClaims) (size : ℕ) → Holding ix c → Holding (release ix size) c
  unfolding is_allowed run
  Holding-release ix c size (x, same, r) =
      (x, same, Reaches.step r (Action.release_set size) refl refl)
