-- ===== src/Content/Writers/Owned.antt =====
-- An owned set is never taken away.
use freedom_names.Common.{
  ℕ, ◌-◌, ◌≡◌, refl, subst, inl, inr, Bool, true, false, List, [], ◌∷◌, Option, none, some, String,
  arith, eq_iff, str_eq, Bool-cases, Option-cases,
}
use freedom_names.Common.Assoc.{lookup, insert, member}
use freedom_names.Common.Assoc.Laws.{IsMap, lookup-insert}
use freedom_names.Content.Store.{Hashing}
use freedom_names.Content.Index.{
  ContentIndex, ContentMeta, BlobClaims, refs, set_blobs, save, flush, touch, touch_all, touch_blob,
  begin_write, discard_claims, mark_owned, add_hosted, add_hosted_set, claim, claim_refs, claim_ref,
  reference, release_claims, release_hashes, owned_meta, hosted_meta, has_set,
}
use freedom_names.Content.Index.Blobs.{on_disk}
use freedom_names.Content.Index.Sets.{sets-release_hashes}
use freedom_names.Content.Policy.{
  HostingPolicy, is_candidate, fit, admit, reserve, release, commit_hosted,
}
use freedom_names.Content.Policy.Commit.{fit-spares}
use freedom_names.Content.Policy.DryRun.{reserve_lem}
use freedom_names.Content.Writers.{
  World, Action, begin_transfer, claim_blob, put_blob, discard_transfer, commit_push, publish,
  cache_set, admit_set, reserve_set, release_set, touch_set, touch_blob_sets, flush_index,
  writer_at, run, Reaches, start, step,
}
use freedom_names.Content.Writers.Handles.{IsConsistent}
use freedom_names.Content.Writers.Safety.{Reaches-IsConsistent}

-- The set is indexed and owned.
abbrev pub IsOwned : String → ContentIndex → Type 0
IsOwned r ix = (m : ContentMeta) × (lookup r ix.sets ≡ some m) × (m.owned ≡ true)

-- The entries of one index are those of another.
same_sets : (r : String) (ix ix' : ContentIndex) → ix'.sets ≡ ix.sets → IsOwned r ix → IsOwned r ix'
same_sets r ix ix' e (m, at, own) = (m, rw e at, own)

save-IsOwned : (r : String) (ix : ContentIndex) → IsOwned r ix → IsOwned r (save ix)
unfolding save
save-IsOwned r ix o = same_sets r ix (save ix) (unfold save in (ground arith)) o

-- Inserting an entry that is owned if it is that of the set.
insert-IsOwned :
    (r root : String) (m : ContentMeta) (ix : ContentIndex)
    → (root ≡ r → m.owned ≡ true)
    → IsOwned r ix
    → IsOwned r (record ix { sets = insert root m ix.sets })
insert-IsOwned r root m ix own (m', at, own') = elim (Bool-cases (str_eq root r)) [
  | inl e ↦
      (m, ground (arith, e, lookup-insert r root m ix.sets), own (ground (arith, eq_iff root r)))
  | inr e ↦ (m', ground (arith, e, at, lookup-insert r root m ix.sets), own')
]

touch-IsOwned :
    (r root : String) (now : ℕ) (ix : ContentIndex) → IsOwned r ix → IsOwned r (touch ix root now)
unfolding touch
touch-IsOwned r root now ix o = elim (Option-cases (lookup root ix.sets)) [
  | inl e ↦ rw (e, touch) o
  | inr (m, e) ↦
      rw (e, touch)
        (insert-IsOwned r root (record m { last_access = now }) ix
          (λ same. ground (arith, e, same, o.1, o.2)) o)
]

touch_all-IsOwned :
    (r : String) (ix : ContentIndex) (rs : List String) (now : ℕ)
    → IsOwned r ix
    → IsOwned r (touch_all ix rs now)
unfolding touch_all
touch_all-IsOwned r ix [] now o = o
touch_all-IsOwned r ix (j ∷ rs) now o =
    touch_all-IsOwned r (touch ix j now) rs now (touch-IsOwned r j now ix o)

sets-claim_refs :
    (root : String) (ix : ContentIndex) (hs : List String) → (claim_refs root ix hs).sets ≡ ix.sets
unfolding claim_refs claim_ref
sets-claim_refs root ix [] = refl
sets-claim_refs root ix (h ∷ hs) = sets-claim_refs root (claim_ref root ix h) hs

recorded-IsOwned :
    (r root : String) (m : ContentMeta) (ix : ContentIndex)
    → (root ≡ r → m.owned ≡ true)
    → IsOwned r ix
    → IsOwned r (reference (record ix { sets = insert root m ix.sets }) root m)
unfolding reference
recorded-IsOwned r root m ix own o =
    let jx : ContentIndex = record ix { sets = insert root m ix.sets } in
    same_sets r jx (claim_refs root jx (set_blobs root m))
      (sets-claim_refs root jx (set_blobs root m)) (insert-IsOwned r root m ix own o)

add_hosted_set-IsOwned :
    (r root : String) (ix : ContentIndex) (size : ℕ) (chunks : List String) (from : String)
    (now : ℕ)
    → IsOwned r ix
    → IsOwned r (add_hosted_set ix root size chunks from now)
unfolding add_hosted_set
add_hosted_set-IsOwned r root ix size chunks from now o = elim (Bool-cases (has_set ix root)) [
  | inl old ↦ rw old (touch-IsOwned r root now ix o)
  | inr new ↦
      let m = hosted_meta size chunks from now in
      rw new (
        save-IsOwned r _ (
          recorded-IsOwned r root m ix (λ same. unfold has_set in (ground (arith, new, same, o.1)))
            o))
]

owned-owned_meta :
    (old : Option ContentMeta) (size : ℕ) (chunks : List String) (now : ℕ)
    → (owned_meta old size chunks now).owned ≡ true
unfolding owned_meta
owned-owned_meta none size chunks now = refl
owned-owned_meta (some m) size chunks now = refl

owned_protected :
    (p : HostingPolicy) (now : ℕ) (m : ContentMeta) → m.owned ≡ true → is_candidate p now m ≡ false
unfolding is_candidate
owned_protected p now m own = ground arith

module _ (hashing : Hashing) (r : String) where
  released-IsOwned :
      (d : Bool) (ix : ContentIndex) (hs : List String)
      → IsOwned r ix
      → IsOwned r (release_hashes hashing d ix hs)
  released-IsOwned d ix hs o =
      same_sets r ix (release_hashes hashing d ix hs) (sets-release_hashes hashing d ix hs) o

  mark_owned-IsOwned :
      (root : String) (ix : ContentIndex) (size : ℕ) (chunks : List String) (c : BlobClaims)
      (now : ℕ)
      → IsOwned r ix
      → IsOwned r (mark_owned hashing ix root size chunks c now).0
  unfolding mark_owned release_claims
  mark_owned-IsOwned root ix size chunks c now o =
      let m = owned_meta (lookup root ix.sets) size chunks now in
      save-IsOwned r _ (
        released-IsOwned false _ c.hashes (
          recorded-IsOwned r root m ix
            (λ same. owned-owned_meta (lookup root ix.sets) size chunks now) o))

  module _ (p : HostingPolicy) where
    fit-IsOwned :
        (ix : ContentIndex) (now size : ℕ)
        → IsMap ix.sets
        → IsOwned r ix
        → IsOwned r (fit hashing p now ix size true).1
    fit-IsOwned ix now size u (m, at, own) =
        (m, fit-spares hashing p now ix size u r m at (owned_protected p now m own), own)

    commit_hosted-IsOwned :
        (ix : ContentIndex) (root : String) (size : ℕ) (chunks : List String) (from : String)
        (c : BlobClaims) (now : ℕ)
        → IsMap ix.sets
        → IsOwned r ix
        → IsOwned r (commit_hosted hashing p now ix root size chunks from c).1
    unfolding commit_hosted release_claims
    commit_hosted-IsOwned ix root size chunks from c now u o =
        let jx : ContentIndex = record ix { reserved = ix.reserved - size } in
        let kx = (fit hashing p now jx size true).1 in
        let o' : IsOwned r kx = fit-IsOwned jx now size u o in
        elim (Bool-cases (fit hashing p now jx size true).0) [
          | inl fits ↦
              same_sets r
                (release_hashes hashing false (add_hosted_set kx root size chunks from now)
                  c.hashes)
                (commit_hosted hashing p now ix root size chunks from c).1 (ground (arith, fits))
                (released-IsOwned false _ c.hashes
                  (add_hosted_set-IsOwned r root kx size chunks from now o'))
          | inr full ↦
              same_sets r kx (commit_hosted hashing p now ix root size chunks from c).1
                (ground (arith, full)) o'
        ]

    reserve-IsOwned :
        (ix : ContentIndex) (now size : ℕ)
        → IsMap ix.sets
        → IsOwned r ix
        → IsOwned r (reserve hashing p now ix size).1
    reserve-IsOwned ix now size u o =
        same_sets r ix (reserve hashing p now ix size).1
          (ground (arith, reserve_lem hashing p now ix size u)) o

    run-IsOwned :
        (a : Action) (w : World)
        → IsMap w.ix.sets
        → IsOwned r w.ix
        → IsOwned r (run hashing p a w).ix
    unfolding run begin_write claim discard_claims release_claims add_hosted admit release
        touch_blob flush
    run-IsOwned begin_transfer w u o = o
    run-IsOwned (claim_blob n h) w u o = o
    run-IsOwned (put_blob n b) w u o = o
    run-IsOwned (discard_transfer n) w u o =
        released-IsOwned true w.ix (writer_at n w.writers).claims.hashes o
    run-IsOwned (commit_push n root size chunks from now) w u o =
        commit_hosted-IsOwned w.ix root size chunks from (writer_at n w.writers).claims now u o
    run-IsOwned (publish n root size chunks now) w u o =
        mark_owned-IsOwned root w.ix size chunks (writer_at n w.writers).claims now o
    run-IsOwned (cache_set n root size chunks from now) w u o =
        released-IsOwned false (add_hosted_set w.ix root size chunks from now)
          (writer_at n w.writers).claims.hashes
          (add_hosted_set-IsOwned r root w.ix size chunks from now o)
    run-IsOwned (admit_set size now) w u o = fit-IsOwned w.ix now size u o
    run-IsOwned (reserve_set size now) w u o = reserve-IsOwned w.ix now size u o
    run-IsOwned (release_set size) w u o = o
    run-IsOwned (touch_set root now) w u o = touch-IsOwned r root now w.ix o
    run-IsOwned (touch_blob_sets h now) w u o = touch_all-IsOwned r w.ix (refs w.ix h) now o
    run-IsOwned flush_index w u o = elim (Bool-cases w.ix.dirty) [
      | inl e ↦ simp e (save-IsOwned r w.ix o)
      | inr e ↦ simp e o
    ]

    still-IsOwned :
        (w w' : World) → IsConsistent w → IsOwned r w.ix → Reaches hashing p w w' → IsOwned r w'.ix
    still-IsOwned w _ v o start = o
    still-IsOwned w w'' v o (step s a g e) =
        subst (λ (x : World). IsOwned r x.ix) e
          (run-IsOwned a _ (Reaches-IsConsistent hashing p w _ v s).keys (still-IsOwned w _ v o s))

    -- From a consistent world, an owned set stays indexed and owned, with each of its blobs on
    -- disk, after any steps of the writers.
    pub Reaches-keeps_owned :
        (w w' : World)
        → IsConsistent w
        → IsOwned r w.ix
        → Reaches hashing p w w'
        → (m : ContentMeta) × (lookup r w'.ix.sets ≡ some m)
          × (m.owned ≡ true)
          × ((h : String) → member h (set_blobs r m) ≡ true → on_disk w'.ix h ≡ true)
    Reaches-keeps_owned w w' v o s =
        let (m, at, own) = still-IsOwned w w' v o s in
        (
          m,
          at,
          own,
          λ h named. (Reaches-IsConsistent hashing p w w' v s).whole.present r m h at own named,
        )
