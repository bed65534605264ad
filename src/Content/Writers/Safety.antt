-- ===== src/Content/Writers/Safety.antt =====
-- The index and its writers over every order of their steps.
use freedom_names.Common.{
  ℕ, ◌+◌, ◌-◌, ◌<◌, ◌≡◌, refl, sym, ap, ◌∙◌, subst, inl, inr, ◌⊎◌, true, List, [], ◌∷◌, ◌++◌, some,
  String, arith, eq_iff, str_eq, Bool-cases, length,
}
use freedom_names.Common.Assoc.{lookup, member}
use freedom_names.Content.Store.{Hashing, StoreResult, ok, err, put}
use freedom_names.Content.Index.{
  ContentIndex, ContentMeta, BlobClaims, refs, set_blobs, flush, touch_blob, begin_write,
  discard_claims,
}
use freedom_names.Content.Index.Blobs.{is_some, on_disk, count, member→nonempty}
use freedom_names.Content.Index.Sets.{
  IsWhole, put_blob-keeps, put-on_disk, touch_all-IsWhole, touch-IsWhole, save-IsWhole,
}
use freedom_names.Content.Policy.{HostingPolicy, fit, admit, reserve, release, commit_hosted}
use freedom_names.Content.Policy.Commit.{fit-pending, fit-IsMap, fit-IsWhole}
use freedom_names.Content.Policy.DryRun.{reserve_lem}
use freedom_names.Content.Writers.{
  Writer, World, Action, begin_transfer, claim_blob, put_blob, discard_transfer, commit_push,
  publish, cache_set, admit_set, reserve_set, release_set, touch_set, touch_blob_sets, flush_index,
  new_writer, writer_at, is_allowed, all_in, after_call, after_put, after_commit, wrote, run,
  Reaches, start, step,
}
use freedom_names.Content.Writers.Claims.{
  Alive, Quiet, fit-Alive, flush-Quiet, touch-Quiet, touch_blob-Quiet,
}
use freedom_names.Content.Writers.Effects.{
  Effect, claim-Effect, release-Effect, add_hosted-Effect, mark_owned-Effect,
}
use freedom_names.Content.Writers.Commits.{commit_hosted-Effect}
use freedom_names.Content.Writers.Handles.{
  IsConsistent, call_IsConsistent, lone_IsConsistent, Quiet-IsConsistent, settle, handle_Counted,
  writer_at-set_writer, total-set_writer, count-le-total, writer_at-append, total-append,
  held_member, member-count,
}

wrote-claims : (r : StoreResult String) (x : Writer) → (wrote r x).claims ≡ x.claims
wrote-claims (ok h) x = ground arith
wrote-claims (err e) x = refl

wrote-written :
    (r : StoreResult String) (x : Writer) (h : String)
    → member h (wrote r x).written ≡ true
    → (member h x.written ≡ true) ⊎ (r ≡ ok h) × (member h x.claims.hashes ≡ true)
unfolding member
wrote-written (err e) x h m = inl m
wrote-written (ok j) x h m = elim (Bool-cases (member j x.claims.hashes)) [
  | inr other ↦ inl (ground arith)
  | inl claimed ↦ elim (Bool-cases (str_eq j h)) [
    | inl same ↦ inr (ground (arith, eq_iff j h), ground (arith, eq_iff j h))
    | inr other ↦ inl (ground (arith, eq_iff j h, eq_iff h j))
  ]
]

module _ (hashing : Hashing) (w : World) (v : IsConsistent w) where
  put_held :
      (n : ℕ) (b : List ℕ) (h : String)
      → member h (wrote (put hashing w.ix.store b).1 (writer_at n w.writers)).written ≡ true
      → (0 < count h (wrote (put hashing w.ix.store b).1 (writer_at n w.writers)).claims.hashes)
        × (is_some (lookup h (put hashing w.ix.store b).0.files) ≡ true)
  put_held n b h m =
      let x = writer_at n w.writers in
      let r = (put hashing w.ix.store b).1 in
      elim (wrote-written r x h m) [
        | inl old ↦
            let (claimed, here) = v.held n h old in
            (rw (wrote-claims r x) claimed, put_blob-keeps hashing w.ix.store b h here)
        | inr (done, mine) ↦
            let (named, there) = put-on_disk hashing w.ix.store b h done in
            (rw (wrote-claims r x) (member-count h x.claims.hashes mine), there)
      ]

  -- The world after a write to the store.
  put-IsConsistent :
      (n : ℕ) (b : List ℕ)
      → n < length w.writers
      → IsConsistent (after_put w n (put hashing w.ix.store b))
  put-IsConsistent n b lt =
      let x = writer_at n w.writers in
      let r = (put hashing w.ix.store b).1 in
      record {
        keys = v.keys;
        whole = record {
          covers = v.whole.covers;
          present = λ root m h e own named.
              put_blob-keeps hashing w.ix.store b h (v.whole.present root m h e own named);
        };
        counted = λ h. omega (
          arith,
          v.counted h,
          total-set_writer h n (wrote r x) w.writers lt,
          ap (λ (c : BlobClaims). count h c.hashes) (wrote-claims r x),
          count-le-total h n w.writers,
        );
        held = λ k h m. elim (writer_at-set_writer n k (wrote r x) w.writers lt) [
          | inr (other, same) ↦
              let (claimed, here) = v.held k h (rw same at m) in
              rw same (claimed, put_blob-keeps hashing w.ix.store b h here)
          | inl (mine, same) ↦ rw same (put_held n b h (rw same at m))
        ];
      }

  begin_IsConsistent : IsConsistent (record w { writers = w.writers ++ (new_writer ∷ []) })
  begin_IsConsistent =
      settle w v w.ix (w.writers ++ (new_writer ∷ [])) v.keys v.whole
        (λ h. v.counted h ∙ sym (total-append h w.writers)) (λ h here wanted. here)
        (λ n h m.
          rw (writer_at-append n w.writers) (v.held n h (rw (writer_at-append n w.writers) at m)))

  pass_IsConsistent :
      (p : HostingPolicy) (now size : ℕ)
      → IsConsistent (record w { ix = (fit hashing p now w.ix size true).1 })
  pass_IsConsistent p now size =
      lone_IsConsistent w v _ (fit-IsMap hashing p now w.ix size v.keys)
        (fit-IsWhole hashing p now w.ix size v.keys v.whole)
        (fit-pending hashing p now w.ix size v.keys)
        (λ h here. fit-Alive hashing p now w.ix size h v.keys (λ wanted. here))

  reserved_IsConsistent :
      (n : ℕ) → let ix = w.ix in IsConsistent (record w { ix = record ix { reserved = n } })
  reserved_IsConsistent n =
      lone_IsConsistent w v _ v.keys (record { covers = v.whole.covers; present = v.whole.present })
        (λ h. refl) (λ h here wanted. here)

-- A step leaves the world consistent, and loses no blob that is wanted after it.
abbrev pub IsSafe : World → World → Type 0
IsSafe w w' = IsConsistent w' × ((h : String) → on_disk w.ix h ≡ true → Alive h w'.ix)

Quiet-IsSafe :
    (w : World) (ix' : ContentIndex)
    → IsConsistent w
    → Quiet w.ix ix'
    → IsWhole ix'
    → IsSafe w (record w { ix = ix' })
Quiet-IsSafe w ix' v (p, s, k) wh =
    (Quiet-IsConsistent w v ix' (p, s, k) wh, λ h here wanted. ground (arith, s, here))

call_IsSafe :
    (w : World) (n : ℕ) (r : ContentIndex × BlobClaims)
    → IsConsistent w
    → n < length w.writers
    → Effect w.ix (writer_at n w.writers).claims r.0 r.1
    → IsSafe w (after_call w n r)
call_IsSafe w n (ix', c') v lt e = (call_IsConsistent w v n ix' c' lt e, e.alive)

flush-IsWhole : (ix : ContentIndex) → IsWhole ix → IsWhole (flush ix)
unfolding flush
flush-IsWhole ix v = elim (Bool-cases ix.dirty) [
  | inl e ↦ simp e (save-IsWhole ix v)
  | inr e ↦ simp e v
]

module _ (hashing : Hashing) (p : HostingPolicy) where
  reserve-IsSafe :
      (w : World) (now size : ℕ)
      → IsConsistent w
      → IsSafe w (record w { ix = (reserve hashing p now w.ix size).1 })
  reserve-IsSafe w now size v = elim (Bool-cases (admit hashing p now w.ix size).0) [
    | inl fits ↦
        rw (reserve_lem hashing p now w.ix size v.keys, fits)
          (reserved_IsConsistent hashing w v (w.ix.reserved + size), λ h here wanted. here)
    | inr full ↦ rw (reserve_lem hashing p now w.ix size v.keys, full) (v, λ h here wanted. here)
  ]

  commit_IsSafe :
      (w : World) (n : ℕ) (root : String) (size : ℕ) (chunks : List String) (from : String)
      (now : ℕ)
      → IsConsistent w
      → n < length w.writers
      → all_in (writer_at n w.writers).claims.hashes (root ∷ chunks) ≡ true
      → IsSafe w (
          after_commit w n
            (commit_hosted hashing p now w.ix root size chunks from (writer_at n w.writers).claims))
  commit_IsSafe w n root size chunks from now v lt all_claimed =
      let c = (writer_at n w.writers).claims in
      let r = commit_hosted hashing p now w.ix root size chunks from c in
      call_IsSafe w n (r.1, r.2) v lt
        (commit_hosted-Effect hashing p now w.ix c v.keys v.whole (handle_Counted w v n) size root
          chunks from
          (λ h named. omega (
            arith,
            handle_Counted w v n h,
            member-count h c.hashes (held_member c.hashes (root ∷ chunks) all_claimed h named),
          ))
          r refl)

  pub run-IsSafe :
      (a : Action) (w : World)
      → IsConsistent w
      → is_allowed a w ≡ true
      → IsSafe w (run hashing p a w)
  unfolding run is_allowed begin_write discard_claims admit release touch_blob
  run-IsSafe begin_transfer w v g = (begin_IsConsistent hashing w v, λ h here wanted. here)
  run-IsSafe (claim_blob n h) w v g =
      call_IsSafe w n _ v (ground arith)
        (claim-Effect hashing w.ix (writer_at n w.writers).claims v.keys v.whole h)
  run-IsSafe (put_blob n b) w v g = (
    put-IsConsistent hashing w v n b (ground arith),
    λ h here wanted. put_blob-keeps hashing w.ix.store b h here,
  )
  run-IsSafe (discard_transfer n) w v g = call_IsSafe w n _ v (ground arith) (
      release-Effect hashing w.ix (writer_at n w.writers).claims v.keys v.whole
        (handle_Counted w v n) true)
  run-IsSafe (commit_push n root size chunks from now) w v g =
      commit_IsSafe w n root size chunks from now v (ground arith) (ground arith)
  run-IsSafe (publish n root size chunks now) w v g = call_IsSafe w n _ v (ground arith) (
      mark_owned-Effect hashing w.ix (writer_at n w.writers).claims v.keys v.whole
        (handle_Counted w v n) root size chunks now
        (λ h named.
          let all_written : all_in (writer_at n w.writers).written (root ∷ chunks) ≡ true =
            ground arith in
          (v.held n h
            (held_member (writer_at n w.writers).written (root ∷ chunks) all_written h named)).1))
  run-IsSafe (cache_set n root size chunks from now) w v g = call_IsSafe w n _ v (ground arith) (
      add_hosted-Effect hashing w.ix (writer_at n w.writers).claims v.keys v.whole
        (handle_Counted w v n) root size chunks from now)
  run-IsSafe (admit_set size now) w v g = (
    pass_IsConsistent hashing w v p now size,
    λ h here. fit-Alive hashing p now w.ix size h v.keys (λ wanted. here),
  )
  run-IsSafe (reserve_set size now) w v g = reserve-IsSafe w now size v
  run-IsSafe (release_set size) w v g =
      (reserved_IsConsistent hashing w v (w.ix.reserved - size), λ h here wanted. here)
  run-IsSafe (touch_set root now) w v g =
      Quiet-IsSafe w _ v (touch-Quiet w.ix root now) (touch-IsWhole w.ix root now v.whole)
  run-IsSafe (touch_blob_sets h now) w v g =
      Quiet-IsSafe w _ v (touch_blob-Quiet w.ix h now)
        (touch_all-IsWhole w.ix (refs w.ix h) now v.whole)
  run-IsSafe flush_index w v g = Quiet-IsSafe w _ v (flush-Quiet w.ix) (flush-IsWhole w.ix v.whole)

  -- The steps of the writers, in any order, keep the world consistent: distinct set keys, a
  -- reference of each set on each of its blobs, each blob of an owned set on disk, the claim count
  -- of each blob equal to the claims of the open handles, and each blob that a writer wrote under
  -- its claim on disk.
  pub Reaches-IsConsistent :
      (w w' : World) → IsConsistent w → Reaches hashing p w w' → IsConsistent w'
  Reaches-IsConsistent w _ v start = v
  Reaches-IsConsistent w w'' v (step r a g e) =
      subst IsConsistent e (run-IsSafe a _ (Reaches-IsConsistent w _ v r) g).0

  -- A blob that a set names or that a handle claims.
  abbrev pub IsWanted : World → String → Type 0
  IsWanted w h =
      ((root : String) × (m : ContentMeta) × (lookup root w.ix.sets ≡ some m)
        × (member h (set_blobs root m) ≡ true))
      ⊎ (n : ℕ) × (member h (writer_at n w.writers).claims.hashes ≡ true)

  -- From a consistent world, after any steps of the writers, one more allowed step leaves on disk
  -- every blob that was there and that some set names, or some handle claims, when the step is
  -- over.
  pub Reaches-keeps_wanted :
      (w w' : World) (a : Action) (h : String)
      → IsConsistent w
      → Reaches hashing p w w'
      → is_allowed a w' ≡ true
      → on_disk w'.ix h ≡ true
      → IsWanted (run hashing p a w') h
      → on_disk (run hashing p a w').ix h ≡ true
  Reaches-keeps_wanted w w' a h v r g here wanted =
      let (v', alive) = run-IsSafe a w' (Reaches-IsConsistent w w' v r) g in
      let w'' = run hashing p a w' in
      elim wanted [
        | inl (root, m, at, named) ↦
            alive h here
              (inl (member→nonempty root (refs w''.ix h) (v'.whole.covers root m h at named)))
        | inr (n, mine) ↦ alive h here (
            inr (
              omega (
                arith,
                v'.counted h,
                count-le-total h n w''.writers,
                member-count h (writer_at n w''.writers).claims.hashes mine,
              )))
      ]
