-- ===== src/Content/Writers/Commits.antt =====
-- What the commit of a push does to the index and to the handle.
use freedom_names.Common.{
  ℕ, ◌-◌, ◌<◌, ◌≡◌, refl, subst, inl, inr, ◌⊎◌, Bool, true, false, List, [], ◌∷◌, String, arith,
  Bool-cases,
}
use freedom_names.Common.Assoc.{member, is_empty}
use freedom_names.Common.Assoc.Laws.{IsMap}
use freedom_names.Content.Store.{Hashing}
use freedom_names.Content.Index.{
  ContentIndex, BlobClaims, refs, pending_count, add_hosted_set, release_claims, release_hashes,
}
use freedom_names.Content.Index.Blobs.{on_disk, pending-release_hashes, refs-release_hashes}
use freedom_names.Content.Index.Sets.{
  IsWhole, sets-release_hashes, release_hashes-IsWhole, add_hosted_set-IsWhole,
}
use freedom_names.Content.Policy.{HostingPolicy, fit, commit_hosted}
use freedom_names.Content.Policy.Commit.{fit-pending, fit-IsMap, fit-IsWhole, fit-claimed}
use freedom_names.Content.Writers.Claims.{
  Alive, add_hosted_set-Quiet, store-release_hashes, fit-Alive,
}
use freedom_names.Content.Writers.Effects.{Effect, Counted, nonempty-add_hosted_set}

unreserved-IsWhole : (ix : ContentIndex) (n : ℕ) → IsWhole ix → IsWhole (record ix { reserved = n })
unreserved-IsWhole ix n v = record { covers = v.covers; present = v.present }

module _ (hashing : Hashing) (p : HostingPolicy) (now : ℕ) (ix : ContentIndex) (c : BlobClaims)
    (u : IsMap ix.sets) (v : IsWhole ix) (e : Counted ix c) (size : ℕ) where
  abbrev unreserved : ContentIndex
  unreserved = record ix { reserved = ix.reserved - size }

  abbrev made_room : ContentIndex
  made_room = (fit hashing p now unreserved size true).1

  refused-Effect : Effect ix c made_room c
  refused-Effect = record {
    keys = fit-IsMap hashing p now unreserved size u;
    whole =
        fit-IsWhole hashing p now unreserved size u (unreserved-IsWhole ix (ix.reserved - size) v);
    balance = λ j. omega (arith, fit-pending hashing p now unreserved size u j);
    alive = λ j here. fit-Alive hashing p now unreserved size j u (λ wanted. here);
    kept = inr (λ j. omega arith);
  }

  module _ (root : String) (chunks : List String) (from : String)
      (held : (h : String) → member h (root ∷ chunks) ≡ true → 0 < pending_count ix h) where
    abbrev added : ContentIndex
    added = add_hosted_set made_room root size chunks from now

    -- Every blob that the set names, or that was wanted anyway, is still there.
    committed-Alive :
        (j : String) → on_disk ix j ≡ true → Alive j (release_hashes hashing false added c.hashes)
    committed-Alive j here wanted =
        let (p', s, k) = add_hosted_set-Quiet made_room root size chunks from now in
        let safe : on_disk made_room j ≡ true = survives wanted in
        ground (arith, safe, s, store-release_hashes hashing added c.hashes)
      where
        stays : Alive j made_room
        stays = fit-Alive hashing p now unreserved size j u (λ w. here)

        survives :
            (is_empty (refs (release_hashes hashing false added c.hashes) j) ≡ false)
              ⊎ (0 < pending_count (release_hashes hashing false added c.hashes) j)
            → on_disk made_room j ≡ true
        survives (inl named) =
            elim (nonempty-add_hosted_set made_room root size chunks from now j
              (rw (refs-release_hashes hashing false added c.hashes j) at named)) [
                | inl old ↦ stays (inl old)
                | inr mine ↦ fit-claimed hashing p now unreserved size u j here (held j mine)
              ]
        survives (inr claimed) =
            let (p', s, k) = add_hosted_set-Quiet made_room root size chunks from now in
            stays (
              inr (
                ground (arith, claimed, p', pending-release_hashes hashing false added c.hashes j)))

    committed-Effect :
        Effect ix c (release_hashes hashing false added c.hashes) (record { hashes = [] })
    committed-Effect =
        let (p', s, k) = add_hosted_set-Quiet made_room root size chunks from now in
        record {
          keys = rw (sets-release_hashes hashing false added c.hashes) (k refused-Effect.keys);
          whole =
              release_hashes-IsWhole hashing false added c.hashes
                (add_hosted_set-IsWhole made_room root size chunks from now refused-Effect.whole);
          balance = λ j. ground (
            arith,
            e j,
            p',
            fit-pending hashing p now unreserved size u j,
            pending-release_hashes hashing false added c.hashes j,
          );
          alive = committed-Alive;
          kept = inl refl;
        }

    pub commit_hosted-Effect :
        (r : Bool × ContentIndex × BlobClaims)
        → commit_hosted hashing p now ix root size chunks from c ≡ r
        → Effect ix c r.1 r.2
    unfolding commit_hosted release_claims
    commit_hosted-Effect r q = elim (Bool-cases (fit hashing p now unreserved size true).0) [
      | inl fits ↦
          let r' : Bool × ContentIndex × BlobClaims =
            (true, release_hashes hashing false added c.hashes, record { hashes = [] }) in
          let q' : r' ≡ r = ground (arith, q, fits) in
          subst (λ (x : Bool × ContentIndex × BlobClaims). Effect ix c x.1 x.2) q' committed-Effect
      | inr full ↦
          let r' : Bool × ContentIndex × BlobClaims = (false, made_room, c) in
          let q' : r' ≡ r = ground (arith, q, full) in
          subst (λ (x : Bool × ContentIndex × BlobClaims). Effect ix c x.1 x.2) q' refused-Effect
    ]
