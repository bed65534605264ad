-- ===== src/Node/Push/Outcome.antt =====
-- internal/node/replicate.go, handlePushStream, as a whole: what a push leaves of the index.
use freedom_names.Common.{
  ℕ, zero, suc, ◌+◌, ◌<◌, ◌≡◌, refl, sym, ap, ◌∙◌, subst, ◌⊎◌, inl, inr, Bool, true, false, List,
  [], ◌∷◌, ◌++◌, none, some, String, arith, if◌then◌else◌, length, take, Bool-cases, Option-cases,
  ◌==◌,
}
use freedom_names.Common.Assoc.Laws.{IsMap}
use freedom_names.Content.Store.{Hashing}
use freedom_names.Content.Index.{
  ContentIndex, BlobClaims, begin_write, has_set, touch, discard_claims, release_claims,
}
use freedom_names.Content.Manifest.{ManifestFormat}
use freedom_names.Content.Policy.{HostingPolicy, reserve, release, commit_hosted}
use freedom_names.Content.Policy.DryRun.{reserve_lem}
use freedom_names.Content.Policy.Commit.{commit_hosted_lem, reserved-release_hashes}
use freedom_names.Content.Writers.{Writer, World, Action, all_in, is_allowed, run, Reaches}
use freedom_names.Content.Writers.Handles.{IsConsistent}
use freedom_names.Content.Writers.Safety.{Reaches-IsConsistent}
use freedom_names.Node.Wire.{Offer, read_push_offer}
use freedom_names.Node.Wire.RoundTrip.{read_push_offer-IsOffer}
use freedom_names.Node.Push.{
  push_accept, push_decline, push_have, Transfer, Progress, going, rejected, crashed, chunks_of,
  Handled, read_limit, fail, record_set, finish_transfer, transfer, handle_offer,
  handle_push_stream,
}
use freedom_names.Node.Push.Steps.{
  Holding, Holding-discard_claims, Holding-commit_hosted, Holding-release,
}
use freedom_names.Node.Push.Receiver.{Receiving, Sound, receive_blobs-Sound}

module _ (hashing : Hashing) (format : ManifestFormat) (p : HostingPolicy) (now : ℕ)
    (w : World) where
  -- The handler is through: its steps were allowed, it claims and reserves nothing any more, and
  -- what it announces is indexed, and answered with 1.
  pub record IsSettled (h : Handled) : Type 0 where
    pub writers : List Writer
    pub reaches : Reaches hashing p w (record { ix = h.ix; writers = writers })
    pub unclaimed :
        (writers ≡ w.writers)
        ⊎ ((x : Writer) × (writers ≡ w.writers ++ (x ∷ [])) × (x.claims.hashes ≡ []))
    pub balanced : h.ix.reserved ≡ w.ix.reserved
    pub answered :
        (h.announced ≡ none)
        ⊎ ((root : String) × (chunks : List String) × (h.announced ≡ some (root, chunks))
            × (has_set h.ix root ≡ true)
            × (h.replies ≡ push_accept ∷ 1 ∷ []))

  discarded-reserved :
      (ix : ContentIndex) (c : BlobClaims) → (discard_claims hashing ix c).0.reserved ≡ ix.reserved
  unfolding discard_claims release_claims
  discarded-reserved ix c = reserved-release_hashes hashing true ix c.hashes

  discarded_hashes :
      (ix : ContentIndex) (c : BlobClaims) → (discard_claims hashing ix c).1.hashes ≡ []
  unfolding discard_claims release_claims
  discarded_hashes ix c = refl

  -- An answer without a transfer.
  alone-IsSettled :
      (ix : ContentIndex) (replies : List ℕ)
      → Reaches hashing p w (record { ix = ix; writers = w.writers })
      → ix.reserved ≡ w.ix.reserved
      → IsSettled (record { replies = replies; ix = ix; announced = none })
  alone-IsSettled ix replies r same = record {
    writers = w.writers;
    reaches = r;
    unclaimed = inl refl;
    balanced = same;
    answered = inl refl;
  }

  -- Both ways in which a transfer is refused: with its reservation, and after it was consumed.
  fail-IsSettled :
      (reserved : Bool) (o : Offer) (t : Transfer)
      → Holding hashing p w t.ix t.claims
      → t.ix.reserved ≡ w.ix.reserved + (if reserved then o.size else 0)
      → IsSettled (fail hashing format p now reserved o t)
  unfolding fail release
  fail-IsSettled true o t held count =
      let gone = Holding-discard_claims hashing p w t.ix t.claims held in
      let (x, same, r) = Holding-release hashing p w _ _ o.size gone in
      record {
        writers = w.writers ++ (x ∷ []);
        reaches = r;
        unclaimed =
            inr (x, refl, ap (λ (c : BlobClaims). c.hashes) same ∙ discarded_hashes t.ix t.claims);
        balanced = omega (arith, count, discarded-reserved t.ix t.claims);
        answered = inl refl;
      }
  fail-IsSettled false o t held count =
      let (x, same, r) = Holding-discard_claims hashing p w t.ix t.claims held in
      record {
        writers = w.writers ++ (x ∷ []);
        reaches = r;
        unclaimed =
            inr (x, refl, ap (λ (c : BlobClaims). c.hashes) same ∙ discarded_hashes t.ix t.claims);
        balanced = omega (arith, count, discarded-reserved t.ix t.claims);
        answered = inl refl;
      }

  module _ (v : IsConsistent w) (o : Offer) where
    -- The keys of the sets are distinct wherever the steps lead.
    held_keys : (ix : ContentIndex) (c : BlobClaims) → Holding hashing p w ix c → IsMap ix.sets
    held_keys ix c (x, same, r) =
        (Reaches-IsConsistent hashing p w (record { ix = ix; writers = w.writers ++ (x ∷ []) }) v
          r).keys

    abbrev committed : String → Transfer → Bool × ContentIndex × BlobClaims
    committed from t =
        commit_hosted hashing p now t.ix o.root o.size (chunks_of t.manifest) from t.claims

    record_set_done :
        (from : String) (t : Transfer)
        → (committed from t).0 ≡ true
        → record_set hashing format p now from o t ≡ record {
          replies = push_accept ∷ 1 ∷ [];
          ix = (committed from t).1;
          announced = some (o.root, chunks_of t.manifest);
        }
    unfolding record_set
    record_set_done from t room = ground (arith, room)

    record_set_full :
        (from : String) (t : Transfer)
        → (committed from t).0 ≡ false
        → record_set hashing format p now from o t
          ≡ fail hashing format p now false o
              (record t { ix = (committed from t).1; claims = (committed from t).2 })
    unfolding record_set
    record_set_full from t full = ground (arith, full)

    take_all : {A : Type 0} (xs : List A) (n : ℕ) → n ≡ length xs → take n xs ≡ xs
    take_all [] n e = rw e refl
    take_all (x ∷ xs) zero e = absurd (omega arith)
    take_all (x ∷ xs) (suc n) e = ap (◌∷◌ x) (take_all xs n (omega arith))

    -- Each blob of the set is claimed by the time the set is recorded.
    all_claimed :
        (t : Transfer)
        → Receiving hashing format p w o (w.ix.reserved + o.size) o.nblobs t
        → 0 < o.nblobs
        → all_in t.claims.hashes (o.root ∷ chunks_of t.manifest) ≡ true
    all_claimed t s some_blob =
        let count : o.nblobs ≡ 1 + length (chunks_of t.manifest) =
          ground (arith, s.fits, some_blob) in
        subst (λ (hs : List String). all_in t.claims.hashes hs ≡ true)
          (take_all (o.root ∷ chunks_of t.manifest) o.nblobs (omega (arith, count))) s.claimed

    record_set-IsSettled :
        (from : String) (t : Transfer)
        → Receiving hashing format p w o (w.ix.reserved + o.size) o.nblobs t
        → 0 < o.nblobs
        → IsSettled (record_set hashing format p now from o t)
    record_set-IsSettled from t s some_blob =
        let chunks = chunks_of t.manifest in
        let (fits, ix, c) = committed from t in
        let held =
          Holding-commit_hosted hashing p w t.ix t.claims now o.root o.size chunks from
            (all_claimed t s some_blob) s.holding in
        let (left, done, kept) =
          commit_hosted_lem hashing p now t.ix ix o.root o.size chunks from t.claims c fits
            (held_keys t.ix t.claims s.holding) refl in
        let balance : ix.reserved ≡ w.ix.reserved = omega (arith, left, s.reserved) in
        elim (Bool-cases fits) [
          | inl room ↦
              let (x, same, r) = held in
              let (indexed, bounded, emptied) = done room in
              subst IsSettled (sym (record_set_done from t room)) (record {
                writers = w.writers ++ (x ∷ []);
                reaches = r;
                unclaimed = inr (x, refl, ap (λ (d : BlobClaims). d.hashes) same ∙ emptied);
                balanced = balance;
                answered = inr (o.root, chunks, refl, indexed, refl);
              })
          | inr full ↦ subst IsSettled (sym (record_set_full from t full)) (
              fail-IsSettled false o (record t { ix = ix; claims = c }) held
                (omega (arith, balance)))
        ]

    finish_transfer-IsSettled :
        (from : String) (b : Progress)
        → Sound hashing format p w o (w.ix.reserved + o.size) o.nblobs b
        → 0 < o.nblobs
        → (h : Handled) × (finish_transfer hashing format p now from o b ≡ some h) × IsSettled h
    unfolding finish_transfer
    finish_transfer-IsSettled from (going t r) s l = elim (Bool-cases (t.received == o.size)) [
      | inl whole ↦ (
        record_set hashing format p now from o t,
        ground (arith, whole),
        record_set-IsSettled from t s l,
      )
      | inr short ↦ (
        fail hashing format p now true o t,
        ground (arith, short),
        fail-IsSettled true o t s.holding s.reserved,
      )
    ]
    finish_transfer-IsSettled from (rejected t) (held, count) l =
        (fail hashing format p now true o t, refl, fail-IsSettled true o t held count)
    finish_transfer-IsSettled from crashed s l = absurd s

    -- The index with the reservation, before the handle is opened.
    begin_Holding :
        (ix : ContentIndex)
        → Reaches hashing p w (record { ix = ix; writers = w.writers })
        → Holding hashing p w ix begin_write
    unfolding is_allowed run
    begin_Holding ix r = (
      record { claims = begin_write; written = [] },
      refl,
      Reaches.step r Action.begin_transfer refl refl,
    )

    release_reaches :
        (ix : ContentIndex)
        → Reaches hashing p w (record { ix = ix; writers = w.writers })
        → Reaches hashing p w (record { ix = release ix o.size; writers = w.writers })
    unfolding is_allowed run
    release_reaches ix r = Reaches.step r (Action.release_set o.size) refl refl

    release_balance :
        (ix : ContentIndex)
        → ix.reserved ≡ w.ix.reserved + o.size
        → (release ix o.size).reserved ≡ w.ix.reserved
    unfolding release
    release_balance ix count = omega (arith, count)

    touch_reaches : Reaches hashing p w (record { ix = touch w.ix o.root now; writers = w.writers })
    unfolding is_allowed run
    touch_reaches = Reaches.step Reaches.start (Action.touch_set o.root now) refl refl

    touch_balance : (touch w.ix o.root now).reserved ≡ w.ix.reserved
    unfolding touch
    touch_balance = ground arith

    transfer-IsSettled :
        (connected : Bool) (from : String) (ix : ContentIndex) (r : List ℕ)
        → Reaches hashing p w (record { ix = ix; writers = w.writers })
        → ix.reserved ≡ w.ix.reserved + o.size
        → 0 < o.nblobs
        → (h : Handled) × (transfer hashing format p now connected from o ix r ≡ some h)
          × IsSettled h
    unfolding transfer
    transfer-IsSettled true from ix r reaches count l =
        finish_transfer-IsSettled from _
          (receive_blobs-Sound hashing format p w o (w.ix.reserved + o.size) 0 o.nblobs
            (record { ix = ix; claims = begin_write; manifest = none; received = 0 })
            (take (read_limit o) r)
            (record {
              holding = begin_Holding ix reaches;
              reserved = count;
              claimed = refl;
              fits = inl refl;
            })
            (omega arith))
          l
    transfer-IsSettled false from ix r reaches count l = (
      record { replies = []; ix = release ix o.size; announced = none },
      refl,
      alone-IsSettled (release ix o.size) [] (release_reaches ix reaches)
          (release_balance ix count),
    )

    -- The offer is held against the index: known, over the limits, or reserved.
    reserve_reaches :
        Reaches hashing p w
          (record { ix = (reserve hashing p now w.ix o.size).1; writers = w.writers })
    unfolding is_allowed run
    reserve_reaches = Reaches.step Reaches.start (Action.reserve_set o.size now) refl refl

    reserve_count :
        (reserve hashing p now w.ix o.size).1.reserved
        ≡ w.ix.reserved + (if (reserve hashing p now w.ix o.size).0 then o.size else 0)
    reserve_count = ground (arith, reserve_lem hashing p now w.ix o.size v.keys)

    handle_offer-IsSettled :
        (connected : Bool) (from : String) (r : List ℕ)
        → 0 < o.nblobs
        → (h : Handled) × (handle_offer hashing format p now connected from o w.ix r ≡ some h)
          × IsSettled h
    unfolding handle_offer
    handle_offer-IsSettled connected from r l = elim (Bool-cases (has_set w.ix o.root)) [
      | inl known ↦ (
        record { replies = push_have ∷ []; ix = touch w.ix o.root now; announced = none },
        ground (arith, known),
        alone-IsSettled (touch w.ix o.root now) (push_have ∷ []) touch_reaches touch_balance,
      )
      | inr unknown ↦ elim (Bool-cases (reserve hashing p now w.ix o.size).0) [
        | inl room ↦
            let ix = (reserve hashing p now w.ix o.size).1 in
            let (h, e, settled) =
              transfer-IsSettled connected from ix r reserve_reaches
                (ground (arith, room, reserve_count)) l in
            (h, ground (arith, unknown, room, e), settled)
        | inr full ↦ (
          record {
            replies = push_decline ∷ [];
            ix = (reserve hashing p now w.ix o.size).1;
            announced = none;
          },
          ground (arith, unknown, full),
          alone-IsSettled _ (push_decline ∷ []) reserve_reaches
              (ground (arith, full, reserve_count)),
        )
      ]
    ]

  -- From a consistent world, on any bytes, handlePushStream comes to an end without reading past
  -- its manifest; its calls are steps that the writers of the index may take, its handle holds no
  -- claim afterwards, the reserved bytes are what they were, and it announces nothing, or a set
  -- that is then indexed and that it answered with 1.
  pub handle_push_stream-IsSettled :
      (connected : Bool) (from : String) (r : List ℕ)
      → IsConsistent w
      → (h : Handled) × (handle_push_stream hashing format p now connected from w.ix r ≡ some h)
        × IsSettled h
  unfolding handle_push_stream
  handle_push_stream-IsSettled connected from r v =
      elim (Option-cases (read_push_offer hashing r)) [
        | inl bad ↦ (
          record { replies = []; ix = w.ix; announced = none },
          ground (arith, bad),
          alone-IsSettled w.ix [] Reaches.start refl,
        )
        | inr ((o, r'), offered) ↦
            let (h, e, settled) =
              handle_offer-IsSettled v o connected from r'
                (read_push_offer-IsOffer hashing r r' o offered).some_blob in
            (h, ground (arith, offered, e), settled)
      ]
