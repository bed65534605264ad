-- ===== src/Bch/Registry/Owner.antt =====
-- Who a name resolves to.
use freedom_names.Common.{
  ℕ, ◌≡◌, refl, sym, ap, ◌∙◌, subst, inl, inr, ◌⊎◌, true, List, [], ◌∷◌, Option, none, some, ◌==◌,
  length, arith, Bool-cases, Option-cases,
}
use freedom_names.Bch.Crypto.{Crypto, hash160}
use freedom_names.Bch.Parse.{ParsedTx}
use freedom_names.Bch.Wallet.Build.{marker_script}
use freedom_names.Bch.Registry.{
  Chain, HistoryItem, found, or_fail, server_failed, Claim, Scan, no_scan, confirmed,
  oldest_history, parse_fn_metadata, genesis_category,
}
use freedom_names.Bch.Registry.Resolve.{
  fetch_tx, note_claim, note_binding, scan_claims, scan_bindings, winning_claim, with_category,
  or_not_found, current_commitment, binding_of, owner_of, resolve,
}
use freedom_names.Bch.Registry.Claims.{
  and_then_found, or_fail_found, or_not_found_found, with_category_found, Exists, Reveals,
}
use freedom_names.Common.Bytes.{bytes_equal, bytes_equal→≡}

module _ (c : Crypto) (chain : Chain) (min_conf : ℕ) where
  note_claim-note_binding :
      (label : List ℕ) (h : HistoryItem) (s : Scan) (t : Option ParsedTx)
      → (note_binding c chain min_conf label h s t).claim
        ≡ note_claim c chain min_conf label h s.claim t
  note_claim-note_binding label h s none = refl
  note_claim-note_binding label h s (some tx) =
      elim (Option-cases (parse_fn_metadata chain.is_owner_key label tx.outputs)) [
        | inl nothing ↦ rw (nothing, note_binding, note_claim) refl
        | inr (m, there) ↦ rw (there, note_binding, note_claim) refl
      ]

  -- The scan of resolve chooses the claim that the scan of winningClaim chooses.
  pub scan_claims-scan_bindings :
      (label : List ℕ) (tip : ℕ) (hs : List HistoryItem) (s s' : Scan)
      → scan_bindings c chain min_conf label tip hs s ≡ found s'
      → scan_claims c chain min_conf label tip hs s.claim ≡ found s'.claim
  unfolding scan_claims scan_bindings
  scan_claims-scan_bindings label tip [] s s' e = ground (arith, e)
  scan_claims-scan_bindings label tip (h ∷ hs) s s' e =
      elim (Bool-cases (confirmed h.height tip min_conf)) [
        | inr skip ↦
            ground
              (arith, skip, scan_claims-scan_bindings label tip hs s s' (ground (arith, e, skip)))
        | inl conf ↦
            let (t, fetched, rest) =
              and_then_found (fetch_tx c chain min_conf h.tx_hash)
                (λ t.
                  scan_bindings c chain min_conf label tip hs
                    (note_binding c chain min_conf label h s t))
                s' (ground (arith, e, conf)) in
            ground (
              arith,
              conf,
              fetched,
              note_claim-note_binding label h s t,
              scan_claims-scan_bindings label tip hs (note_binding c chain min_conf label h s t) s'
                  rest,
            )
      ]

  -- A key is revealed for the label by a confirmed transaction of the history.
  abbrev pub IsRevealed : List ℕ → ℕ → List HistoryItem → List ℕ → Type 0
  IsRevealed label tip hs key =
      Exists
        (λ h. (tag : List ℕ) × (tx : ParsedTx) × Reveals c chain min_conf label tip h tag key tx) hs

  note_binding-cases :
      (label : List ℕ) (tip : ℕ) (h : HistoryItem) (s : Scan) (t : Option ParsedTx) (k : List ℕ)
      → confirmed h.height tip min_conf ≡ true
      → fetch_tx c chain min_conf h.tx_hash ≡ found t
      → Exists (λ x. x ≡ k) (note_binding c chain min_conf label h s t).bindings
      → Exists (λ x. x ≡ k) s.bindings
        ⊎ (tag : List ℕ) × (tx : ParsedTx) × Reveals c chain min_conf label tip h tag k tx
  note_binding-cases label tip h s none k conf e m = inl m
  note_binding-cases label tip h s (some tx) k conf e m =
      elim (Option-cases (parse_fn_metadata chain.is_owner_key label tx.outputs)) [
        | inl nothing ↦ inl (rw (nothing, note_binding) at m)
        | inr ((tag, key), there) ↦
            let m' : (key ≡ k) ⊎ Exists (λ x. x ≡ k) s.bindings = rw (there, note_binding) at m in
            elim m' [
              | inr old ↦ inl old
              | inl same ↦ inr (tag, tx, (conf, e, there ∙ ap (λ (x : List ℕ). some (tag, x)) same))
            ]
      ]

  -- Every key that a scan collects was there or is revealed by its history.
  scan_bindings-IsRevealed :
      (label : List ℕ) (tip : ℕ) (hs : List HistoryItem) (s s' : Scan) (k : List ℕ)
      → scan_bindings c chain min_conf label tip hs s ≡ found s'
      → Exists (λ x. x ≡ k) s'.bindings
      → Exists (λ x. x ≡ k) s.bindings ⊎ IsRevealed label tip hs k
  unfolding scan_bindings
  scan_bindings-IsRevealed label tip [] s s' k e m =
      let same : s' ≡ s = ground (arith, e) in
      inl (subst (λ (x : Scan). Exists (λ y. y ≡ k) x.bindings) same m)
  scan_bindings-IsRevealed label tip (h ∷ hs) s s' k e m =
      elim (Bool-cases (confirmed h.height tip min_conf)) [
        | inr skip ↦
            elim (scan_bindings-IsRevealed label tip hs s s' k (ground (arith, e, skip)) m) [
              | inl old ↦ inl old
              | inr later ↦ inr (inr later)
            ]
        | inl conf ↦
            let (t, fetched, rest) =
              and_then_found (fetch_tx c chain min_conf h.tx_hash)
                (λ t.
                  scan_bindings c chain min_conf label tip hs
                    (note_binding c chain min_conf label h s t))
                s' (ground (arith, e, conf)) in
            elim (scan_bindings-IsRevealed label tip hs (note_binding c chain min_conf label h s t)
              s' k rest m) [
                | inr later ↦ inr (inr later)
                | inl mid ↦ elim (note_binding-cases label tip h s t k conf fetched mid) [
                  | inl old ↦ inl old
                  | inr now ↦ inr (inl now)
                ]
              ]
      ]

  binding_of_lem :
      (commitment k : List ℕ) (ks : List (List ℕ))
      → binding_of c chain min_conf commitment ks ≡ some k
      → (hash160 c k ≡ commitment) × Exists (λ x. x ≡ k) ks
  unfolding binding_of
  binding_of_lem commitment k [] e = cc
  binding_of_lem commitment k (j ∷ ks) e =
      elim (Bool-cases (bytes_equal (hash160 c j) commitment)) [
        | inl hit ↦
            let same : j ≡ k = ground (arith, e, hit) in
            (ap (hash160 c) (sym same) ∙ bytes_equal→≡ (hash160 c j) commitment hit, inl same)
        | inr miss ↦
            let (eq, there) = binding_of_lem commitment k ks (ground (arith, e, miss)) in
            (eq, inr there)
      ]

  -- What stands behind an answer.
  abbrev pub IsOwner : List ℕ → List ℕ → Type 0
  IsOwner label key =
      (winner : Claim) × (category : List ℕ) × (commitment : List ℕ) × (tip : ℕ) × (history : List
        HistoryItem)
      × (winning_claim c chain min_conf label ≡ found (winner, category))
      × (current_commitment c chain min_conf winner.claim_id category ≡ found commitment)
      × (hash160 c key ≡ commitment)
      × (chain.block_height ≡ some tip)
      × (chain.get_history (marker_script c label) ≡ some history)
      × IsRevealed label tip (oldest_history history).0 key

  -- The chain as the lookup of a name starts.
  abbrev Scanned : List ℕ → ℕ → List HistoryItem → Scan → Type 0
  Scanned label tip history s =
      (chain.block_height ≡ some tip)
      × (chain.get_history (marker_script c label) ≡ some history)
      × (scan_bindings c chain min_conf label tip (oldest_history history).0 no_scan ≡ found s)

  Scanned-winning_claim :
      (label : List ℕ) (tip : ℕ) (history : List HistoryItem) (s : Scan) (winner : Claim)
      (category : List ℕ)
      → Scanned label tip history s
      → s.claim ≡ some winner
      → genesis_category winner.tx.inputs ≡ some category
      → winning_claim c chain min_conf label ≡ found (winner, category)
  unfolding winning_claim
  Scanned-winning_claim label tip history s winner category (at, listed, scanned) won from_genesis =
      ground (
        arith,
        at,
        listed,
        won,
        from_genesis,
        scan_claims-scan_bindings label tip (oldest_history history).0 no_scan s scanned,
      )

  owner_of-IsOwner :
      (label key : List ℕ) (tip : ℕ) (history : List HistoryItem) (s : Scan)
      → Scanned label tip history s
      → owner_of c chain min_conf label (oldest_history history).1 s ≡ found key
      → IsOwner label key
  owner_of-IsOwner label key tip history s scan e =
      let truncated = (oldest_history history).1 in
      let (claim, there, e1) = and_then_found (or_not_found truncated s.claim) _ _ e in
      let ((winner, category), with_it, e2) =
        and_then_found (with_category c chain min_conf label claim) _ _ e1 in
      let (same, from_genesis) =
        with_category_found c chain min_conf label claim winner category with_it in
      let won : s.claim ≡ some winner =
        or_not_found_found truncated s.claim claim there ∙ ap some same in
      let (commitment, lives, e3) =
        and_then_found (current_commitment c chain min_conf winner.claim_id category) _ _ e2 in
      let bound : binding_of c chain min_conf commitment s.bindings ≡ some key =
        or_not_found_found truncated (binding_of c chain min_conf commitment s.bindings) key e3 in
      let (matches, collected) = binding_of_lem commitment key s.bindings bound in
      let (at, listed, scanned) = scan in
      (
        winner,
        category,
        commitment,
        tip,
        history,
        Scanned-winning_claim label tip history s winner category scan won from_genesis,
        lives,
        matches,
        at,
        listed,
        elim (scan_bindings-IsRevealed label tip (oldest_history history).0 no_scan s key scanned
            collected) [ inl nothing ↦ absurd nothing | inr revealed ↦ revealed ],
      )

  -- A name resolves to a key only if there is a winning claim with its category, the custody walk
  -- from that claim ends at a commitment that is the hash of the key, and a transaction of the
  -- scanned marker history, confirmed by the required depth below the chain's height, reveals the
  -- key for the label.
  pub resolve-IsOwner :
      (label key : List ℕ) → resolve c chain min_conf label ≡ found key → IsOwner label key
  unfolding resolve
  resolve-IsOwner label key e =
      let (tip, at, e1) = and_then_found (or_fail server_failed chain.block_height) _ _ e in
      let (history, listed, e2) =
        and_then_found (or_fail server_failed (chain.get_history (marker_script c label))) _ _ e1 in
      elim (Bool-cases (length history == 0)) [
        | inl nobody ↦ ground (arith, e2, nobody)
        | inr somebody ↦
            let (s, scanned, e3) =
              and_then_found
                (scan_bindings c chain min_conf label tip (oldest_history history).0 no_scan)
                (owner_of c chain min_conf label (oldest_history history).1) key
                (rw somebody at e2) in
            owner_of-IsOwner label key tip history s
              (
                or_fail_found server_failed chain.block_height tip at,
                or_fail_found server_failed (chain.get_history (marker_script c label)) history
                    listed,
                scanned,
              )
              e3
      ]
