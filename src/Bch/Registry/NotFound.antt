-- ===== src/Bch/Registry/NotFound.antt =====
-- When a name is reported as not found.
use freedom_names.Common.{
  ℕ, ◌<◌, ◌≡◌, refl, sym, ap, ◌∙◌, subst, inl, inr, ◌⊎◌, true, false, List, [], ◌∷◌, Option, none,
  some, leb, ◌==◌, if◌then◌else◌, length, arith, Bool-cases, Option-cases, leb→le,
}
use freedom_names.Bch.Crypto.{Crypto}
use freedom_names.Bch.Parse.{parse_tx, ParsedTx}
use freedom_names.Bch.Wallet.Build.{marker_script}
use freedom_names.Bch.Registry.{
  Chain, HistoryItem, Lookup, found, failed, crashed, and_then, or_fail, server_failed, not_found,
  LookupError, Claim, Scan, no_scan, confirmed, oldest_history, genesis_category,
}
use freedom_names.Bch.Registry.Resolve.{
  parsed_or_skipped, fetch_tx, note_binding, scan_claims, scan_bindings, with_category,
  or_not_found, current_commitment, binding_of, owner_of, resolve,
}
use freedom_names.Bch.Registry.Claims.{or_fail_found, or_not_found_found, with_category_found}
use freedom_names.Bch.Registry.Owner.{scan_claims-scan_bindings}
use freedom_names.Bch.Reader.{Outcome, ok, err, panic}

-- Where a chained lookup failed.
and_then_failed {ℓ κ} :
    {A : Type ℓ} {B : Type κ} (m : Lookup A) (f : A → Lookup B) (x : LookupError)
    → and_then m f ≡ failed x
    → (m ≡ failed x) ⊎ (a : A) × (m ≡ found a) × (f a ≡ failed x)
and_then_failed (found a) f x e = inr (a, refl, e)
and_then_failed (failed y) f x e = inl (ground (arith, e))
and_then_failed crashed f x e = cc

server_not_found {ℓ} : {A : Type ℓ} (o : Option A) → or_fail server_failed o ≡ failed not_found → ⊥
server_not_found none e = cc
server_not_found (some a) e = cc

truncated_not_found {ℓ} : {A : Type ℓ} (o : Option A) → or_not_found true o ≡ failed not_found → ⊥
truncated_not_found none e = cc
truncated_not_found (some a) e = cc

parsed_not_found : (o : Outcome ParsedTx) → parsed_or_skipped o ≡ failed not_found → ⊥
parsed_not_found (ok tx) e = cc
parsed_not_found (err x) e = cc
parsed_not_found panic e = cc

long_nonempty : (n : ℕ) → 512 < n → (n == 0) ≡ false
long_nonempty n lt = ground arith

long_truncated :
    (history : List HistoryItem) → 512 < length history → (oldest_history history).1 ≡ true
unfolding oldest_history
long_truncated history lt = elim (Bool-cases (leb (length history) 512)) [
  | inl b ↦ absurd (omega (arith, lt, leb→le (length history) 512 b))
  | inr b ↦ rw b refl
]

some_same {ℓ} : {A : Type ℓ} {a b : A} → some a ≡ some b → a ≡ b
some_same e = cc

module _ (c : Crypto) (chain : Chain) (min_conf : ℕ) where
  fetch_not_found : (id : List ℕ) → fetch_tx c chain min_conf id ≡ failed not_found → ⊥
  unfolding fetch_tx
  fetch_not_found id e =
      elim (and_then_failed (or_fail server_failed (chain.get_raw_transaction id)) _ not_found e) [
        | inl f ↦ server_not_found (chain.get_raw_transaction id) f
        | inr (raw, got, f) ↦ parsed_not_found (parse_tx raw) f
      ]

  -- A scan fails by the server only.
  scan_not_found :
      (label : List ℕ) (tip : ℕ) (hs : List HistoryItem) (s : Scan)
      → scan_bindings c chain min_conf label tip hs s ≡ failed not_found
      → ⊥
  unfolding scan_bindings
  scan_not_found label tip [] s e = cc
  scan_not_found label tip (h ∷ hs) s e = elim (Bool-cases (confirmed h.height tip min_conf)) [
    | inr skip ↦ scan_not_found label tip hs s (ground (arith, e, skip))
    | inl conf ↦
        elim (and_then_failed (fetch_tx c chain min_conf h.tx_hash)
          (λ t.
            scan_bindings c chain min_conf label tip hs (note_binding c chain min_conf label h s t))
          not_found (ground (arith, e, conf))) [
            | inl f ↦ fetch_not_found h.tx_hash f
            | inr (t, fetched, f) ↦
                scan_not_found label tip hs (note_binding c chain min_conf label h s t) f
          ]
  ]

  -- The scan found a claim, which mints nothing or of which the token is not found.
  abbrev pub LosesToken : List ℕ → List HistoryItem → Type 0
  LosesToken label history =
      (tip : ℕ) × (winner : Claim) × (chain.block_height ≡ some tip)
      × (scan_claims c chain min_conf label tip (oldest_history history).0 none
          ≡ found (some winner))
      × ((genesis_category winner.tx.inputs ≡ none)
          ⊎ (category : List ℕ) × (genesis_category winner.tx.inputs ≡ some category)
            × (current_commitment c chain min_conf winner.claim_id category ≡ failed not_found))

  abbrev TokenLost : Claim → Type 0
  TokenLost winner =
      (genesis_category winner.tx.inputs ≡ none)
      ⊎ (category : List ℕ) × (genesis_category winner.tx.inputs ≡ some category)
        × (current_commitment c chain min_conf winner.claim_id category ≡ failed not_found)

  owner_of_not_found :
      (label : List ℕ) (s : Scan)
      → owner_of c chain min_conf label true s ≡ failed not_found
      → (winner : Claim) × (s.claim ≡ some winner) × TokenLost winner
  owner_of_not_found label s e = elim (and_then_failed (or_not_found true s.claim) _ not_found e) [
    | inl f ↦ absurd (truncated_not_found s.claim f)
    | inr (winner, there, f) ↦
        let won : s.claim ≡ some winner = or_not_found_found true s.claim winner there in
        elim (and_then_failed (with_category c chain min_conf label winner) _ not_found f) [
          | inl g ↦ (winner, won, inl (no_category winner g))
          | inr ((winner', category), with_it, g) ↦
              let (same, from_genesis) =
                with_category_found c chain min_conf label winner winner' category with_it in
              elim (and_then_failed (current_commitment c chain min_conf winner'.claim_id category)
                _ not_found g) [
                  | inl h ↦ (winner', won ∙ ap some same, inr (category, from_genesis, h))
                  | inr (commitment, lives, h) ↦
                      absurd
                        (truncated_not_found (binding_of c chain min_conf commitment s.bindings) h)
                ]
        ]
  ]
    where
      no_category :
          (winner : Claim)
          → with_category c chain min_conf label winner ≡ failed not_found
          → genesis_category winner.tx.inputs ≡ none
      no_category winner g = elim (Option-cases (genesis_category winner.tx.inputs)) [
        | inl nothing ↦ nothing
        | inr (k, there) ↦ ground (arith, g, there)
      ]

  -- The part of resolve after the history.
  abbrev after_history : List ℕ → ℕ → List HistoryItem → Lookup (List ℕ)
  after_history label tip history =
      if length history == 0
      then failed not_found
      else (and_then (scan_bindings c chain min_conf label tip (oldest_history history).0 no_scan)
          (owner_of c chain min_conf label (oldest_history history).1))

  scanned_long :
      (label : List ℕ) (tip : ℕ) (history : List HistoryItem)
      → chain.block_height ≡ some tip
      → 512 < length history
      → after_history label tip history ≡ failed not_found
      → LosesToken label history
  scanned_long label tip history at long e =
      let scan = (oldest_history history).0 in
      let g : and_then (scan_bindings c chain min_conf label tip scan no_scan)
            (owner_of c chain min_conf label true)
          ≡ failed not_found =
        rw (long_nonempty (length history) long, long_truncated history long) at e in
      elim (and_then_failed (scan_bindings c chain min_conf label tip scan no_scan) _ not_found g) [
        | inl h ↦ absurd (scan_not_found label tip scan no_scan h)
        | inr (s, scanned, h) ↦
            let (winner, won, lost) = owner_of_not_found label s h in
            (
              tip,
              winner,
              at,
              scan_claims-scan_bindings c chain min_conf label tip scan no_scan s scanned
                  ∙ ap found won,
              lost,
            )
      ]

  -- When the marker history has more than 512 entries, a name is reported as not found only if the
  -- scan found a claim, and that claim has no input that spends output index 0, or the walk from
  -- its category reports that there is no token.
  pub resolve-not_found :
      (label : List ℕ) (history : List HistoryItem)
      → chain.get_history (marker_script c label) ≡ some history
      → 512 < length history
      → resolve c chain min_conf label ≡ failed not_found
      → LosesToken label history
  unfolding resolve
  resolve-not_found label history listed long e =
      elim (and_then_failed (or_fail server_failed chain.block_height) _ not_found e) [
        | inl f ↦ absurd (server_not_found chain.block_height f)
        | inr (tip, at, f) ↦
            elim (and_then_failed
              (or_fail server_failed (chain.get_history (marker_script c label))) _ not_found f) [
                | inl g ↦ absurd (server_not_found (chain.get_history (marker_script c label)) g)
                | inr (history', there, g) ↦
                    let same : history' ≡ history = some_same (
                      sym (
                        or_fail_found server_failed (chain.get_history (marker_script c label))
                          history' there)
                      ∙ listed) in
                    scanned_long label tip history
                      (or_fail_found server_failed chain.block_height tip at) long
                      (subst
                        (λ (hs : List HistoryItem). after_history label tip hs ≡ failed not_found)
                        same g)
              ]
      ]
