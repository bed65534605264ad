-- ===== src/Bch/Registry/Resolve.antt =====
-- internal/bch/registry_bch.go: the winning claim, the custody walk, and the lookup of an owner.
use freedom_names.Common.{
  ℕ, zero, suc, Bool, true, false, List, [], ◌∷◌, Option, none, some, ◌==◌, if◌then◌else◌, length,
}
use freedom_names.Bch.Crypto.{Crypto, hash160}
use freedom_names.Bch.Reader.{Outcome, ok, err, panic}
use freedom_names.Bch.Tx.{tx_id}
use freedom_names.Bch.Parse.{ParsedTx, parse_tx}
use freedom_names.Bch.Wallet.Build.{marker_script}
use freedom_names.Bch.Registry.{
  Chain, HistoryItem, Lookup, found, failed, crashed, and_then, or_fail, not_found,
  history_truncated, server_failed, bad_transaction, Claim, Scan, no_scan, Holder, confirmed,
  oldest_history, newest_history, parse_fn_metadata, keep_claim, genesis_category, find_token,
  spends, max_custody_hops,
}
use freedom_names.Common.Bytes.{bytes_equal}

-- A parsed transaction; none where parseTx fails and the loop goes on.
abbrev pub parsed_or_skipped : Outcome ParsedTx → Lookup (Option ParsedTx)
parsed_or_skipped (ok tx) = found (some tx)
parsed_or_skipped (err e) = found none
parsed_or_skipped panic = crashed

abbrev pub parsed_or_failed : Outcome ParsedTx → Lookup ParsedTx
parsed_or_failed (ok tx) = found tx
parsed_or_failed (err e) = failed bad_transaction
parsed_or_failed panic = crashed

-- The result of a scan that found no claim.
abbrev pub or_not_found {ℓ} : {A : Type ℓ} → Bool → Option A → Lookup A
or_not_found truncated (some a) = found a
or_not_found truncated none = failed (if truncated then history_truncated else not_found)

module _ (c : Crypto) (chain : Chain) (min_conf : ℕ) where
  unfoldable pub fetch_tx : List ℕ → Lookup (Option ParsedTx)
  fetch_tx id =
      and_then (or_fail server_failed (chain.get_raw_transaction id))
        (λ raw. parsed_or_skipped (parse_tx raw))

  module _ (label : List ℕ) where
    -- One confirmed transaction of the scan of winningClaim.
    abbrev pub note_claim : HistoryItem → Option Claim → Option ParsedTx → Option Claim
    note_claim h claim none = claim
    note_claim h claim (some tx) = elim (parse_fn_metadata chain.is_owner_key label tx.outputs) [
      | none ↦ claim
      | some (tag, pub_key) ↦ keep_claim tag tx h claim
    ]

    -- The loop of winningClaim.
    unfoldable pub scan_claims : ℕ → List HistoryItem → Option Claim → Lookup (Option Claim)
    scan_claims tip [] claim = found claim
    scan_claims tip (h ∷ hs) claim = elim (confirmed h.height tip min_conf) [
      | false ↦ scan_claims tip hs claim
      | true ↦ and_then (fetch_tx h.tx_hash) (λ tx. scan_claims tip hs (note_claim h claim tx))
    ]

    -- One confirmed transaction of the scan of resolve: its key is noted as well.
    abbrev pub note_binding : HistoryItem → Scan → Option ParsedTx → Scan
    note_binding h s none = s
    note_binding h s (some tx) = elim (parse_fn_metadata chain.is_owner_key label tx.outputs) [
      | none ↦ s
      | some (tag, pub_key) ↦ record {
        bindings = pub_key ∷ s.bindings;
        claim = keep_claim tag tx h s.claim;
      }
    ]

    -- The loop of resolve.
    unfoldable pub scan_bindings : ℕ → List HistoryItem → Scan → Lookup Scan
    scan_bindings tip [] s = found s
    scan_bindings tip (h ∷ hs) s = elim (confirmed h.height tip min_conf) [
      | false ↦ scan_bindings tip hs s
      | true ↦ and_then (fetch_tx h.tx_hash) (λ tx. scan_bindings tip hs (note_binding h s tx))
    ]

    abbrev pub with_category : Claim → Lookup (Claim × List ℕ)
    with_category claim =
        let tx = claim.tx in
        elim (genesis_category tx.inputs) [
          | none ↦ failed not_found
          | some category ↦ found (claim, category)
        ]

    -- The earliest confirmed claim and its category.
    unfoldable pub winning_claim : Lookup (Claim × List ℕ)
    winning_claim = and_then (or_fail server_failed chain.block_height) (λ tip.
        and_then (or_fail server_failed (chain.get_history (marker_script c label))) (λ history.
          let (scan, truncated) = oldest_history history in
          and_then (scan_claims tip scan none)
            (λ claim. and_then (or_not_found truncated claim) with_category)))

  -- The first transaction of a history that spends an output, with its id.
  unfoldable pub scan_spender : Holder → List HistoryItem → Lookup (Option (ParsedTx × List ℕ))
  scan_spender o [] = found none
  scan_spender o (h ∷ hs) =
      and_then (or_fail server_failed (chain.get_raw_transaction h.tx_hash)) (λ raw.
        and_then (parsed_or_skipped (parse_tx raw)) (λ (tx : Option ParsedTx). elim tx [
          | none ↦ scan_spender o hs
          | some t ↦ elim (spends o t.inputs) [
            | true ↦ found (some (t, tx_id c raw))
            | false ↦ scan_spender o hs
          ]
        ]))

  abbrev pub or_truncated : Bool → Option (ParsedTx × List ℕ) → Lookup (Option (ParsedTx × List ℕ))
  or_truncated truncated (some s) = found (some s)
  or_truncated truncated none = if truncated then failed history_truncated else found none

  -- findSpender, over the history of the output's script.
  unfoldable pub find_spender : Holder → Lookup (Option (ParsedTx × List ℕ))
  find_spender o = and_then (or_fail server_failed (chain.get_history o.script)) (λ history.
      let (scan, truncated) = newest_history history in
      and_then (scan_spender o scan) (or_truncated truncated))

  -- The custody walk from the output `o`, of at most `hops` hops.
  unfoldable pub walk : List ℕ → ℕ → Holder → Lookup (List ℕ)
  walk category zero o = found o.commitment
  walk category (suc hops) o = and_then (find_spender o) (λ (spender : Option (ParsedTx × List ℕ)).
      elim spender [
        | none ↦ found o.commitment
        | some (tx, id) ↦ elim (find_token category id 0 tx.outputs) [
          | none ↦ found o.commitment
          | some o' ↦ walk category hops o'
        ]
      ])

  unfoldable pub current_commitment : List ℕ → List ℕ → Lookup (List ℕ)
  current_commitment claim_id category =
      and_then (or_fail server_failed (chain.get_raw_transaction claim_id)) (λ raw.
        and_then (parsed_or_failed (parse_tx raw)) (λ tx.
          and_then (or_fail not_found (find_token category claim_id 0 tx.outputs))
            (walk category max_custody_hops)))

  -- The last key noted with this hash.
  unfoldable pub binding_of : List ℕ → List (List ℕ) → Option (List ℕ)
  binding_of commitment [] = none
  binding_of commitment (k ∷ ks) =
      if bytes_equal (hash160 c k) commitment then some k else binding_of commitment ks

  -- The part of resolve after the scan.
  abbrev pub owner_of : List ℕ → Bool → Scan → Lookup (List ℕ)
  owner_of label truncated s = and_then (or_not_found truncated s.claim) (λ claim.
      and_then (with_category label claim) (λ (winner, category).
        and_then (current_commitment winner.claim_id category)
          (λ commitment. or_not_found truncated (binding_of commitment s.bindings))))

  unfoldable pub resolve : List ℕ → Lookup (List ℕ)
  resolve label = and_then (or_fail server_failed chain.block_height) (λ tip.
      and_then (or_fail server_failed (chain.get_history (marker_script c label))) (λ history.
        if length history == 0
        then failed not_found
        else (let (scan, truncated) = oldest_history history in
            and_then (scan_bindings label tip scan no_scan) (owner_of label truncated))))
