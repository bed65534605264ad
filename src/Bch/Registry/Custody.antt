-- ===== src/Bch/Registry/Custody.antt =====
-- The custody walk: what findSpender's answer says, and where the walk ends.
use freedom_names.Common.{
  ℕ, zero, suc, ◌≤◌, ◌≡◌, refl, sym, ap, ◌∙◌, inl, inr, ◌⊎◌, Bool, true, false, List, [], ◌∷◌, ◌++◌,
  Option, none, some, length, arith, All, Bool-cases, Option-cases,
}
use freedom_names.Bch.Crypto.{Crypto}
use freedom_names.Bch.Parse.{ParsedTx, parse_tx}
use freedom_names.Bch.Tx.{tx_id}
use freedom_names.Bch.Registry.{
  Chain, HistoryItem, Lookup, found, or_fail, server_failed, Holder, newest_first, newest_history,
  spends, find_token,
}
use freedom_names.Bch.Registry.Resolve.{
  fetch_tx, scan_spender, or_truncated, parsed_or_skipped, find_spender, walk,
}
use freedom_names.Bch.Registry.Claims.{and_then_found, or_fail_found}

All-append-left :
    {A : Type 0} (P : A → Type 0) (xs ys : List A) → All P (xs ++ ys) → All P xs × All P ys
All-append-left P [] ys h = (tt, h)
All-append-left P (x ∷ xs) ys (p, h) = let (a, b) = All-append-left P xs ys h in ((p, a), b)

All-newest_first :
    (P : HistoryItem → Type 0) (hs : List HistoryItem) → All P (newest_first hs) → All P hs
unfolding newest_first
All-newest_first P [] h = tt
All-newest_first P (x ∷ hs) h =
    let (a, b) = All-append-left P (newest_first hs) (x ∷ []) h in (b.0, All-newest_first P hs a)

module _ (c : Crypto) (chain : Chain) (min_conf : ℕ) where
  -- The transaction of a history entry does not spend the output, if it parses.
  abbrev pub DoesNotSpend : Holder → HistoryItem → Type 0
  DoesNotSpend o h =
      (tx : ParsedTx)
      → fetch_tx c chain min_conf h.tx_hash ≡ found (some tx)
      → spends o tx.inputs ≡ false

  -- One entry of the scan.
  abbrev spender_step :
      Holder → List HistoryItem → List ℕ → Option ParsedTx → Lookup (Option (ParsedTx × List ℕ))
  spender_step o hs raw none = scan_spender c chain min_conf o hs
  spender_step o hs raw (some t) = elim (spends o t.inputs) [
    | true ↦ found (some (t, tx_id c raw))
    | false ↦ scan_spender c chain min_conf o hs
  ]

  spender_step-none :
      (o : Holder) (hs : List HistoryItem) (raw : List ℕ) (t : Option ParsedTx)
      → spender_step o hs raw t ≡ found none
      → (scan_spender c chain min_conf o hs ≡ found none)
        × ((tx : ParsedTx) → t ≡ some tx → spends o tx.inputs ≡ false)
  spender_step-none o hs raw none e = (e, λ tx f. cc)
  spender_step-none o hs raw (some t) e = elim (Bool-cases (spends o t.inputs)) [
    | inl hit ↦ ground (arith, e, hit)
    | inr miss ↦ (
      ground (arith, e, miss),
      λ tx f.
          let same : t ≡ tx = ground (arith, f) in
          ap (λ (x : ParsedTx). spends o x.inputs) (sym same) ∙ miss,
    )
  ]

  scan_spender-none :
      (o : Holder) (hs : List HistoryItem)
      → scan_spender c chain min_conf o hs ≡ found none
      → All (DoesNotSpend o) hs
  unfolding scan_spender fetch_tx
  scan_spender-none o [] e = tt
  scan_spender-none o (h ∷ hs) e =
      let (raw, got, e1) =
        and_then_found (or_fail server_failed (chain.get_raw_transaction h.tx_hash)) _ none e in
      let (t, parsed, e2) = and_then_found (parsed_or_skipped (parse_tx raw)) _ none e1 in
      let (rest, misses) = spender_step-none o hs raw t (ground (arith, e2)) in
      let there : chain.get_raw_transaction h.tx_hash ≡ some raw =
        or_fail_found server_failed (chain.get_raw_transaction h.tx_hash) raw got in
      (
        (λ tx fetched. misses tx (ground (arith, fetched, parsed, there))),
        scan_spender-none o hs rest,
      )

  or_truncated-none :
      (truncated : Bool) (s : Option (ParsedTx × List ℕ))
      → or_truncated c chain min_conf truncated s ≡ found none
      → (truncated ≡ false) × (s ≡ none)
  or_truncated-none truncated none e = (ground (arith, e), refl)
  or_truncated-none truncated (some x) e = cc

  -- If the search for a spender answers that there is none, then the history of the output's script
  -- has at most 512 entries and no transaction of it that is fetched and parses spends the output.
  pub find_spender-none :
      (o : Holder)
      → find_spender c chain min_conf o ≡ found none
      → (history : List HistoryItem) × (chain.get_history o.script ≡ some history)
        × (length history ≤ 512)
        × All (DoesNotSpend o) history
  unfolding find_spender newest_history
  find_spender-none o e =
      let (history, listed, e1) =
        and_then_found (or_fail server_failed (chain.get_history o.script)) _ none e in
      let (s, scanned, e2) =
        and_then_found (scan_spender c chain min_conf o (newest_history history).0) _ none e1 in
      let (whole, nothing) = or_truncated-none (newest_history history).1 s e2 in
      let all_of_it : scan_spender c chain min_conf o (newest_first history) ≡ found none =
        ground (arith, scanned, whole, nothing) in
      (
        history,
        or_fail_found server_failed (chain.get_history o.script) history listed,
        ground (arith, whole),
        All-newest_first (DoesNotSpend o) history
            (scan_spender-none o (newest_first history) all_of_it),
      )

  -- The token moves from one output to another in `n` transactions.
  pub data Follows (category : List ℕ) : ℕ → Holder → Holder → Type 0 where
    stays : {o : Holder} → Follows category 0 o o
    moves :
        {n : ℕ} {o o' o'' : Holder} {tx : ParsedTx} {id : List ℕ}
        → find_spender c chain min_conf o ≡ found (some (tx, id))
        → find_token category id 0 tx.outputs ≡ some o'
        → Follows category n o' o''
        → Follows category (suc n) o o''

  -- The token is at rest: its output is unspent, or the transaction that spends it burns it.
  abbrev pub AtRest : List ℕ → Holder → Type 0
  AtRest category o =
      (find_spender c chain min_conf o ≡ found none)
      ⊎ (tx : ParsedTx) × (id : List ℕ) × (find_spender c chain min_conf o ≡ found (some (tx, id)))
        × (find_token category id 0 tx.outputs ≡ none)

  -- Where a walk ends.
  abbrev pub Arrives : List ℕ → ℕ → Holder → List ℕ → Type 0
  Arrives category hops o m =
      (n : ℕ) × (o' : Holder) × Follows category n o o'
      × (n ≤ hops)
      × (o'.commitment ≡ m)
      × ((n ≡ hops) ⊎ AtRest category o')

  abbrev walk_on : List ℕ → ℕ → Holder → Option (ParsedTx × List ℕ) → Lookup (List ℕ)
  walk_on category hops o none = found o.commitment
  walk_on category hops o (some (tx, id)) = elim (find_token category id 0 tx.outputs) [
    | none ↦ found o.commitment
    | some o' ↦ walk c chain min_conf category hops o'
  ]

  -- A custody walk that finds a commitment followed the token through at most its number of hops,
  -- each a found spender with the token among its outputs, to an output with that commitment, which
  -- is unspent, or spent by a transaction that carries the token no further, or reached with the
  -- last hop.
  pub walk-Arrives :
      (category : List ℕ) (hops : ℕ) (o : Holder) (m : List ℕ)
      → walk c chain min_conf category hops o ≡ found m
      → Arrives category hops o m
  unfolding walk
  walk-Arrives category zero o m e = (0, o, stays, omega arith, ground (arith, e), inl refl)
  walk-Arrives category (suc hops) o m e =
      let (s, there, e1) = and_then_found (find_spender c chain min_conf o) _ m e in
      elim (Option-cases s) [
        | inl nothing ↦ (
          0,
          o,
          stays,
          omega arith,
          ground (arith, e1, nothing),
          inr (inl (there ∙ ap found nothing)),
        )
        | inr ((tx, id), spent) ↦ elim (Option-cases (find_token category id 0 tx.outputs)) [
          | inl burned ↦ (
            0,
            o,
            stays,
            omega arith,
            ground (arith, e1, spent, burned),
            inr (inr (tx, id, there ∙ ap found spent, burned)),
          )
          | inr (o', held) ↦
              let (n, o'', follows, within, same, ends) =
                walk-Arrives category hops o' m (ground (arith, e1, spent, held)) in
              (
                suc n,
                o'',
                moves (there ∙ ap found spent) held follows,
                omega (arith, within),
                same,
                elim ends [ inl last ↦ inl (ap suc last) | inr rest ↦ inr rest ],
              )
        ]
      ]

  -- A token that moved in exactly as many transactions as the walk has hops is answered by the
  -- commitment that it had there, whatever has spent that output.
  pub walk-Follows :
      (category : List ℕ) (hops : ℕ) (o o' : Holder)
      → Follows category hops o o'
      → walk c chain min_conf category hops o ≡ found o'.commitment
  unfolding walk
  walk-Follows category _ o o' stays = refl
  walk-Follows category _ o o' (moves there held follows) =
      ground (arith, there, held, walk-Follows category _ _ o' follows)
