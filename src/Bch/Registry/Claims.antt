-- ===== src/Bch/Registry/Claims.antt =====
-- The order of claims, and what the scans of a marker history find.
use freedom_names.Common.{
  ◌≤◌, ℕ, ◌≡◌, refl, ap, ◌∙◌, subst, inl, inr, ◌⊎◌, Bool, true, false, ◌&&◌, List, [], ◌∷◌, Option,
  none, some, arith, All, Bool-cases, Option-cases,
}
use freedom_names.Bch.Crypto.{Crypto}
use freedom_names.Bch.Parse.{ParsedTx}
use freedom_names.Bch.Wallet.Build.{fn_claim_tag, marker_script}
use freedom_names.Bch.Registry.{
  Chain, HistoryItem, Lookup, found, failed, crashed, and_then, or_fail, server_failed, LookupError,
  Claim, confirmed, oldest_history, is_earlier, keep_claim, parse_fn_metadata, genesis_category,
}
use freedom_names.Bch.Registry.Resolve.{
  fetch_tx, note_claim, scan_claims, winning_claim, with_category, or_not_found,
}
use freedom_names.Common.Bytes.{bytes_equal, bytes_less, bytes_less_trans, bytes_less_irrefl}

-- Some element of a list has a property.
abbrev pub Exists : {A : Type 0} → (A → Type 0) → List A → Type 0
Exists P [] = ⊥
Exists P (x ∷ xs) = P x ⊎ Exists P xs

-- The value that a chained lookup found.
pub and_then_found {ℓ κ} :
    {A : Type ℓ} {B : Type κ} (m : Lookup A) (f : A → Lookup B) (b : B)
    → and_then m f ≡ found b
    → (a : A) × (m ≡ found a) × (f a ≡ found b)
and_then_found (found a) f b e = (a, refl, e)
and_then_found (failed x) f b e = cc
and_then_found crashed f b e = cc

is_earlier_trans :
    (height : ℕ) (id : List ℕ) (c d : Claim)
    → is_earlier height id (some c) ≡ true
    → is_earlier c.claim_height c.claim_id (some d) ≡ true
    → is_earlier height id (some d) ≡ true
unfolding is_earlier
is_earlier_trans height id c d e f = ground (arith, bytes_less_trans id c.claim_id d.claim_id)

module _ (c : Crypto) (chain : Chain) (min_conf : ℕ) (label : List ℕ) (tip : ℕ) where
  -- A confirmed transaction of the history that reveals a key for the label.
  abbrev pub Reveals : HistoryItem → List ℕ → List ℕ → ParsedTx → Type 0
  Reveals h tag key tx =
      (confirmed h.height tip min_conf ≡ true)
      × (fetch_tx c chain min_conf h.tx_hash ≡ found (some tx))
      × (parse_fn_metadata chain.is_owner_key label tx.outputs ≡ some (tag, key))

  abbrev pub IsClaim : HistoryItem → ParsedTx → Type 0
  IsClaim h tx =
      (key : List ℕ) × (tag : List ℕ) × Reveals h tag key tx × (bytes_equal tag fn_claim_tag ≡ true)

  -- A claim that is not earlier than the one found.
  abbrev pub NotBefore : Option Claim → HistoryItem → Type 0
  NotBefore best h = (tx : ParsedTx) → IsClaim h tx → is_earlier h.height h.tx_hash best ≡ false

  -- A claim is at least as early as another, or there is no other.
  abbrev Improves : Option Claim → Option Claim → Type 0
  Improves old new =
      (height : ℕ) (id : List ℕ) → is_earlier height id new ≡ true → is_earlier height id old ≡ true

  keep_claim-Improves :
      (tag : List ℕ) (tx : ParsedTx) (h : HistoryItem) (claim : Option Claim)
      → Improves claim (keep_claim tag tx h claim)
  unfolding keep_claim
  keep_claim-Improves tag tx h none height id e = unfold is_earlier in refl
  keep_claim-Improves tag tx h (some d) height id e =
      elim (Bool-cases (bytes_equal tag fn_claim_tag && is_earlier h.height h.tx_hash (some d))) [
        | inr kept ↦ ground (arith, e, kept)
        | inl taken ↦
            let k : Claim = record { tx = tx; claim_id = h.tx_hash; claim_height = h.height } in
            is_earlier_trans height id k d (ground (arith, e, taken)) (ground (arith, taken))
      ]

  note_claim-Improves :
      (h : HistoryItem) (claim : Option Claim) (t : Option ParsedTx)
      → Improves claim (note_claim c chain min_conf label h claim t)
  note_claim-Improves h claim none height id e = e
  note_claim-Improves h claim (some tx) height id e =
      elim (Option-cases (parse_fn_metadata chain.is_owner_key label tx.outputs)) [
        | inl nothing ↦ ground (arith, e, nothing)
        | inr ((tag, key), there) ↦
            keep_claim-Improves tag tx h claim height id (ground (arith, e, there))
      ]

  keep_claim_first :
      (tag : List ℕ) (tx : ParsedTx) (h : HistoryItem) (claim : Option Claim)
      → bytes_equal tag fn_claim_tag ≡ true
      → is_earlier h.height h.tx_hash (keep_claim tag tx h claim) ≡ false
  unfolding keep_claim is_earlier
  keep_claim_first tag tx h claim e = ground (arith, e, bytes_less_irrefl h.tx_hash)

  abbrev pub as_claim : HistoryItem → ParsedTx → Claim
  as_claim h tx = record { tx = tx; claim_id = h.tx_hash; claim_height = h.height }

  -- The claim is that of this transaction.
  abbrev pub IsBest : Option Claim → HistoryItem → Type 0
  IsBest best h = (tx : ParsedTx) × IsClaim h tx × (best ≡ some (as_claim h tx))

  note_claim-NotBefore :
      (h : HistoryItem) (claim : Option Claim) (t : Option ParsedTx)
      → fetch_tx c chain min_conf h.tx_hash ≡ found t
      → NotBefore (note_claim c chain min_conf label h claim t) h
  note_claim-NotBefore h claim none e tx (key, tag, (conf, fetched, meta), tagged) =
      ground (arith, e, fetched)
  note_claim-NotBefore h claim (some t) e tx (key, tag, (conf, fetched, meta), tagged) =
      let same : t ≡ tx = ground (arith, e, fetched) in
      let meta' : parse_fn_metadata chain.is_owner_key label t.outputs ≡ some (tag, key) =
        ap (λ (x : ParsedTx). parse_fn_metadata chain.is_owner_key label x.outputs) same ∙ meta in
      rw (meta', note_claim) (keep_claim_first tag t h claim tagged)

  note_claim-cases :
      (h : HistoryItem) (claim : Option Claim) (t : Option ParsedTx)
      → confirmed h.height tip min_conf ≡ true
      → fetch_tx c chain min_conf h.tx_hash ≡ found t
      → (note_claim c chain min_conf label h claim t ≡ claim)
        ⊎ IsBest (note_claim c chain min_conf label h claim t) h
  note_claim-cases h claim none conf e = inl refl
  note_claim-cases h claim (some tx) conf e =
      elim (Option-cases (parse_fn_metadata chain.is_owner_key label tx.outputs)) [
        | inl nothing ↦ inl (ground (arith, nothing))
        | inr ((tag, key), there) ↦
            elim (Bool-cases
              (bytes_equal tag fn_claim_tag && is_earlier h.height h.tx_hash claim)) [
                | inr kept ↦
                    inl (rw (there, note_claim) (unfold keep_claim in ground (arith, kept)))
                | inl taken ↦ inr (
                  tx,
                  (key, tag, (conf, e, there), ground (arith, taken)),
                  rw (there, note_claim) (unfold keep_claim in ground (arith, taken)),
                )
              ]
      ]

  -- What a scan that starts with `claim` finds.
  abbrev pub Finds : Option Claim → List HistoryItem → Option Claim → Type 0
  Finds claim hs best =
      Improves claim best × All (NotBefore best) hs × ((best ≡ claim) ⊎ Exists (IsBest best) hs)

  NotBefore-improved :
      (old best : Option Claim) (h : HistoryItem)
      → Improves old best
      → NotBefore old h
      → NotBefore best h
  NotBefore-improved old best h i n tx t = ground (arith, i h.height h.tx_hash, n tx t)

  scan_claims-Finds :
      (hs : List HistoryItem) (claim best : Option Claim)
      → scan_claims c chain min_conf label tip hs claim ≡ found best
      → Finds claim hs best
  unfolding scan_claims
  scan_claims-Finds [] claim best e =
      let same : claim ≡ best = ground (arith, e) in
      subst (Finds claim []) same ((λ height id x. x), tt, inl refl)
  scan_claims-Finds (h ∷ hs) claim best e = elim (Bool-cases (confirmed h.height tip min_conf)) [
    | inr skip ↦
        let (i, n, o) = scan_claims-Finds hs claim best (ground (arith, e, skip)) in
        (
          i,
          ((λ tx (key, tag, (conf, fetched, meta), tagged). ground (arith, conf, skip)), n),
          elim o [ inl same ↦ inl same | inr later ↦ inr (inr later) ],
        )
    | inl conf ↦
        let (t, fetched, rest) =
          and_then_found (fetch_tx c chain min_conf h.tx_hash)
            (λ t.
              scan_claims c chain min_conf label tip hs
                (note_claim c chain min_conf label h claim t))
            best (ground (arith, e, conf)) in
        let mid = note_claim c chain min_conf label h claim t in
        let (i, n, o) = scan_claims-Finds hs mid best rest in
        (
          (λ height id x. note_claim-Improves h claim t height id (i height id x)),
          (NotBefore-improved mid best h i (note_claim-NotBefore h claim t fetched), n),
          elim o [
            | inr later ↦ inr (inr later)
            | inl same ↦ elim (note_claim-cases h claim t conf fetched) [
              | inl kept ↦ inl (same ∙ kept)
              | inr taken ↦ inr (inl (rw same taken))
            ]
          ],
        )
  ]

pub or_fail_found {ℓ} :
    {A : Type ℓ} (x : LookupError) (o : Option A) (a : A) → or_fail x o ≡ found a → o ≡ some a
or_fail_found x none a e = cc
or_fail_found x (some b) a e = ground (arith, e)

pub or_not_found_found {ℓ} :
    {A : Type ℓ} (t : Bool) (o : Option A) (a : A) → or_not_found t o ≡ found a → o ≡ some a
or_not_found_found t none a e = cc
or_not_found_found t (some b) a e = ground (arith, e)

pub with_category_found :
    (c : Crypto) (chain : Chain) (n : ℕ) (label : List ℕ) (claim winner : Claim) (category : List ℕ)
    → with_category c chain n label claim ≡ found (winner, category)
    → (claim ≡ winner) × (genesis_category winner.tx.inputs ≡ some category)
with_category_found c chain n label claim winner category e =
    elim (Option-cases (genesis_category claim.tx.inputs)) [
      | inl nothing ↦ ground (arith, e, nothing)
      | inr (k, there) ↦
          let same : claim ≡ winner = ground (arith, e, there) in
          (
            same,
            subst (λ (x : Claim). genesis_category x.tx.inputs ≡ some category) same
                (ground (arith, e, there)),
          )
    ]

-- A claim of the history that does not come before the winner: it is not lower, and at the winner's
-- height its id is not smaller.
abbrev pub NoEarlier : Crypto → Chain → ℕ → List ℕ → ℕ → Claim → HistoryItem → Type 0
NoEarlier c chain min_conf label tip winner h =
    (tx : ParsedTx)
    → IsClaim c chain min_conf label tip h tx
    → (winner.claim_height ≤ h.height)
      × (winner.claim_height ≡ h.height → bytes_less h.tx_hash winner.claim_id ≡ false)

NotBefore-NoEarlier :
    (c : Crypto) (chain : Chain) (n : ℕ) (label : List ℕ) (tip : ℕ) (winner : Claim)
    (hs : List HistoryItem)
    → All (NotBefore c chain n label tip (some winner)) hs
    → All (NoEarlier c chain n label tip winner) hs
unfolding is_earlier
NotBefore-NoEarlier c chain n label tip winner [] a = tt
NotBefore-NoEarlier c chain n label tip winner (h ∷ hs) (b, a) =
    ((λ tx t. ground (arith, b tx t)), NotBefore-NoEarlier c chain n label tip winner hs a)

-- The winning claim is a confirmed claim of the scanned history of the name's marker, its category
-- is the transaction of its first input that spends output index 0, and no confirmed claim of the
-- scanned history is earlier, by height and then by transaction id.
pub winning_claim-first :
    (c : Crypto) (chain : Chain) (min_conf : ℕ) (label : List ℕ) (winner : Claim)
    (category : List ℕ)
    → winning_claim c chain min_conf label ≡ found (winner, category)
    → (tip : ℕ) × (history : List HistoryItem) × (chain.block_height ≡ some tip)
      × (chain.get_history (marker_script c label) ≡ some history)
      × (genesis_category winner.tx.inputs ≡ some category)
      × Exists (IsBest c chain min_conf label tip (some winner)) (oldest_history history).0
      × All (NoEarlier c chain min_conf label tip winner) (oldest_history history).0
unfolding winning_claim
winning_claim-first c chain min_conf label winner category e =
    let (tip, at, e1) = and_then_found (or_fail server_failed chain.block_height) _ _ e in
    let (history, listed, e2) =
      and_then_found (or_fail server_failed (chain.get_history (marker_script c label))) _ _ e1 in
    let scan = (oldest_history history).0 in
    let (best, scanned, e3) =
      and_then_found (scan_claims c chain min_conf label tip scan none) _ _ e2 in
    let (claim, there, e4) = and_then_found (or_not_found (oldest_history history).1 best) _ _ e3 in
    let (same, from_genesis) =
      with_category_found c chain min_conf label claim winner category e4 in
    let is_best : best ≡ some winner =
      or_not_found_found (oldest_history history).1 best claim there ∙ ap some same in
    let (i, n, o) = scan_claims-Finds c chain min_conf label tip scan none best scanned in
    (
      tip,
      history,
      or_fail_found server_failed chain.block_height tip at,
      or_fail_found server_failed (chain.get_history (marker_script c label)) history listed,
      from_genesis,
      elim o [
        | inl nothing ↦ ground (arith, nothing, is_best)
        | inr some_one ↦
            subst (λ (b : Option Claim). Exists (IsBest c chain min_conf label tip b) scan) is_best
              some_one
      ],
      NotBefore-NoEarlier c chain min_conf label tip winner scan (
          subst (λ (b : Option Claim). All (NotBefore c chain min_conf label tip b) scan) is_best
            n),
    )
