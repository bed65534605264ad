-- ===== src/Bch/Wallet/Spending.antt =====
-- What the claim and rebind transactions spend, pay and leave as a fee.
use freedom_names.Common.{
  ℕ, suc, ◌+◌, ◌-◌, ◌*◌, ◌<◌, ◌≤◌, ◌≡◌, refl, sym, ap, ◌∙◌, subst, inl, inr, ◌⊎◌, List, [], ◌∷◌,
  ◌++◌, none, some, leb, length, arith, All, Bool-cases, Option-cases,
}
use freedom_names.Bch.Crypto.{Crypto}
use freedom_names.Bch.Token.{TokenInfo}
use freedom_names.Bch.Tx.{Transaction, TxInput, TxOutput}
use freedom_names.Bch.Wallet.{
  Wallet, WalletUtxo, WalletResult, WalletError, done, refused, estimate_fee, select_funding,
  select_funding_genesis, find_nft, dust_limit, token_dust_limit,
}
use freedom_names.Bch.Wallet.Build.{
  fn_claim_tag, fn_rebind_tag, or_empty, new_inputs, new_tx, new_privs, name_outputs,
  change_outputs, claim_tx, rebind_tx,
}
use freedom_names.Bch.Wallet.Funding.{value_of, AllPlain, select_funding-Covers}
use freedom_names.Bch.Wallet.Genesis.{select_funding_genesis-Funds}
use freedom_names.Common.Bytes.{bytes_equal, bytes_equal→≡}

abbrev pub spent : List TxInput → ℕ
spent [] = 0
spent (i ∷ is) = i.prev_value + spent is

abbrev pub paid : List TxOutput → ℕ
paid [] = 0
paid (o ∷ os) = o.value + paid os

pub paid-append : (os ps : List TxOutput) → paid (os ++ ps) ≡ paid os + paid ps
paid-append [] ps = omega arith
paid-append (o ∷ os) ps = omega (arith, paid-append os ps)

-- No input spends a token.
abbrev pub SpendsNoToken : List TxInput → Type 0
SpendsNoToken is = All (λ i. i.prev_token ≡ none) is

WalletResult-cases {ℓ} :
    {A : Type ℓ} (r : WalletResult A)
    → ((a : A) × (r ≡ done a)) ⊎ ((x : WalletError) × (r ≡ refused x))
WalletResult-cases (done a) = inl (a, refl)
WalletResult-cases (refused x) = inr (x, refl)

module _ (c : Crypto) (w : Wallet) where
  pub new_inputs_lem :
      (us : List WalletUtxo)
      → (spent (new_inputs c w us) ≡ value_of us)
        × (length (new_inputs c w us) ≡ length us)
        × (length (new_privs c w us) ≡ length us)
  unfolding new_inputs new_privs
  new_inputs_lem [] = (refl, refl, refl)
  new_inputs_lem (u ∷ us) =
      let (a, b, d) = new_inputs_lem us in (omega (arith, a), omega (arith, b), omega (arith, d))

  new_inputs-SpendsNoToken :
      (us : List WalletUtxo) → AllPlain us → SpendsNoToken (new_inputs c w us)
  unfolding new_inputs
  new_inputs-SpendsNoToken [] h = tt
  new_inputs-SpendsNoToken (u ∷ us) (e, h) = (ground (arith, e), new_inputs-SpendsNoToken us h)

  paid-change_outputs :
      (total fixed : ℕ)
      → fixed ≤ total
      → (paid (change_outputs c w total fixed) + fixed ≤ total)
        × (total < paid (change_outputs c w total fixed) + fixed + dust_limit)
  unfolding change_outputs
  paid-change_outputs total fixed le = ground arith

  pub paid-change_outputs_small :
      (total fixed : ℕ) → total < fixed + dust_limit → paid (change_outputs c w total fixed) ≡ 0
  unfolding change_outputs
  paid-change_outputs_small total fixed lt = ground arith

  pub paid-name_outputs :
      (tag label category owner_pub : List ℕ)
      → paid (name_outputs c w tag label category owner_pub) ≡ 1546
  unfolding name_outputs
  paid-name_outputs tag label category owner_pub = omega arith

  -- The coins, the outputs and the fee of a claim.
  abbrev pub IsFundedClaim : List ℕ → List ℕ → Transaction × List (List ℕ) → Type 0
  IsFundedClaim label owner_pub (tx, privs) =
      (first : TxInput) × (more : List TxInput) × (change : List TxOutput) × (tx.inputs
        ≡ first ∷ more)
      × (first.prev_index ≡ 0)
      × SpendsNoToken tx.inputs
      × (length privs ≡ length tx.inputs)
      × (tx.outputs ≡ name_outputs c w fn_claim_tag label first.prev_tx_id owner_pub ++ change)
      × (paid tx.outputs + estimate_fee (length tx.inputs) 4 ≤ spent tx.inputs)
      × (spent tx.inputs < paid tx.outputs + estimate_fee (length tx.inputs) 4 + dust_limit)

  abbrev claim_of : List ℕ → List ℕ → List WalletUtxo → ℕ → Transaction × List (List ℕ)
  claim_of label owner_pub selected total = (
    new_tx c w selected (
        name_outputs c w fn_claim_tag label (or_empty selected) owner_pub
        ++ change_outputs c w total
            (token_dust_limit + dust_limit + estimate_fee (length selected) 4)),
    new_privs c w selected,
  )

  claim_of-IsFundedClaim :
      (label owner_pub : List ℕ) (g : WalletUtxo) (more : List WalletUtxo) (total : ℕ)
      → g.index ≡ 0
      → AllPlain (g ∷ more)
      → total ≡ value_of (g ∷ more)
      → token_dust_limit + dust_limit + estimate_fee (length (g ∷ more)) 4 ≤ total
      → IsFundedClaim label owner_pub (claim_of label owner_pub (g ∷ more) total)
  unfolding new_tx new_inputs
  claim_of-IsFundedClaim label owner_pub g more total index plain sum enough =
      let fixed = token_dust_limit + dust_limit + estimate_fee (length (g ∷ more)) 4 in
      let outs = name_outputs c w fn_claim_tag label g.tx_id owner_pub in
      let (spends, inputs_same, privs_same) = new_inputs_lem more in
      let (low, high) = paid-change_outputs total fixed enough in
      let fees : estimate_fee (suc (length (new_inputs c w more))) 4
          ≡ estimate_fee (suc (length more)) 4 =
        ap (λ (n : ℕ). estimate_fee (suc n) 4) inputs_same in
      (
        _,
        new_inputs c w more,
        change_outputs c w total fixed,
        refl,
        index,
        new_inputs-SpendsNoToken (g ∷ more) plain,
        (new_inputs_lem (g ∷ more)).2 ∙ sym (new_inputs_lem (g ∷ more)).1,
        refl,
        omega (
          arith,
          low,
          sum,
          fees,
          spends,
          paid-append outs (change_outputs c w total fixed),
          paid-name_outputs fn_claim_tag label g.tx_id owner_pub,
        ),
        omega (
          arith,
          high,
          sum,
          fees,
          spends,
          paid-append outs (change_outputs c w total fixed),
          paid-name_outputs fn_claim_tag label g.tx_id owner_pub,
        ),
      )

  -- A claim spends plain coins only, the first of them at output index 0; its outputs are those of
  -- the name, with that coin's transaction as the category, and perhaps change; it has a key for
  -- each input; and what is left as the fee is at least the estimate for its inputs and less than a
  -- dust output above it.
  pub claim_tx_lem :
      (utxos : List WalletUtxo) (label owner_pub : List ℕ) (tx : Transaction)
      (privs : List (List ℕ))
      → claim_tx c w utxos label owner_pub ≡ done (tx, privs)
      → IsFundedClaim label owner_pub (tx, privs)
  unfolding claim_tx
  claim_tx_lem utxos label owner_pub tx privs e =
      elim (WalletResult-cases (select_funding_genesis utxos (token_dust_limit + dust_limit) 4)) [
        | inr (x, no_funds) ↦ ground (arith, e, no_funds)
        | inl ((selected, total), chosen) ↦
            let (g, plain, index, ((more, same), plains, sum, enough)) =
              select_funding_genesis-Funds utxos (token_dust_limit + dust_limit) 4 (selected, total)
                chosen in
            let made : claim_of label owner_pub selected total ≡ (tx, privs) =
              ground (arith, e, chosen) in
            subst (IsFundedClaim label owner_pub) made (
              rw same (
                claim_of-IsFundedClaim label owner_pub g more total index (rw same at plains)
                  (rw same at sum) (rw same at enough)))
      ]

  find_nft_lem :
      (us : List WalletUtxo) (category : List ℕ) (nft : WalletUtxo)
      → find_nft us category ≡ some nft
      → (t : TokenInfo) × (nft.token ≡ some t) × (t.category_id ≡ category)
  unfolding find_nft
  find_nft_lem [] category nft e = cc
  find_nft_lem (u ∷ us) category nft e = elim (Option-cases u.token) [
    | inl bare ↦ find_nft_lem us category nft (ground (arith, e, bare))
    | inr (t, has_token) ↦ elim (Bool-cases (bytes_equal t.category_id category)) [
      | inl hit ↦
          let same : u ≡ nft = ground (arith, e, has_token, hit) in
          (
            t,
            ap (λ (x : WalletUtxo). x.token) (sym same) ∙ has_token,
            bytes_equal→≡ t.category_id category hit,
          )
      | inr miss ↦ find_nft_lem us category nft (ground (arith, e, has_token, miss))
    ]
  ]

  -- The coins, the outputs and the fee of a rebind. The fee that is left falls short of the estimate
  -- by no more than the inputs beyond three.
  abbrev pub IsFundedRebind : List ℕ → List ℕ → List ℕ → Transaction × List (List ℕ) → Type 0
  IsFundedRebind label category owner_pub (tx, privs) =
      (nft : TxInput) × (more : List TxInput) × (change : List TxOutput) × (t : TokenInfo)
      × (tx.inputs ≡ nft ∷ more)
      × (nft.prev_token ≡ some t)
      × (t.category_id ≡ category)
      × SpendsNoToken more
      × (length privs ≡ length tx.inputs)
      × (tx.outputs ≡ name_outputs c w fn_rebind_tag label category owner_pub ++ change)
      × (paid tx.outputs < spent tx.inputs)
      × (spent tx.inputs < paid tx.outputs + estimate_fee (length tx.inputs) 4 + dust_limit)
      × (token_dust_limit ≤ nft.prev_value
          → paid tx.outputs + estimate_fee (length tx.inputs) 4
            ≤ spent tx.inputs + 296 * (length tx.inputs - 3))

  paid-change_outputs_any :
      (total fixed : ℕ)
      → ((paid (change_outputs c w total fixed) ≡ 0) × (total < fixed + dust_limit))
        ⊎ ((paid (change_outputs c w total fixed) + fixed ≡ total)
            × (0 < paid (change_outputs c w total fixed)))
  unfolding change_outputs
  paid-change_outputs_any total fixed = elim (Bool-cases (leb (fixed + dust_limit) total)) [
    | inl b ↦ inr (ground (arith, b), ground (arith, b))
    | inr b ↦ inl (ground (arith, b), ground (arith, b))
  ]

  abbrev pub rebind_of :
      List ℕ → List ℕ → List ℕ → WalletUtxo → List WalletUtxo → ℕ → Transaction × List (List ℕ)
  rebind_of label category owner_pub nft funding total = (
    new_tx c w (nft ∷ funding) (
        name_outputs c w fn_rebind_tag label category owner_pub
        ++ change_outputs c w (nft.value + total)
            (token_dust_limit + dust_limit + estimate_fee (length (nft ∷ funding)) 4)),
    new_privs c w (nft ∷ funding),
  )

  rebind_of-IsFundedRebind :
      (label category owner_pub : List ℕ) (nft : WalletUtxo) (t : TokenInfo)
      (funding : List WalletUtxo) (total : ℕ)
      → nft.token ≡ some t
      → t.category_id ≡ category
      → AllPlain funding
      → total ≡ value_of funding
      → dust_limit + estimate_fee 3 4 ≤ total
      → IsFundedRebind label category owner_pub
          (rebind_of label category owner_pub nft funding total)
  unfolding new_tx new_inputs estimate_fee
  rebind_of-IsFundedRebind label category owner_pub nft t funding total has_token hit plain sum
        enough =
      let fixed = token_dust_limit + dust_limit + estimate_fee (length (nft ∷ funding)) 4 in
      let outs = name_outputs c w fn_rebind_tag label category owner_pub in
      let change = change_outputs c w (nft.value + total) fixed in
      let (spends, inputs_same, privs_same) = new_inputs_lem funding in
      let pays = paid-append outs change in
      let names = paid-name_outputs fn_rebind_tag label category owner_pub in
      let any = paid-change_outputs_any (nft.value + total) fixed in
      (
        _,
        new_inputs c w funding,
        change,
        t,
        refl,
        has_token,
        hit,
        new_inputs-SpendsNoToken funding plain,
        (new_inputs_lem (nft ∷ funding)).2 ∙ sym (new_inputs_lem (nft ∷ funding)).1,
        refl,
        omega (arith, any, sum, enough, spends, pays, names),
        omega (arith, any, sum, spends, inputs_same, pays, names),
        λ rich. omega (arith, any, sum, enough, spends, inputs_same, pays, names, rich),
      )

  -- A rebind spends first a coin with a token of the category and then plain coins only; its
  -- outputs are those of the name under that category and perhaps change; it has a key for each
  -- input; it pays less than it spends, by less than the estimated fee and a dust output; and where
  -- the token's coin holds the token dust, the fee is short of the estimate by at most 296 satoshis
  -- for each input beyond three.
  pub rebind_tx_lem :
      (utxos : List WalletUtxo) (label category owner_pub : List ℕ) (tx : Transaction)
      (privs : List (List ℕ))
      → rebind_tx c w utxos label category owner_pub ≡ done (tx, privs)
      → IsFundedRebind label category owner_pub (tx, privs)
  unfolding rebind_tx
  rebind_tx_lem utxos label category owner_pub tx privs e =
      elim (Option-cases (find_nft utxos category)) [
        | inl missing ↦ ground (arith, e, missing)
        | inr (nft, found) ↦
            let (t, has_token, hit) = find_nft_lem utxos category nft found in
            elim (WalletResult-cases (select_funding utxos (dust_limit + estimate_fee 3 4))) [
              | inr (x, no_funds) ↦ ground (arith, e, found, no_funds)
              | inl ((funding, total), chosen) ↦
                  let (plain, sum, enough) =
                    select_funding-Covers utxos (dust_limit + estimate_fee 3 4) (funding, total)
                      chosen in
                  let made : rebind_of label category owner_pub nft funding total ≡ (tx, privs) =
                    ground (arith, e, found, chosen) in
                  subst (IsFundedRebind label category owner_pub) made (
                    rebind_of-IsFundedRebind label category owner_pub nft t funding total has_token
                      hit plain sum enough)
            ]
      ]
