-- ===== src/Bch/Wallet/Shortfall.antt =====
-- BuildRebindTx, where the coins that it selects cover the fee of three inputs, and not that of those
-- that it spends.
use freedom_names.Common.{ℕ, suc, ◌+◌, ◌<◌, ◌≡◌, List, some, arith, length, ap}
use freedom_names.Bch.Crypto.{Crypto}
use freedom_names.Bch.Tx.{Transaction}
use freedom_names.Bch.Wallet.{
  Wallet, WalletUtxo, done, estimate_fee, select_funding, find_nft, dust_limit, token_dust_limit,
}
use freedom_names.Bch.Wallet.Build.{
  new_tx, new_inputs, change_outputs, fn_rebind_tag, name_outputs, rebind_tx,
}
use freedom_names.Bch.Wallet.Funding.{value_of, select_funding-Covers}
use freedom_names.Bch.Wallet.Spending.{
  spent, paid, rebind_of, new_inputs_lem, paid-append, paid-name_outputs, paid-change_outputs_small,
}

module _ (c : Crypto) (w : Wallet) where
  -- The fee that is left is less than the estimate for the inputs.
  abbrev pub IsShort : Transaction × List (List ℕ) → Type 0
  IsShort (tx, privs) = spent tx.inputs < paid tx.outputs + estimate_fee (length tx.inputs) 4

  rebind_of-IsShort :
      (label category owner_pub : List ℕ) (nft : WalletUtxo) (funding : List WalletUtxo) (total : ℕ)
      → total ≡ value_of funding
      → nft.value + total < token_dust_limit + dust_limit + estimate_fee (suc (length funding)) 4
      → IsShort (rebind_of c w label category owner_pub nft funding total)
  unfolding new_tx new_inputs
  rebind_of-IsShort label category owner_pub nft funding total sum short =
      let fixed = token_dust_limit + dust_limit + estimate_fee (suc (length funding)) 4 in
      let outs = name_outputs c w fn_rebind_tag label category owner_pub in
      let change = change_outputs c w (nft.value + total) fixed in
      let (spends, inputs_same, privs_same) = new_inputs_lem c w funding in
      let fees = ap (λ (n : ℕ). estimate_fee (suc n) 4) inputs_same in
      omega (
        arith,
        spends,
        sum,
        short,
        paid-change_outputs_small c w (nft.value + total) fixed,
        fees,
        paid-append outs change,
        paid-name_outputs c w fn_rebind_tag label category owner_pub,
      )

  -- Where the token's coin and the coins that are selected for it do not cover the outputs of the
  -- name and the fee that is estimated for that many inputs, a rebind is made all the same, and
  -- pays less than that fee.
  pub rebind_tx-IsShort :
      (utxos : List WalletUtxo) (label category owner_pub : List ℕ) (nft : WalletUtxo)
      (funding : List WalletUtxo) (total : ℕ)
      → find_nft utxos category ≡ some nft
      → select_funding utxos (dust_limit + estimate_fee 3 4) ≡ done (funding, total)
      → nft.value + total < token_dust_limit + dust_limit + estimate_fee (suc (length funding)) 4
      → (made : Transaction × List (List ℕ)) × (rebind_tx c w utxos label category owner_pub
          ≡ done made)
        × IsShort made
  unfolding rebind_tx
  rebind_tx-IsShort utxos label category owner_pub nft funding total found chosen short =
      let (plain, sum, enough) =
        select_funding-Covers utxos (dust_limit + estimate_fee 3 4) (funding, total) chosen in
      (
        rebind_of c w label category owner_pub nft funding total,
        ground (arith, found, chosen),
        rebind_of-IsShort label category owner_pub nft funding total sum short,
      )
