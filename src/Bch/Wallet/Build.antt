-- ===== src/Bch/Wallet/Build.antt =====
-- internal/bch/bchwallet.go, BuildClaimTx and BuildRebindTx, and internal/bch/marker.go. Labels and
-- tags are their bytes; the coins are those that the electrum server lists.
use freedom_names.Common.{
  ℕ, ◌+◌, ◌-◌, List, [], ◌∷◌, ◌++◌, none, some, leb, if◌then◌else◌, length, map,
}
use freedom_names.Bch.Crypto.{Crypto, hash160}
use freedom_names.Bch.Encode.{p2pkh_script, op_return_script}
use freedom_names.Bch.Reader.{Outcome}
use freedom_names.Bch.Token.{token_capability_mutable}
use freedom_names.Bch.Tx.{Transaction, TxInput, TxOutput, serialize}
use freedom_names.Bch.Wallet.{
  Wallet, WalletUtxo, WalletResult, done, refused, and_then, no_name_nft, dust_limit,
  token_dust_limit, estimate_fee, select_funding, select_funding_genesis, find_nft,
}

-- "FN01", "FN02" and "FN:".
abbrev pub fn_claim_tag : List ℕ
fn_claim_tag = 0x46 ∷ 0x4e ∷ 0x30 ∷ 0x31 ∷ []

abbrev pub fn_rebind_tag : List ℕ
fn_rebind_tag = 0x46 ∷ 0x4e ∷ 0x30 ∷ 0x32 ∷ []

abbrev pub marker_tag : List ℕ
marker_tag = 0x46 ∷ 0x4e ∷ 0x3a ∷ []

abbrev pub or_empty : List WalletUtxo → List ℕ
or_empty [] = []
or_empty (u ∷ us) = u.tx_id

module _ (c : Crypto) where
  unfoldable pub marker_script : List ℕ → List ℕ
  marker_script label = p2pkh_script (hash160 c (marker_tag ++ label))

  module _ (w : Wallet) where
    unfoldable pub new_inputs : List WalletUtxo → List TxInput
    new_inputs [] = []
    new_inputs (u ∷ us) =
        record {
          prev_tx_id = u.tx_id;
          prev_index = u.index;
          prev_script = p2pkh_script w.pkh;
          prev_value = u.value;
          prev_token = u.token;
          sequence = 0xffffffff;
        }
        ∷ new_inputs us

    -- newTx, with its outputs.
    unfoldable pub new_tx : List WalletUtxo → List TxOutput → Transaction
    new_tx inputs outputs = record {
      version = 2;
      inputs = new_inputs inputs;
      outputs = outputs;
      lock_time = 0;
    }

    -- One key for each input.
    unfoldable pub new_privs : List WalletUtxo → List (List ℕ)
    new_privs inputs = map (λ u. w.priv) inputs

    -- The name's token, the metadata and the marker.
    unfoldable pub name_outputs : List ℕ → List ℕ → List ℕ → List ℕ → List TxOutput
    name_outputs tag label category owner_pub =
        record {
          value = token_dust_limit;
          script = p2pkh_script w.pkh;
          token = some (record {
            category_id = category;
            capability = token_capability_mutable;
            commitment = hash160 c owner_pub;
            amount = 0;
          });
        }
        ∷ record {
          value = 0;
          script = op_return_script (tag ∷ label ∷ owner_pub ∷ []);
          token = none;
        }
        ∷ record { value = dust_limit; script = marker_script label; token = none }
        ∷ []

    -- `change := total - spent; change >= dustLimit`, without the subtraction.
    unfoldable pub change_outputs : ℕ → ℕ → List TxOutput
    change_outputs total spent =
        if leb (spent + dust_limit) total
        then record { value = total - spent; script = p2pkh_script w.pkh; token = none } ∷ []
        else []

    -- The transaction of BuildClaimTx, before it is signed.
    unfoldable pub claim_tx :
        List WalletUtxo → List ℕ → List ℕ → WalletResult (Transaction × List (List ℕ))
    claim_tx utxos label owner_pub =
        let out_value = token_dust_limit + dust_limit in
        and_then (select_funding_genesis utxos out_value 4) (λ (selected, total). done (
          new_tx selected (
              name_outputs fn_claim_tag label (or_empty selected) owner_pub
              ++ change_outputs total (out_value + estimate_fee (length selected) 4)),
          new_privs selected,
        ))

    -- The transaction of BuildRebindTx: three inputs are budgeted when the coins are chosen, and the
    -- change is computed by the inputs there are.
    unfoldable pub rebind_tx :
        List WalletUtxo → List ℕ → List ℕ → List ℕ → WalletResult (Transaction × List (List ℕ))
    rebind_tx utxos label category new_owner_pub = elim (find_nft utxos category) [
      | none ↦ refused no_name_nft
      | some nft ↦
          and_then (select_funding utxos (dust_limit + estimate_fee 3 4))
            (λ (funding, funding_total).
              let inputs = nft ∷ funding in
              done (
                new_tx inputs (
                    name_outputs fn_rebind_tag label category new_owner_pub
                    ++ change_outputs (nft.value + funding_total)
                        (token_dust_limit + dust_limit + estimate_fee (length inputs) 4)),
                new_privs inputs,
              ))
    ]

    abbrev pub signed : WalletResult (Transaction × List (List ℕ)) → WalletResult (Outcome (List ℕ))
    signed r = and_then r (λ (tx, privs). done (serialize c tx privs))

    unfoldable pub build_claim_tx :
        List WalletUtxo → List ℕ → List ℕ → WalletResult (Outcome (List ℕ))
    build_claim_tx utxos label owner_pub = signed (claim_tx utxos label owner_pub)

    unfoldable pub build_rebind_tx :
        List WalletUtxo → List ℕ → List ℕ → List ℕ → WalletResult (Outcome (List ℕ))
    build_rebind_tx utxos label category new_owner_pub =
        signed (rebind_tx utxos label category new_owner_pub)
