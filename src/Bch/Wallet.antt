-- ===== src/Bch/Wallet.antt =====
-- internal/bch/bchwallet.go: the wallet's coins, the choice of coins for a transaction, and the
-- claim and rebind transactions. Values in satoshis are not negative and do not overflow; the
-- order in which sort.Slice leaves coins of one value is the order they came in.
pub mod Build
pub mod Funding
pub mod Genesis
pub mod Spending
pub mod Shortfall
use freedom_names.Common.{
  ℕ, zero, suc, ◌+◌, ◌-◌, ◌*◌, Bool, true, false, not, ◌&&◌, ◌||◌, List, [], ◌∷◌, ◌++◌, Option,
  none, some, ltb, leb, ◌==◌, if◌then◌else◌, length, map,
}
use freedom_names.Bch.Crypto.{Crypto, hash160}
use freedom_names.Bch.Encode.{p2pkh_script, op_return_script}
use freedom_names.Bch.Reader.{Error, Outcome, ok, err, panic}
use freedom_names.Bch.Token.{TokenInfo, token_capability_none, token_capability_mutable}
use freedom_names.Bch.Tx.{Transaction, TxInput, TxOutput, serialize}
use freedom_names.Common.Bytes.{bytes_equal}

abbrev pub dust_limit : ℕ
dust_limit = 546

abbrev pub token_dust_limit : ℕ
token_dust_limit = 1000

pub record WalletUtxo : Type 0 where
  pub tx_id : List ℕ
  pub index : ℕ
  pub value : ℕ
  pub token : Option TokenInfo
  pub height : ℕ

-- The key, known by its bytes, and the hash of its public key.
pub record Wallet : Type 0 where
  pub priv : List ℕ
  pub pkh : List ℕ

pub data WalletError : Type 0 where
  insufficient_funds no_genesis_coin no_name_nft : WalletError

pub data WalletResult {ℓ} (A : Type ℓ) : Type ℓ where
  done : A → WalletResult A
  refused : WalletError → WalletResult A

abbrev pub and_then {ℓ κ} :
    {A : Type ℓ} {B : Type κ} → WalletResult A → (A → WalletResult B) → WalletResult B
and_then (done a) f = f a
and_then (refused e) f = refused e

abbrev pub is_plain : WalletUtxo → Bool
is_plain u = elim u.token [ none ↦ true | some t ↦ false ]

-- Holdings: the plain satoshis, and the tokens that hold an NFT with a capability.
abbrev pub holds_name : Option TokenInfo → Bool
holds_name none = false
holds_name (some t) = not (t.capability == token_capability_none)

unfoldable pub holdings : List WalletUtxo → ℕ × ℕ
holdings [] = (0, 0)
holdings (u ∷ us) =
    let (balance_sat, name_nfts) = holdings us in
    if holds_name u.token
    then (balance_sat, name_nfts + 1)
    else if is_plain u
    then (balance_sat + u.value, name_nfts)
    else (balance_sat, name_nfts)

unfoldable pub balance : List WalletUtxo → ℕ
balance [] = 0
balance (u ∷ us) = (if is_plain u then u.value else 0) + balance us

unfoldable pub plain_coins : List WalletUtxo → List WalletUtxo
plain_coins [] = []
plain_coins (u ∷ us) = let rest = plain_coins us in if is_plain u then u ∷ rest else rest

-- sort.Slice, largest value first.
unfoldable pub insert_coin : WalletUtxo → List WalletUtxo → List WalletUtxo
insert_coin u [] = u ∷ []
insert_coin u (v ∷ vs) =
    let rest = insert_coin u vs in if ltb u.value v.value then v ∷ rest else u ∷ (v ∷ vs)

unfoldable pub sort_coins : List WalletUtxo → List WalletUtxo
sort_coins [] = []
sort_coins (u ∷ us) = insert_coin u (sort_coins us)

-- The loop of selectFunding over the sorted coins.
unfoldable pub cover :
    ℕ → List WalletUtxo → List WalletUtxo → ℕ → WalletResult (List WalletUtxo × ℕ)
cover need [] selected total = refused insufficient_funds
cover need (u ∷ us) selected total =
    let rest = cover need us (selected ++ (u ∷ [])) (total + u.value) in
    if leb need (total + u.value) then done (selected ++ (u ∷ []), total + u.value) else rest

unfoldable pub select_funding : List WalletUtxo → ℕ → WalletResult (List WalletUtxo × ℕ)
select_funding utxos need = cover need (sort_coins (plain_coins utxos)) [] 0

abbrev pub fee_per_byte : ℕ
fee_per_byte = 2

unfoldable pub estimate_fee : ℕ → ℕ → ℕ
estimate_fee num_in num_out = (10 + num_in * 148 + num_out * 34 + 100) * fee_per_byte

-- The first plain coin whose output index is 0.
unfoldable pub find_genesis : List WalletUtxo → Option WalletUtxo
find_genesis [] = none
find_genesis (u ∷ us) = if is_plain u && u.index == 0 then some u else find_genesis us

-- `bytesEqual(u.txid, genesis.txid) && u.index == genesis.index`
abbrev pub same_outpoint : WalletUtxo → WalletUtxo → Bool
same_outpoint u g = bytes_equal u.tx_id g.tx_id && u.index == g.index

-- The loop that adds coins until the amount and the fee for the inputs so far are covered.
module _ (out_value num_outputs : ℕ) (genesis : WalletUtxo) where
  abbrev pub need : ℕ → ℕ
  need n = out_value + estimate_fee n num_outputs

  unfoldable pub grow : List WalletUtxo → List WalletUtxo → ℕ → WalletResult (List WalletUtxo × ℕ)
  grow [] selected total = refused insufficient_funds
  grow (u ∷ us) selected total =
      let more = selected ++ (u ∷ []) in
      elim (not (is_plain u) || same_outpoint u genesis) [
        | true ↦ grow us selected total
        | false ↦ elim (leb (need (length more)) (total + u.value)) [
          | true ↦ done (more, total + u.value)
          | false ↦ grow us more (total + u.value)
        ]
      ]

unfoldable pub select_funding_genesis : List WalletUtxo → ℕ → ℕ → WalletResult (List WalletUtxo × ℕ)
select_funding_genesis utxos out_value num_outputs = elim (find_genesis utxos) [
  | none ↦ refused no_genesis_coin
  | some g ↦
      if leb (need out_value num_outputs g 1) g.value
      then done (g ∷ [], g.value)
      else grow out_value num_outputs g utxos (g ∷ []) g.value
]

unfoldable pub find_nft : List WalletUtxo → List ℕ → Option WalletUtxo
find_nft [] category = none
find_nft (u ∷ us) category = elim u.token [
  | none ↦ find_nft us category
  | some t ↦ if bytes_equal t.category_id category then some u else find_nft us category
]
