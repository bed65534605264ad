-- ===== src/Bch/Tests.antt =====
-- Runs of the transaction code at concrete inputs.
use freedom_names.Common.{
  ℕ, zero, suc, ◌+◌, ◌-◌, ◌^◌, ◌<◌, ◌≡◌, ◌↔◌, refl, List, [], ◌∷◌, ◌++◌, none, some, arith, length,
  All,
}
use freedom_names.Bch.Crypto.{Crypto}
use freedom_names.Bch.Encode.{
  le, put_var_int, put_var_bytes, p2pkh_script, op_return_script, append_push, push_header,
}
use freedom_names.Bch.Reader.{ok, panic}
use freedom_names.Bch.Token.{
  TokenInfo, validate, split_token_prefix, encode_token_prefix, encode_commitment, encode_amount,
}
use freedom_names.Bch.Token.RoundTrip.{split_token_prefix-encode_token_prefix}
use freedom_names.Bch.Tx.{
  Transaction, serialize, serialized, validate_outputs, token_error, encode_inputs, encode_input,
  encode_outputs, encode_output, optional_prefix, outpoint, sign_input, sig_hash_preimage,
}
use freedom_names.Bch.Parse.{parse_tx, parse_op_return}
use freedom_names.Bch.Parse.RoundTrip.{IsWire, parsed, parse_tx-serialize}
use freedom_names.Bch.Parse.Scripts.{parse_op_return-op_return_script}
use freedom_names.Bch.Parse.Panics.{first_input_bytes, parse_tx-panic}
use freedom_names.Bch.Parse.Total.{parse_op_return_total}
use freedom_names.Bch.Wallet.{
  Wallet, WalletUtxo, WalletResult, done, refused, insufficient_funds, balance, select_funding,
  plain_coins, sort_coins, insert_coin, cover, estimate_fee, select_funding_genesis, find_genesis,
  grow, find_nft, dust_limit,
}
use freedom_names.Bch.Wallet.Build.{claim_tx, rebind_tx}
use freedom_names.Bch.Wallet.Funding.{Covers, select_funding-Covers, select_funding-refused_iff}
use freedom_names.Bch.Wallet.Spending.{IsFundedClaim, IsFundedRebind, claim_tx_lem, rebind_tx_lem}
use freedom_names.Bch.Wallet.Shortfall.{IsShort, rebind_tx-IsShort}
use freedom_names.Common.Bytes.{bytes_equal}

abbrev zeros : ℕ → List ℕ
zeros zero = []
zeros (suc n) = 0 ∷ zeros n

-- Digests and keys of the right lengths.
abbrev toy_crypto : Crypto
toy_crypto = record {
  sha256 = λ b. zeros 32;
  ripemd160 = λ b. zeros 20;
  sign = λ k d. 0x30 ∷ 0x01 ∷ [];
  pub_key = λ k. 2 ∷ zeros 32;
}

abbrev toy_token : TokenInfo
toy_token = record { category_id = zeros 32; capability = 1; commitment = 7 ∷ 8 ∷ []; amount = 300 }

split_token_prefix-encode_token_prefix_example :
    split_token_prefix (encode_token_prefix toy_token ++ (0x76 ∷ 0xa9 ∷ []))
    ≡ ok (some toy_token, 0x76 ∷ 0xa9 ∷ [])
unfolding validate encode_token_prefix encode_commitment put_var_int encode_amount le
split_token_prefix-encode_token_prefix_example =
    split_token_prefix-encode_token_prefix toy_token (0x76 ∷ 0xa9 ∷ []) refl (omega arith)
      (omega arith)

abbrev toy_tx : Transaction
toy_tx = record {
  version = 2;
  inputs =
      record {
        prev_tx_id = zeros 32;
        prev_index = 1;
        prev_script = p2pkh_script (zeros 20);
        prev_value = 5000;
        prev_token = none;
        sequence = 0xffffffff;
      }
      ∷ [];
  outputs =
      record { value = 1000; script = 0x76 ∷ []; token = some toy_token }
      ∷ record { value = 0; script = 0x6a ∷ []; token = none }
      ∷ [];
  lock_time = 0;
}

abbrev toy_raw : List ℕ
toy_raw = serialized toy_crypto toy_tx ((9 ∷ []) ∷ [])

toy_tx-IsWire : IsWire toy_tx
toy_tx-IsWire = record {
  version_width = omega arith;
  wire_inputs =
      (record { id_width = refl; index_width = omega arith; sequence_width = omega arith }, tt);
  wire_outputs = (
    record { value_width = omega arith; token_width = omega arith },
    (record { value_width = omega arith; token_width = omega arith }, tt),
  );
}

toy_serialized : serialize toy_crypto toy_tx ((9 ∷ []) ∷ []) ≡ ok toy_raw
unfolding serialize validate_outputs token_error validate
toy_serialized = refl

toy_raw_small : length toy_raw < 2 ^ 63
unfolding serialized encode_inputs encode_input encode_outputs encode_output optional_prefix
    encode_token_prefix encode_commitment encode_amount outpoint sign_input append_push push_header
    put_var_bytes put_var_int le sig_hash_preimage
toy_raw_small = omega arith

parse_tx-serialize_example : parse_tx toy_raw ≡ ok (parsed toy_tx)
parse_tx-serialize_example =
    parse_tx-serialize toy_crypto toy_tx ((9 ∷ []) ∷ []) toy_raw toy_tx-IsWire toy_serialized
      toy_raw_small

parse_op_return-op_return_script_example :
    parse_op_return (op_return_script ((1 ∷ 2 ∷ []) ∷ zeros 80 ∷ []))
    ≡ ok ((1 ∷ 2 ∷ []) ∷ zeros 80 ∷ [])
unfolding op_return_script append_push push_header
parse_op_return-op_return_script_example =
    parse_op_return-op_return_script ((1 ∷ 2 ∷ []) ∷ zeros 80 ∷ []) (omega arith) (omega arith)

-- A push that runs past the end of the script.
parse_op_return_total_example :
    (ds : List (List ℕ)) × (parse_op_return (0x6a ∷ 1 ∷ 7 ∷ 5 ∷ 9 ∷ []) ≡ ok ds)
    × All (λ d. length d < 65536) ds
parse_op_return_total_example =
    parse_op_return_total (0x6a ∷ 1 ∷ 7 ∷ 5 ∷ 9 ∷ []) (omega arith) (omega arith)

parse_tx-panic_example :
    parse_tx (first_input_bytes 2 0 (zeros 32) 0 (2 ^ 63 - 1) ++ (0 ∷ [])) ≡ panic
unfolding put_var_int le
parse_tx-panic_example =
    parse_tx-panic 2 0 0 (2 ^ 63 - 1) (zeros 32) (0 ∷ []) (omega arith) (omega arith) refl
      (omega arith) (omega arith) (omega arith) (omega arith)

-- Two plain coins and a name's token.
abbrev toy_coins : List WalletUtxo
toy_coins =
    record { tx_id = zeros 32; index = 1; value = 4000; token = none; height = 7 }
    ∷ record { tx_id = 5 ∷ zeros 31; index = 0; value = 9000; token = none; height = 8 }
    ∷ record { tx_id = 6 ∷ zeros 31; index = 0; value = 1000; token = some toy_token; height = 9 }
    ∷ []

abbrev toy_wallet : Wallet
toy_wallet = record { priv = 9 ∷ []; pkh = zeros 20 }

select_funding-refused_iff_example :
    (select_funding toy_coins 13001 ≡ refused insufficient_funds) ↔ (balance toy_coins < 13001)
select_funding-refused_iff_example = select_funding-refused_iff toy_coins 13001 (omega arith)

abbrev largest : List WalletUtxo × ℕ
largest =
    (record { tx_id = 5 ∷ zeros 31; index = 0; value = 9000; token = none; height = 8 } ∷ [], 9000)

largest_chosen : select_funding toy_coins 6000 ≡ done largest
unfolding select_funding plain_coins sort_coins insert_coin cover
largest_chosen = refl

select_funding-Covers_example : Covers 6000 largest
select_funding-Covers_example = select_funding-Covers toy_coins 6000 largest largest_chosen

abbrev tx_of : WalletResult (Transaction × List (List ℕ)) → Transaction × List (List ℕ)
tx_of (done r) = r
tx_of (refused x) = (toy_tx, [])

abbrev toy_claim : Transaction × List (List ℕ)
toy_claim = tx_of (claim_tx toy_crypto toy_wallet toy_coins (0x61 ∷ []) (2 ∷ zeros 32))

claim_made :
    claim_tx toy_crypto toy_wallet toy_coins (0x61 ∷ []) (2 ∷ zeros 32)
    ≡ done (toy_claim.0, toy_claim.1)
unfolding claim_tx select_funding_genesis find_genesis grow estimate_fee
claim_made = refl

claim_tx_lem_example : IsFundedClaim toy_crypto toy_wallet (0x61 ∷ []) (2 ∷ zeros 32) toy_claim
claim_tx_lem_example =
    claim_tx_lem toy_crypto toy_wallet toy_coins (0x61 ∷ []) (2 ∷ zeros 32) toy_claim.0 toy_claim.1
      claim_made

abbrev toy_rebind : Transaction × List (List ℕ)
toy_rebind = tx_of (rebind_tx toy_crypto toy_wallet toy_coins (0x61 ∷ []) (zeros 32) (3 ∷ zeros 32))

rebind_made :
    rebind_tx toy_crypto toy_wallet toy_coins (0x61 ∷ []) (zeros 32) (3 ∷ zeros 32)
    ≡ done (toy_rebind.0, toy_rebind.1)
unfolding rebind_tx find_nft bytes_equal select_funding plain_coins sort_coins insert_coin cover
    estimate_fee
rebind_made = refl

rebind_tx_lem_example :
    IsFundedRebind toy_crypto toy_wallet (0x61 ∷ []) (zeros 32) (3 ∷ zeros 32) toy_rebind
rebind_tx_lem_example =
    rebind_tx_lem toy_crypto toy_wallet toy_coins (0x61 ∷ []) (zeros 32) (3 ∷ zeros 32) toy_rebind.0
      toy_rebind.1 rebind_made

-- Four small coins cover the fee of three inputs, and not that of five.
abbrev small_coin : ℕ → WalletUtxo
small_coin n = record { tx_id = n ∷ zeros 31; index = 1; value = 500; token = none; height = 7 }

abbrev small_coins : List WalletUtxo
small_coins = small_coin 1 ∷ small_coin 2 ∷ small_coin 3 ∷ small_coin 4 ∷ []

abbrev name_coin : WalletUtxo
name_coin = record {
  tx_id = 6 ∷ zeros 31;
  index = 0;
  value = 1000;
  token = some toy_token;
  height = 9;
}

name_coin_found : find_nft (name_coin ∷ small_coins) (zeros 32) ≡ some name_coin
unfolding find_nft bytes_equal
name_coin_found = refl

small_coins_chosen :
    select_funding (name_coin ∷ small_coins) (dust_limit + estimate_fee 3 4)
    ≡ done (small_coins, 2000)
unfolding select_funding plain_coins sort_coins insert_coin cover estimate_fee
small_coins_chosen = refl

rebind_tx-IsShort_example :
    (made : Transaction × List (List ℕ)) × (rebind_tx toy_crypto toy_wallet
        (name_coin ∷ small_coins)
        (0x61 ∷ [])
        (zeros 32)
        (zeros 33)
      ≡ done made)
    × IsShort toy_crypto toy_wallet made
rebind_tx-IsShort_example =
    rebind_tx-IsShort toy_crypto toy_wallet (name_coin ∷ small_coins) (0x61 ∷ []) (zeros 32)
      (zeros 33) name_coin small_coins 2000 name_coin_found small_coins_chosen
      (unfold estimate_fee in omega arith)
