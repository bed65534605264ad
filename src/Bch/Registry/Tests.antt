-- ===== src/Bch/Registry/Tests.antt =====
-- Runs of the registry on a chain with one claim.
use freedom_names.Common.{
  ℕ, zero, suc, ◌+◌, ◌^◌, ◌≤◌, ◌≡◌, refl, true, List, [], ◌∷◌, Option, none, some, arith, length,
  All, if◌then◌else◌,
}
use freedom_names.Bch.Crypto.{Crypto, hash160, sha256d}
use freedom_names.Bch.Encode.{
  le, un_le, put_var_int, put_var_bytes, p2pkh_script, op_return_script, append_push, push_header,
}
use freedom_names.Bch.Reader.{
  read_byte, read_bytes, read_uint32, read_int64, read_var_int, read_var_int_from, read_var_bytes,
}
use freedom_names.Bch.Token.{
  validate, split_token_prefix, encode_token_prefix, encode_commitment, encode_amount,
  token_bitfield, read_token, read_token_fields, read_commitment, read_commitment_of, read_amount,
}
use freedom_names.Bch.Tx.{
  serialized, encode_inputs, encode_input, encode_outputs, encode_output, optional_prefix, outpoint,
  sign_input, sig_hash_preimage, tx_id,
}
use freedom_names.Bch.Parse.{
  ParsedTx, parse_tx, read_tx, read_inputs, read_input, read_outputs, read_output, parse_op_return,
  scan_pushes, read_push, read_push_len, push_bytes,
}
use freedom_names.Bch.Wallet.{Wallet, WalletUtxo}
use freedom_names.Bch.Wallet.Build.{
  fn_claim_tag, fn_rebind_tag, marker_script, new_inputs, new_tx, new_privs, name_outputs,
}
use freedom_names.Bch.Registry.{
  Chain, HistoryItem, Lookup, found, failed, crashed, Claim, Holder, confirmed, oldest_history,
  newest_history, newest_first, is_earlier, keep_claim, fn_pushes, parse_fn_metadata,
  genesis_category, find_token, spends, not_found,
}
use freedom_names.Bch.Registry.Resolve.{
  fetch_tx, scan_claims, scan_bindings, winning_claim, scan_spender, find_spender, walk,
  current_commitment, binding_of, resolve,
}
use freedom_names.Bch.Registry.Claims.{winning_claim-first, Exists, IsBest, NoEarlier}
use freedom_names.Bch.Registry.Custody.{
  find_spender-none, DoesNotSpend, walk-Arrives, Arrives, walk-Follows, stays, moves,
}
use freedom_names.Bch.Registry.Owner.{IsOwner, resolve-IsOwner}
use freedom_names.Bch.Registry.NotFound.{resolve-not_found, LosesToken}
use freedom_names.Bch.Registry.Cache.{OwnerCache, resolve_owner, cached}
use freedom_names.Bch.Registry.Cache.Bounds.{resolve_owner-bounded, resolve_owner-repeats}
use freedom_names.Common.Bytes.{bytes_equal, bytes_less}

abbrev zeros : ℕ → List ℕ
zeros zero = []
zeros (suc n) = 0 ∷ zeros n

abbrev toy_crypto : Crypto
toy_crypto = record {
  sha256 = λ b. zeros 32;
  ripemd160 = λ b. zeros 20;
  sign = λ k d. 0x30 ∷ 0x01 ∷ [];
  pub_key = λ k. 2 ∷ zeros 32;
}

abbrev toy_wallet : Wallet
toy_wallet = record { priv = 9 ∷ []; pkh = zeros 20 }

abbrev toy_coins : List WalletUtxo
toy_coins = record { tx_id = 5 ∷ zeros 31; index = 0; value = 9000; token = none; height = 8 } ∷ []

-- The key that the claim of the name "a" reveals.
abbrev toy_key : List ℕ
toy_key = 8 ∷ 1 ∷ 7 ∷ []

abbrev toy_label : List ℕ
toy_label = 0x61 ∷ []

abbrev claim_raw : List ℕ
claim_raw =
    serialized toy_crypto
      (new_tx toy_crypto toy_wallet toy_coins
        (name_outputs toy_crypto toy_wallet fn_claim_tag toy_label (5 ∷ zeros 31) toy_key))
      (new_privs toy_crypto toy_wallet toy_coins)

abbrev toy_chain : Chain
toy_chain = record {
  block_height = some 110;
  get_history = λ s. some (record { tx_hash = 3 ∷ zeros 31; height = 100 } ∷ []);
  get_raw_transaction = λ id. some claim_raw;
  is_owner_key = λ k. true;
}

resolved : resolve toy_crypto toy_chain 6 toy_label ≡ found toy_key
unfolding hash160 sha256d le un_le put_var_int put_var_bytes p2pkh_script op_return_script
    append_push push_header read_byte read_bytes read_uint32 read_int64 read_var_int
    read_var_int_from read_var_bytes validate split_token_prefix encode_token_prefix
    encode_commitment encode_amount token_bitfield read_token read_token_fields read_commitment
    read_commitment_of read_amount serialized encode_inputs encode_input encode_outputs
    encode_output optional_prefix outpoint sign_input sig_hash_preimage tx_id parse_tx read_tx
    read_inputs read_input read_outputs read_output parse_op_return scan_pushes read_push
    read_push_len push_bytes bytes_equal marker_script new_inputs new_tx new_privs name_outputs
    confirmed oldest_history newest_history newest_first bytes_less is_earlier keep_claim fn_pushes
    parse_fn_metadata genesis_category find_token spends fetch_tx scan_bindings scan_spender
    find_spender walk current_commitment binding_of resolve
resolved = refl

resolve-IsOwner_example : IsOwner toy_crypto toy_chain 6 toy_label toy_key
resolve-IsOwner_example = resolve-IsOwner toy_crypto toy_chain 6 toy_label toy_key resolved

abbrev winner_of : Lookup (Claim × List ℕ) → Claim × List ℕ
winner_of (found r) = r
winner_of (failed e) =
    (record { tx = record { inputs = []; outputs = [] }; claim_id = []; claim_height = 0 }, [])
winner_of crashed =
    (record { tx = record { inputs = []; outputs = [] }; claim_id = []; claim_height = 0 }, [])

abbrev toy_winner : Claim × List ℕ
toy_winner = winner_of (winning_claim toy_crypto toy_chain 6 toy_label)

won : winning_claim toy_crypto toy_chain 6 toy_label ≡ found (toy_winner.0, toy_winner.1)
unfolding hash160 sha256d le un_le put_var_int put_var_bytes p2pkh_script op_return_script
    append_push push_header read_byte read_bytes read_uint32 read_int64 read_var_int
    read_var_int_from read_var_bytes validate split_token_prefix encode_token_prefix
    encode_commitment encode_amount token_bitfield read_token read_token_fields read_commitment
    read_commitment_of read_amount serialized encode_inputs encode_input encode_outputs
    encode_output optional_prefix outpoint sign_input sig_hash_preimage tx_id parse_tx read_tx
    read_inputs read_input read_outputs read_output parse_op_return scan_pushes read_push
    read_push_len push_bytes bytes_equal marker_script new_inputs new_tx new_privs name_outputs
    confirmed oldest_history newest_history newest_first bytes_less is_earlier keep_claim fn_pushes
    parse_fn_metadata genesis_category find_token spends fetch_tx scan_claims scan_spender
    find_spender walk winning_claim
won = refl

winning_claim-first_example :
    (tip : ℕ) × (history : List HistoryItem) × (toy_chain.block_height ≡ some tip)
    × (toy_chain.get_history (marker_script toy_crypto toy_label) ≡ some history)
    × (genesis_category toy_winner.0.tx.inputs ≡ some toy_winner.1)
    × Exists
        (IsBest toy_crypto toy_chain 6 toy_label tip (some toy_winner.0))
        (oldest_history history).0
    × All (NoEarlier toy_crypto toy_chain 6 toy_label tip toy_winner.0) (oldest_history history).0
winning_claim-first_example =
    winning_claim-first toy_crypto toy_chain 6 toy_label toy_winner.0 toy_winner.1 won

-- The output that the claim mints.
abbrev minted : Holder
minted = record {
  holder_id = 3 ∷ zeros 31;
  holder_index = 0;
  commitment = zeros 20;
  script = p2pkh_script (zeros 20);
}

unspent : find_spender toy_crypto toy_chain 6 minted ≡ found none
unfolding hash160 sha256d le un_le put_var_int put_var_bytes p2pkh_script op_return_script
    append_push push_header read_byte read_bytes read_uint32 read_int64 read_var_int
    read_var_int_from read_var_bytes validate split_token_prefix encode_token_prefix
    encode_commitment encode_amount token_bitfield read_token read_token_fields read_commitment
    read_commitment_of read_amount serialized encode_inputs encode_input encode_outputs
    encode_output optional_prefix outpoint sign_input sig_hash_preimage tx_id parse_tx read_tx
    read_inputs read_input read_outputs read_output parse_op_return scan_pushes read_push
    read_push_len push_bytes bytes_equal marker_script new_inputs new_tx new_privs name_outputs
    confirmed oldest_history newest_history newest_first bytes_less is_earlier keep_claim fn_pushes
    parse_fn_metadata genesis_category find_token spends fetch_tx scan_bindings scan_spender
    find_spender walk current_commitment binding_of resolve
unspent = refl

find_spender-none_example :
    (history : List HistoryItem) × (toy_chain.get_history minted.script ≡ some history)
    × (length history ≤ 512)
    × All (DoesNotSpend toy_crypto toy_chain 6 minted) history
find_spender-none_example = find_spender-none toy_crypto toy_chain 6 minted unspent

walked : walk toy_crypto toy_chain 6 (5 ∷ zeros 31) 64 minted ≡ found (zeros 20)
unfolding hash160 sha256d le un_le put_var_int put_var_bytes p2pkh_script op_return_script
    append_push push_header read_byte read_bytes read_uint32 read_int64 read_var_int
    read_var_int_from read_var_bytes validate split_token_prefix encode_token_prefix
    encode_commitment encode_amount token_bitfield read_token read_token_fields read_commitment
    read_commitment_of read_amount serialized encode_inputs encode_input encode_outputs
    encode_output optional_prefix outpoint sign_input sig_hash_preimage tx_id parse_tx read_tx
    read_inputs read_input read_outputs read_output parse_op_return scan_pushes read_push
    read_push_len push_bytes bytes_equal marker_script new_inputs new_tx new_privs name_outputs
    confirmed oldest_history newest_history newest_first bytes_less is_earlier keep_claim fn_pushes
    parse_fn_metadata genesis_category find_token spends fetch_tx scan_bindings scan_spender
    find_spender walk current_commitment binding_of resolve
walked = refl

walk-Arrives_example : Arrives toy_crypto toy_chain 6 (5 ∷ zeros 31) 64 minted (zeros 20)
walk-Arrives_example =
    walk-Arrives toy_crypto toy_chain 6 (5 ∷ zeros 31) 64 minted (zeros 20) walked

-- A name of which the claim spends no output of index 0, with a marker history of 513 entries.
abbrev odd_coins : List WalletUtxo
odd_coins = record { tx_id = 5 ∷ zeros 31; index = 1; value = 9000; token = none; height = 8 } ∷ []

abbrev odd_raw : List ℕ
odd_raw =
    serialized toy_crypto
      (new_tx toy_crypto toy_wallet odd_coins
        (name_outputs toy_crypto toy_wallet fn_claim_tag toy_label (5 ∷ zeros 31) toy_key))
      (new_privs toy_crypto toy_wallet odd_coins)

abbrev unconfirmed : ℕ → List HistoryItem
unconfirmed zero = []
unconfirmed (suc n) = record { tx_hash = 4 ∷ zeros 31; height = 0 } ∷ unconfirmed n

abbrev padded : List HistoryItem
padded = record { tx_hash = 3 ∷ zeros 31; height = 100 } ∷ unconfirmed 512

abbrev padded_chain : Chain
padded_chain = record {
  block_height = some 110;
  get_history = λ s. some padded;
  get_raw_transaction = λ id. some odd_raw;
  is_owner_key = λ k. true;
}

nothing_minted : resolve toy_crypto padded_chain 6 toy_label ≡ failed not_found
unfolding hash160 sha256d le un_le put_var_int put_var_bytes p2pkh_script op_return_script
    append_push push_header read_byte read_bytes read_uint32 read_int64 read_var_int
    read_var_int_from read_var_bytes validate split_token_prefix encode_token_prefix
    encode_commitment encode_amount token_bitfield read_token read_token_fields read_commitment
    read_commitment_of read_amount serialized encode_inputs encode_input encode_outputs
    encode_output optional_prefix outpoint sign_input sig_hash_preimage tx_id parse_tx read_tx
    read_inputs read_input read_outputs read_output parse_op_return scan_pushes read_push
    read_push_len push_bytes bytes_equal marker_script new_inputs new_tx new_privs name_outputs
    confirmed oldest_history newest_history newest_first bytes_less is_earlier keep_claim fn_pushes
    parse_fn_metadata genesis_category find_token spends fetch_tx scan_bindings scan_spender
    find_spender walk current_commitment binding_of resolve
nothing_minted = refl

resolve-not_found_example : LosesToken toy_crypto padded_chain 6 toy_label padded
resolve-not_found_example =
    resolve-not_found toy_crypto padded_chain 6 toy_label padded refl (omega arith) nothing_minted

abbrev after_lookup : Lookup (List ℕ) × OwnerCache
after_lookup = resolve_owner toy_crypto toy_chain 6 1000 toy_label []

resolve_owner-bounded_example : length after_lookup.1 ≤ 4096
resolve_owner-bounded_example =
    resolve_owner-bounded toy_crypto toy_chain 6 1000 toy_label [] (omega arith)

-- The second lookup is on another chain, a second later.
resolve_owner-repeats_example :
    resolve_owner toy_crypto padded_chain 6 (1000 + 10 ^ 9) toy_label after_lookup.1
    ≡ (found toy_key, after_lookup.1)
unfolding cached
resolve_owner-repeats_example =
    resolve_owner-repeats toy_crypto toy_chain 6 1000 toy_label [] padded_chain 6 (1000 + 10 ^ 9)
      (some toy_key) refl resolved (omega arith)

-- The token moves once, by a rebind to another key hash.
abbrev held_coins : List WalletUtxo
held_coins =
    record {
      tx_id = 3 ∷ zeros 31;
      index = 0;
      value = 1000;
      token = some (record {
        category_id = 5 ∷ zeros 31;
        capability = 1;
        commitment = zeros 20;
        amount = 0;
      });
      height = 8;
    }
    ∷ []

abbrev rebind_raw : List ℕ
rebind_raw =
    serialized toy_crypto
      (new_tx toy_crypto toy_wallet held_coins
        (name_outputs toy_crypto toy_wallet fn_rebind_tag toy_label (5 ∷ zeros 31) (7 ∷ [])))
      (new_privs toy_crypto toy_wallet held_coins)

abbrev moved_chain : Chain
moved_chain = record {
  block_height = some 110;
  get_history = λ s. some (
      record { tx_hash = 3 ∷ zeros 31; height = 100 }
      ∷ record { tx_hash = 4 ∷ zeros 31; height = 105 }
      ∷ []);
  get_raw_transaction =
      λ id. some (if bytes_equal id (4 ∷ zeros 31) then rebind_raw else claim_raw);
  is_owner_key = λ k. true;
}

abbrev spender_of : Lookup (Option (ParsedTx × List ℕ)) → ParsedTx × List ℕ
spender_of (found (some s)) = s
spender_of (found none) = (record { inputs = []; outputs = [] }, [])
spender_of (failed e) = (record { inputs = []; outputs = [] }, [])
spender_of crashed = (record { inputs = []; outputs = [] }, [])

abbrev toy_spender : ParsedTx × List ℕ
toy_spender = spender_of (find_spender toy_crypto moved_chain 6 minted)

-- The output of the rebind, under the id that the toy digests give it.
abbrev rebound : Holder
rebound = record {
  holder_id = zeros 32;
  holder_index = 0;
  commitment = zeros 20;
  script = p2pkh_script (zeros 20);
}

spent_by :
    find_spender toy_crypto moved_chain 6 minted ≡ found (some (toy_spender.0, toy_spender.1))
unfolding hash160 sha256d le un_le put_var_int put_var_bytes p2pkh_script op_return_script
    append_push push_header read_byte read_bytes read_uint32 read_int64 read_var_int
    read_var_int_from read_var_bytes validate split_token_prefix encode_token_prefix
    encode_commitment encode_amount token_bitfield read_token read_token_fields read_commitment
    read_commitment_of read_amount serialized encode_inputs encode_input encode_outputs
    encode_output optional_prefix outpoint sign_input sig_hash_preimage tx_id parse_tx read_tx
    read_inputs read_input read_outputs read_output parse_op_return scan_pushes read_push
    read_push_len push_bytes bytes_equal marker_script new_inputs new_tx new_privs name_outputs
    confirmed oldest_history newest_history newest_first bytes_less is_earlier keep_claim fn_pushes
    parse_fn_metadata genesis_category find_token spends fetch_tx scan_bindings scan_spender
    find_spender walk current_commitment binding_of resolve
spent_by = refl

moved_to : find_token (5 ∷ zeros 31) toy_spender.1 0 toy_spender.0.outputs ≡ some rebound
unfolding hash160 sha256d le un_le put_var_int put_var_bytes p2pkh_script op_return_script
    append_push push_header read_byte read_bytes read_uint32 read_int64 read_var_int
    read_var_int_from read_var_bytes validate split_token_prefix encode_token_prefix
    encode_commitment encode_amount token_bitfield read_token read_token_fields read_commitment
    read_commitment_of read_amount serialized encode_inputs encode_input encode_outputs
    encode_output optional_prefix outpoint sign_input sig_hash_preimage tx_id parse_tx read_tx
    read_inputs read_input read_outputs read_output parse_op_return scan_pushes read_push
    read_push_len push_bytes bytes_equal marker_script new_inputs new_tx new_privs name_outputs
    confirmed oldest_history newest_history newest_first bytes_less is_earlier keep_claim fn_pushes
    parse_fn_metadata genesis_category find_token spends fetch_tx scan_bindings scan_spender
    find_spender walk current_commitment binding_of resolve
moved_to = refl

walk-Follows_example : walk toy_crypto moved_chain 6 (5 ∷ zeros 31) 1 minted ≡ found (zeros 20)
walk-Follows_example =
    walk-Follows toy_crypto moved_chain 6 (5 ∷ zeros 31) 1 minted rebound
      (moves spent_by moved_to stays)
