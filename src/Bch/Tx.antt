-- ===== src/Bch/Tx.antt =====
-- internal/bch/bchtx.go, building a transaction: outputs, the signing preimage and serialization.
-- Values are 64-bit patterns and the other integers 32-bit patterns, little-endian on the wire.
use freedom_names.Common.{
  ℕ, ◌%◌, List, [], ◌∷◌, ◌++◌, Option, none, some, not, ◌==◌, if◌then◌else◌, length,
}
use freedom_names.Bch.Crypto.{Crypto, sha256d}
use freedom_names.Bch.Encode.{le, put_var_int, put_var_bytes, append_push}
use freedom_names.Bch.Reader.{Outcome, ok, err, Error, key_count}
use freedom_names.Bch.Token.{TokenInfo, encode_token_prefix, validate}

abbrev pub sig_hash_default : ℕ
sig_hash_default = 0x41

pub record TxInput : Type 0 where
  pub prev_tx_id : List ℕ
  pub prev_index : ℕ
  pub prev_script : List ℕ
  pub prev_value : ℕ
  pub prev_token : Option TokenInfo
  pub sequence : ℕ

pub record TxOutput : Type 0 where
  pub value : ℕ
  pub script : List ℕ
  pub token : Option TokenInfo

pub record Transaction : Type 0 where
  pub version : ℕ
  pub inputs : List TxInput
  pub outputs : List TxOutput
  pub lock_time : ℕ

-- The token prefix of an output, or of the coin that an input spends.
unfoldable pub optional_prefix : Option TokenInfo → List ℕ
optional_prefix none = []
optional_prefix (some t) = encode_token_prefix t

unfoldable pub encode_output : TxOutput → List ℕ
encode_output o = le 8 o.value ++ put_var_bytes (optional_prefix o.token ++ o.script)

unfoldable pub encode_outputs : List TxOutput → List ℕ
encode_outputs [] = []
encode_outputs (o ∷ os) = encode_output o ++ encode_outputs os

unfoldable pub outpoint : TxInput → List ℕ
outpoint i = i.prev_tx_id ++ le 4 i.prev_index

unfoldable pub outpoints : List TxInput → List ℕ
outpoints [] = []
outpoints (i ∷ is) = outpoint i ++ outpoints is

unfoldable pub sequences : List TxInput → List ℕ
sequences [] = []
sequences (i ∷ is) = le 4 i.sequence ++ sequences is

unfoldable pub script_code : TxInput → List ℕ
script_code i = optional_prefix i.prev_token ++ i.prev_script

-- `o.Token != nil`, and the error of its validation.
unfoldable pub token_error : Option TokenInfo → Option Error
token_error none = none
token_error (some t) = validate t

-- The error of the first output whose token is invalid.
unfoldable pub validate_outputs : List TxOutput → Option Error
validate_outputs [] = none
validate_outputs (o ∷ os) = elim (token_error o.token) [
  | some e ↦ some e
  | none ↦ validate_outputs os
]

-- One serialized input, with its unlocking script.
unfoldable pub encode_input : TxInput → List ℕ → List ℕ
encode_input i unlocking = outpoint i ++ (put_var_bytes unlocking ++ le 4 i.sequence)

module _ (c : Crypto) where
  unfoldable pub hash_prevouts : Transaction → List ℕ
  hash_prevouts tx = sha256d c (outpoints tx.inputs)

  unfoldable pub hash_sequence : Transaction → List ℕ
  hash_sequence tx = sha256d c (sequences tx.inputs)

  unfoldable pub hash_outputs : Transaction → List ℕ
  hash_outputs tx = sha256d c (encode_outputs tx.outputs)

  -- The preimage for one of the transaction's inputs.
  unfoldable pub sig_hash_preimage : Transaction → TxInput → ℕ → List ℕ
  sig_hash_preimage tx i sig_hash_type =
      le 4 tx.version
      ++ (hash_prevouts tx
          ++ (hash_sequence tx
              ++ (outpoint i
                  ++ (put_var_bytes (script_code i)
                      ++ (le 8 i.prev_value
                          ++ (le 4 i.sequence
                              ++ (hash_outputs tx
                                  ++ (le 4 tx.lock_time ++ le 4 sig_hash_type))))))))

  -- The unlocking script: the signature with its hash type, and the public key.
  unfoldable pub sign_input : Transaction → TxInput → List ℕ → List ℕ
  sign_input tx i priv =
      let digest = sha256d c (sig_hash_preimage tx i sig_hash_default) in
      append_push (append_push [] (c.sign priv digest ++ ((sig_hash_default % 256) ∷ [])))
        (c.pub_key priv)

  -- The signed inputs, each with the key of its position.
  unfoldable pub encode_inputs : Transaction → List TxInput → List (List ℕ) → List ℕ
  encode_inputs tx [] privs = []
  encode_inputs tx (i ∷ is) [] = []
  encode_inputs tx (i ∷ is) (p ∷ ps) = encode_input i (sign_input tx i p) ++ encode_inputs tx is ps

  unfoldable pub serialized : Transaction → List (List ℕ) → List ℕ
  serialized tx privs =
      le 4 tx.version
      ++ (put_var_int (length tx.inputs)
          ++ (encode_inputs tx tx.inputs privs
              ++ (put_var_int (length tx.outputs)
                  ++ (encode_outputs tx.outputs ++ le 4 tx.lock_time))))

  unfoldable pub serialize : Transaction → List (List ℕ) → Outcome (List ℕ)
  serialize tx privs =
      if not (length privs == length tx.inputs)
      then err key_count
      else elim (validate_outputs tx.outputs) [ some e ↦ err e | none ↦ ok (serialized tx privs) ]

  unfoldable pub tx_id : List ℕ → List ℕ
  tx_id raw = sha256d c raw
