-- ===== src/Bch/Parse/RoundTrip.antt =====
-- Raw transactions: `parse_tx` on what `serialize` wrote.
use freedom_names.Common.{
  ℕ, ◌+◌, ◌^◌, ◌<◌, ◌≤◌, ◌≡◌, ◌≢◌, sym, ap, ◌∙◌, subst, inl, inr, Option, none, some, List, [], ◌∷◌,
  ◌++◌, map, append_assoc, arith, length, length-append, get_or, Option-cases, All,
}
use freedom_names.Bch.Encode.{le, put_var_int, put_var_bytes, IsU64}
use freedom_names.Bch.Encode.Bounds.{length-put_var_bytes, length-le}
use freedom_names.Bch.Reader.{
  Error, ok, ByteReader, read_bytes, read_uint32, read_int64, read_var_int, read_var_bytes,
}
use freedom_names.Bch.Reader.Reads.{
  Reads, At-room, advance, Reads-bind, Reads-map, Reads-then, Reads-return, read_bytes-Reads,
  read_uint32-Reads, read_int64-Reads, read_var_int-Reads, read_var_bytes-Reads,
}
use freedom_names.Bch.Crypto.{Crypto}
use freedom_names.Bch.Token.{TokenInfo, split_token_prefix}
use freedom_names.Bch.Token.RoundTrip.{split_token_prefix-encode_token_prefix}
use freedom_names.Bch.Tx.{
  TxInput, TxOutput, Transaction, optional_prefix, encode_output, encode_outputs, outpoint,
  encode_input, validate_outputs, token_error, sign_input, encode_inputs, serialized, serialize,
}
use freedom_names.Bch.Parse.{
  ParsedInput, ParsedOutput, ParsedTx, read_input, read_inputs, read_output, read_outputs, read_tx,
  parse_tx,
}

-- What a parse exposes of an input and of an output.
abbrev pub parsed_input : TxInput → ParsedInput
parsed_input i = record { prev_tx_id = i.prev_tx_id; prev_index = i.prev_index }

abbrev pub parsed_output : TxOutput → ParsedOutput
parsed_output o = record { value = o.value; script = o.script; token = o.token }

-- The widths of the Go fields.
pub record IsWireInput (i : TxInput) : Type 0 where
  pub id_width : length i.prev_tx_id ≡ 32
  pub index_width : i.prev_index < 2 ^ 32
  pub sequence_width : i.sequence < 2 ^ 32

-- A token amount is a uint64; a script without a token must not start like a token prefix.
abbrev pub IsWireToken : List ℕ → Option TokenInfo → Type 0
IsWireToken script none = get_or script 0 0 ≢ 0xef
IsWireToken script (some t) = IsU64 t.amount

pub record IsWireOutput (o : TxOutput) : Type 0 where
  pub value_width : IsU64 o.value
  pub token_width : IsWireToken o.script o.token

read_input-Reads :
    (i : TxInput) (u : List ℕ)
    → IsWireInput i
    → Reads read_input (encode_input i u) (parsed_input i)
unfolding read_input encode_input outpoint
read_input-Reads i u w =
    subst (λ (bs : List ℕ). Reads read_input bs (parsed_input i))
      (sym (append_assoc i.prev_tx_id (le 4 i.prev_index) (put_var_bytes u ++ le 4 i.sequence)))
      (Reads-bind (read_bytes 32) _ i.prev_tx_id _ i.prev_tx_id (parsed_input i)
        (read_bytes-Reads 32 i.prev_tx_id w.id_width)
        (Reads-bind read_uint32 _ (le 4 i.prev_index) _ i.prev_index (parsed_input i)
          (read_uint32-Reads i.prev_index w.index_width)
          (Reads-bind read_var_bytes _ (put_var_bytes u) (le 4 i.sequence) u (parsed_input i)
            (read_var_bytes-Reads u)
            (Reads-map read_uint32 _ (le 4 i.sequence) i.sequence
              (read_uint32-Reads i.sequence w.sequence_width)))))

module _ (c : Crypto) (tx : Transaction) where
  read_inputs-Reads :
      (is : List TxInput) (privs : List (List ℕ))
      → All IsWireInput is
      → length privs ≡ length is
      → Reads (read_inputs (length is)) (encode_inputs c tx is privs) (map parsed_input is)
  unfolding read_inputs encode_inputs
  read_inputs-Reads [] privs w e = Reads-return []
  read_inputs-Reads (i ∷ is) [] w e = absurd (omega arith)
  read_inputs-Reads (i ∷ is) (p ∷ ps) (w, ws) e =
      Reads-bind read_input _ (encode_input i (sign_input c tx i p)) (encode_inputs c tx is ps)
        (parsed_input i) _ (read_input-Reads i (sign_input c tx i p) w)
        (Reads-map (read_inputs (length is)) _ (encode_inputs c tx is ps) (map parsed_input is)
          (read_inputs-Reads is ps ws (omega arith)))

abbrev HasValidToken : Option TokenInfo → Type 0
HasValidToken token = token_error token ≡ none

split_wrapped :
    (token : Option TokenInfo) (script : List ℕ)
    → IsWireToken script token
    → HasValidToken token
    → length (optional_prefix token ++ script) < 2 ^ 63
    → split_token_prefix (optional_prefix token ++ script) ≡ ok (token, script)
unfolding optional_prefix token_error
split_wrapped none script w v small = unfold split_token_prefix in ground arith
split_wrapped (some t) script w v small = split_token_prefix-encode_token_prefix t script v w small

read_output-Reads :
    (o : TxOutput)
    → IsWireOutput o
    → HasValidToken o.token
    → Reads read_output (encode_output o) (parsed_output o)
unfolding read_output encode_output
read_output-Reads o w v r rest at =
    let wrapped : List ℕ = optional_prefix o.token ++ o.script in
    let small : length wrapped < 2 ^ 63 = omega (
      arith,
      At-room r (encode_output o ++ rest) at,
      length-append (encode_output o) rest,
      length-append (le 8 o.value) (put_var_bytes wrapped),
      length-put_var_bytes wrapped,
      at.small,
    ) in
    Reads-bind read_int64 _ (le 8 o.value) (put_var_bytes wrapped) o.value (parsed_output o)
      (read_int64-Reads o.value w.value_width)
      (Reads-then read_var_bytes _ (put_var_bytes wrapped) wrapped (parsed_output o)
        (read_var_bytes-Reads wrapped)
        (rw (split_wrapped o.token o.script w.token_width v small)
          (Reads-return (parsed_output o))))
      r rest at

read_outputs-Reads :
    (os : List TxOutput)
    → All IsWireOutput os
    → All (λ o. HasValidToken o.token) os
    → Reads (read_outputs (length os)) (encode_outputs os) (map parsed_output os)
unfolding read_outputs encode_outputs
read_outputs-Reads [] w v = Reads-return []
read_outputs-Reads (o ∷ os) (w, ws) (v, vs) =
    Reads-bind read_output _ (encode_output o) (encode_outputs os) (parsed_output o) _
      (read_output-Reads o w v)
      (Reads-map (read_outputs (length os)) _ (encode_outputs os) (map parsed_output os)
        (read_outputs-Reads os ws vs))

some-ne-none : (e : Error) → some e ≡ none → ⊥
some-ne-none e h = cc

validate_outputs-valid :
    (os : List TxOutput) → validate_outputs os ≡ none → All (λ o. HasValidToken o.token) os
unfolding validate_outputs
validate_outputs-valid [] e = tt
validate_outputs-valid (o ∷ os) e = elim (Option-cases (token_error o.token)) [
  | inl f ↦ (f, validate_outputs-valid os (rw (f, validate_outputs) at e))
  | inr (x, f) ↦ absurd (some-ne-none x (rw (f, validate_outputs) at e))
]

-- Each element of these lists takes a byte at least.
length-encode_outputs : (os : List TxOutput) → length os ≤ length (encode_outputs os)
unfolding encode_outputs encode_output
length-encode_outputs [] = omega arith
length-encode_outputs (o ∷ os) = omega (
  arith,
  length-append (encode_output o) (encode_outputs os),
  length-append (le 8 o.value) (put_var_bytes (optional_prefix o.token ++ o.script)),
  length-le 8 o.value,
  length-encode_outputs os,
)

length-encode_inputs :
    (c : Crypto) (tx : Transaction) (is : List TxInput) (ps : List (List ℕ))
    → length ps ≡ length is
    → length is ≤ length (encode_inputs c tx is ps)
unfolding encode_inputs encode_input
length-encode_inputs c tx [] ps e = omega arith
length-encode_inputs c tx (i ∷ is) [] e = absurd (omega arith)
length-encode_inputs c tx (i ∷ is) (p ∷ ps) e =
    let u = sign_input c tx i p in
    omega (
      arith,
      length-append (encode_input i u) (encode_inputs c tx is ps),
      length-append (outpoint i) (put_var_bytes u ++ le 4 i.sequence),
      length-append (put_var_bytes u) (le 4 i.sequence),
      length-put_var_bytes u,
      length-encode_inputs c tx is ps,
    )

abbrev pub parsed : Transaction → ParsedTx
parsed tx = record { inputs = map parsed_input tx.inputs; outputs = map parsed_output tx.outputs }

pub record IsWire (tx : Transaction) : Type 0 where
  pub version_width : tx.version < 2 ^ 32
  pub wire_inputs : All IsWireInput tx.inputs
  pub wire_outputs : All IsWireOutput tx.outputs

module _ (c : Crypto) (tx : Transaction) (privs : List (List ℕ)) where
  -- All but the lock time, which `parse_tx` leaves unread.
  read_part : List ℕ
  read_part =
      le 4 tx.version
      ++ (put_var_int (length tx.inputs)
          ++ (encode_inputs c tx tx.inputs privs
              ++ (put_var_int (length tx.outputs) ++ encode_outputs tx.outputs)))

  serialized-read_part : serialized c tx privs ≡ read_part ++ le 4 tx.lock_time
  unfolding serialized read_part
  serialized-read_part = simp append_assoc

  length-read_part :
      length privs ≡ length tx.inputs → length tx.inputs + length tx.outputs ≤ length read_part
  unfolding read_part
  length-read_part e =
      let outs : List ℕ = put_var_int (length tx.outputs) ++ encode_outputs tx.outputs in
      let ins : List ℕ = encode_inputs c tx tx.inputs privs in
      omega (
        arith,
        length-append (le 4 tx.version) (put_var_int (length tx.inputs) ++ (ins ++ outs)),
        length-append (put_var_int (length tx.inputs)) (ins ++ outs),
        length-append ins outs,
        length-append (put_var_int (length tx.outputs)) (encode_outputs tx.outputs),
        length-encode_inputs c tx tx.inputs privs e,
        length-encode_outputs tx.outputs,
      )

  read_tx-Reads :
      IsWire tx
      → length privs ≡ length tx.inputs
      → All (λ o. HasValidToken o.token) tx.outputs
      → length read_part < 2 ^ 63
      → Reads read_tx read_part (parsed tx)
  unfolding read_tx read_part
  read_tx-Reads w keys valid small =
      let n_in : IsU64 (length tx.inputs) = omega (arith, length-read_part keys) in
      let n_out : IsU64 (length tx.outputs) = omega (arith, length-read_part keys) in
      Reads-bind read_uint32 _ (le 4 tx.version) _ tx.version (parsed tx)
        (read_uint32-Reads tx.version w.version_width)
        (Reads-bind read_var_int _ (put_var_int (length tx.inputs)) _ (length tx.inputs) (parsed tx)
          (read_var_int-Reads (length tx.inputs) n_in)
          (Reads-bind (read_inputs (length tx.inputs)) _ (encode_inputs c tx tx.inputs privs) _
            (map parsed_input tx.inputs) (parsed tx)
            (read_inputs-Reads c tx tx.inputs privs w.wire_inputs keys)
            (Reads-bind read_var_int _ (put_var_int (length tx.outputs)) _ (length tx.outputs)
              (parsed tx) (read_var_int-Reads (length tx.outputs) n_out)
              (Reads-map (read_outputs (length tx.outputs)) _ (encode_outputs tx.outputs)
                (map parsed_output tx.outputs)
                (read_outputs-Reads tx.outputs w.wire_outputs valid)))))

serialize-eq-ok :
    (c : Crypto) (tx : Transaction) (privs : List (List ℕ)) (raw : List ℕ)
    → serialize c tx privs ≡ ok raw
    → (length privs ≡ length tx.inputs)
      × (validate_outputs tx.outputs ≡ none)
      × (serialized c tx privs ≡ raw)
unfolding serialize
serialize-eq-ok c tx privs raw e = ground arith

-- A transaction whose numbers fit their Go types, and whose scripts without a token do not start
-- with the token prefix byte, parses back from its serialization, of fewer than 2 ^ 63 bytes, to
-- its outpoints and outputs.
pub parse_tx-serialize :
    (c : Crypto) (tx : Transaction) (privs : List (List ℕ)) (raw : List ℕ)
    → IsWire tx
    → serialize c tx privs ≡ ok raw
    → length raw < 2 ^ 63
    → parse_tx raw ≡ ok (parsed tx)
unfolding parse_tx
parse_tx-serialize c tx privs raw w e small =
    let (keys, valid, bytes) = serialize-eq-ok c tx privs raw e in
    let split : raw ≡ read_part c tx privs ++ le 4 tx.lock_time =
      sym bytes ∙ serialized-read_part c tx privs in
    let r : ByteReader = record { buf = raw; pos = 0 } in
    let step : read_tx r ≡ ok (parsed tx, advance r (length (read_part c tx privs))) =
      (read_tx-Reads c tx privs w keys (validate_outputs-valid tx.outputs valid)
        (omega (arith, ap length split, length-append (read_part c tx privs) (le 4 tx.lock_time))) r
        (le 4 tx.lock_time) (record { within = omega arith; small = small; left = split })) in
    rw (step, parse_tx)
