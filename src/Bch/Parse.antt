-- ===== src/Bch/Parse.antt =====
-- internal/bch/bchtx.go, reading raw transactions and scripts.
pub mod Scripts
pub mod RoundTrip
pub mod Panics
pub mod Total
use freedom_names.Common.{
  ℕ, zero, suc, ◌+◌, ◌*◌, ◌<◌, Bool, List, [], ◌∷◌, ◌++◌, Option, none, some, true, false, not,
  ◌&&◌, ◌||◌, ltb, leb, ◌==◌, if◌then◌else◌, length, take, drop, get_or,
}
use freedom_names.Bch.Encode.{
  op_dup, op_hash160, op_equal_verify, op_check_sig, op_return, op_push_data1, op_push_data2,
}
use freedom_names.Bch.Reader.{
  Outcome, ok, err, panic, out_of_fuel, ByteReader, Reading, ◌>>=◌, ◌>>◌, return, read_byte,
  read_bytes, read_uint32, read_int64, read_var_int, read_var_bytes,
}
use freedom_names.Bch.Token.{TokenInfo, split_token_prefix}

pub record ParsedInput : Type 0 where
  pub prev_tx_id : List ℕ
  pub prev_index : ℕ

pub record ParsedOutput : Type 0 where
  pub value : ℕ
  pub script : List ℕ
  pub token : Option TokenInfo

pub record ParsedTx : Type 0 where
  pub inputs : List ParsedInput
  pub outputs : List ParsedOutput

-- A parser of a part of the input, which does not move the reader.
abbrev pub lift {ℓ} : {A : Type ℓ} → Outcome A → Reading A
lift (ok a) r = ok (a, r)
lift (err e) r = err e
lift panic r = panic

unfoldable pub read_input : Reading ParsedInput
read_input = do
  prev_id ← read_bytes 32
  idx ← read_uint32
  script ← read_var_bytes
  sequence ← read_uint32
  return (record { prev_tx_id = prev_id; prev_index = idx })

unfoldable pub read_inputs : ℕ → Reading (List ParsedInput)
read_inputs zero = return []
read_inputs (suc n) = do i ← read_input; is ← read_inputs n; return (i ∷ is)

unfoldable pub read_output : Reading ParsedOutput
read_output = do
  value ← read_int64
  wrapped ← read_var_bytes
  (token, script) ← lift (split_token_prefix wrapped)
  return (record { value = value; script = script; token = token })

unfoldable pub read_outputs : ℕ → Reading (List ParsedOutput)
read_outputs zero = return []
read_outputs (suc n) = do o ← read_output; os ← read_outputs n; return (o ∷ os)

unfoldable pub read_tx : Reading ParsedTx
read_tx = do
  version ← read_uint32
  n_in ← read_var_int
  inputs ← read_inputs n_in
  n_out ← read_var_int
  outputs ← read_outputs n_out
  return (record { inputs = inputs; outputs = outputs })

-- What is left behind the outputs is not looked at.
unfoldable pub parse_tx : List ℕ → Outcome ParsedTx
parse_tx raw = elim (read_tx (record { buf = raw; pos = 0 })) [
  | ok (tx, r) ↦ ok tx
  | err e ↦ err e
  | panic ↦ panic
]

-- nil, here `none`, if the script is not P2PKH.
unfoldable pub p2pkh_hash : List ℕ → Option (List ℕ)
p2pkh_hash script =
    if length script == 25
      && (get_or script 0 0 == op_dup
          && (get_or script 1 0 == op_hash160
              && (get_or script 2 0 == 20
                  && (get_or script 23 0 == op_equal_verify
                      && get_or script 24 0 == op_check_sig))))
    then some (take 20 (drop 3 script))
    else none

-- The length of a push, by its opcode; `none` ends the scan.
unfoldable pub read_push_len : Reading (Option ℕ)
read_push_len = do
  op ← read_byte
  if ltb op op_push_data1
      then return (some op)
      else if op == op_push_data1
      then (do b ← read_byte; return (some b))
      else if op == op_push_data2
      then (do lo ← read_byte; hi ← read_byte; return (some (lo + hi * 256)))
      else return none

-- The bytes of a push whose length was read.
unfoldable pub push_bytes : Option ℕ → Reading (Option (List ℕ))
push_bytes none = return none
push_bytes (some n) = do b ← read_bytes n; return (some b)

unfoldable pub read_push : Reading (Option (List ℕ))
read_push = do n ← read_push_len; push_bytes n

abbrev cons_push : List ℕ → Outcome (List (List ℕ)) → Outcome (List (List ℕ))
cons_push d (ok ds) = ok (d ∷ ds)
cons_push d (err e) = err e
cons_push d panic = panic

-- What a round of the loop does with the push that it read: an unreadable one ends the scan.
unfoldable pub keep_push :
    (ByteReader → Outcome (List (List ℕ)))
    → Outcome (Option (List ℕ) × ByteReader)
    → Outcome (List (List ℕ))
keep_push scan (ok (some d, r)) = cons_push d (scan r)
keep_push scan (ok (none, r)) = ok []
keep_push scan (err e) = ok []
keep_push scan panic = panic

-- The loop of parseOpReturn. Where its fuel is out before its condition fails, it has not ended.
unfoldable pub scan_pushes : ℕ → ByteReader → Outcome (List (List ℕ))
unfolding keep_push
scan_pushes zero r = if leb (length r.buf) r.pos then ok [] else err out_of_fuel
scan_pushes (suc fuel) r = elim (leb (length r.buf) r.pos) [
  | true ↦ ok []
  | false ↦ keep_push (scan_pushes fuel) (read_push r)
]

-- nil and an empty slice are both the empty list.
unfoldable pub parse_op_return : List ℕ → Outcome (List (List ℕ))
parse_op_return script =
    if length script == 0 || not (get_or script 0 0 == op_return)
    then ok []
    else scan_pushes (length script) (record { buf = script; pos = 1 })
