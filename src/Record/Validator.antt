-- ===== src/Record/Validator.antt =====
-- internal/record/validator.go: the checks on a value of the DHT, and the choice among competing
-- values. SplitKey of go-libp2p-record is a parameter, none where it returns an error.
pub mod Ranks
pub mod Select
use freedom_names.Common.{
  ℕ, zero, suc, ◌+◌, Bool, true, false, not, ◌&&◌, ◌||◌, List, [], ◌∷◌, ◌++◌, Option, none, some,
  ltb, ◌==◌, if◌then◌else◌, length,
}
use freedom_names.Common.Bytes.{bytes_equal, bytes_less}
use freedom_names.Record.{Codec, FnRecord, RecordError, int_equal, int_less, verify}
use freedom_names.Record.Names.{dht_namespace, pub_key_id}

-- The errors of Validate; `bad_record` is one of Verify.
pub data ValidateError : Type 0 where
  bad_key wrong_namespace not_a_record no_key_id wrong_owner : ValidateError
  bad_record : RecordError → ValidateError

pub data SelectError : Type 0 where
  no_values no_valid_values : SelectError

-- An index, or an error.
pub data Selected : Type 0 where
  selected : ℕ → Selected
  refused : SelectError → Selected

-- betterRecord.
unfoldable pub better_record : FnRecord → FnRecord → List ℕ → List ℕ → Bool
better_record candidate current candidate_raw current_raw =
    if not (candidate.seq == current.seq)
    then ltb current.seq candidate.seq
    else if not (int_equal candidate.eol current.eol)
    then int_less current.eol candidate.eol
    else bytes_less current_raw candidate_raw

-- The best value so far: its index, its record and its bytes.
abbrev pub Best : Type 0
Best = Option (ℕ × (FnRecord × List ℕ))

module _ (c : Codec) where
  unfoldable pub validate :
      (List ℕ → Option (List ℕ × List ℕ)) → ℕ → List ℕ → List ℕ → Option ValidateError
  validate split_key now key value = elim (split_key key) [
    | none ↦ some bad_key
    | some (ns, key_id) ↦
        if not (bytes_equal ns dht_namespace)
        then some wrong_namespace
        else elim (c.unmarshal_fn_record value) [
          | none ↦ some not_a_record
          | some rec ↦ elim (pub_key_id c rec.pub_key) [
            | none ↦ some no_key_id
            | some want_id ↦
                if not (bytes_equal want_id key_id)
                then some wrong_owner
                else elim (verify c now rec) [ none ↦ none | some e ↦ some (bad_record e) ]
          ]
        ]
  ]

  -- One round of the loop of Select.
  unfoldable pub weigh : ℕ → List ℕ → Best → Best
  weigh i val best = elim (c.unmarshal_fn_record val) [
    | none ↦ best
    | some rec ↦ elim best [
      | none ↦ some (i, (rec, val))
      | some (j, (best_rec, best_val)) ↦
          if better_record rec best_rec val best_val
          then some (i, (rec, val))
          else some (j, (best_rec, best_val))
    ]
  ]

  unfoldable pub select_from : ℕ → List (List ℕ) → Best → Best
  select_from i [] best = best
  select_from i (val ∷ vals) best = select_from (suc i) vals (weigh i val best)

  unfoldable pub select : List (List ℕ) → Selected
  select vals = if length vals == 0 then refused no_values else elim (select_from 0 vals none) [
    | none ↦ refused no_valid_values
    | some (i, _) ↦ selected i
  ]
