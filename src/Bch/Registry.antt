-- ===== src/Bch/Registry.antt =====
-- internal/bch/registry_bch.go: the owner of a name, read from the chain. A transaction id is its
-- bytes in internal order; a height that is not positive is 0. The electrum server's answers are a
-- parameter, none where a call fails.
pub mod Resolve
pub mod Claims
pub mod Custody
pub mod Owner
pub mod NotFound
pub mod Cache
mod Tests
use freedom_names.Common.{
  ℕ, zero, suc, ◌+◌, ◌-◌, ◌*◌, Bool, true, false, not, ◌&&◌, ◌||◌, List, [], ◌∷◌, ◌++◌, Option,
  none, some, ltb, leb, ◌==◌, if◌then◌else◌, length, take, drop,
}
use freedom_names.Bch.Crypto.{Crypto, hash160}
use freedom_names.Bch.Reader.{Outcome, ok, err, panic}
use freedom_names.Bch.Token.{TokenInfo}
use freedom_names.Bch.Tx.{tx_id}
use freedom_names.Bch.Parse.{ParsedTx, ParsedInput, ParsedOutput, parse_tx, parse_op_return}
use freedom_names.Bch.Wallet.Build.{fn_claim_tag, fn_rebind_tag, marker_script}
use freedom_names.Common.Bytes.{bytes_equal, bytes_less}

abbrev pub max_custody_hops : ℕ
max_custody_hops = 64

abbrev pub max_history_scan : ℕ
max_history_scan = 512

-- electrumHistoryItem.
pub record HistoryItem : Type 0 where
  pub tx_hash : List ℕ
  pub height : ℕ

-- The server, and the parser of marshalled public keys of libp2p.
pub record Chain : Type 0 where
  pub block_height : Option ℕ
  pub get_history : List ℕ → Option (List HistoryItem)
  pub get_raw_transaction : List ℕ → Option (List ℕ)
  pub is_owner_key : List ℕ → Bool

pub data LookupError : Type 0 where
  not_found history_truncated server_failed bad_transaction : LookupError

pub data Lookup {ℓ} (A : Type ℓ) : Type ℓ where
  found : A → Lookup A
  failed : LookupError → Lookup A
  crashed : Lookup A

abbrev pub and_then {ℓ κ} : {A : Type ℓ} {B : Type κ} → Lookup A → (A → Lookup B) → Lookup B
and_then (found a) f = f a
and_then (failed e) f = failed e
and_then crashed f = crashed

abbrev pub or_fail {ℓ} : {A : Type ℓ} → LookupError → Option A → Lookup A
or_fail e none = failed e
or_fail e (some a) = found a

unfoldable pub oldest_history : List HistoryItem → List HistoryItem × Bool
oldest_history history =
    if leb (length history) max_history_scan
    then (history, false)
    else (take max_history_scan history, true)

unfoldable pub newest_first : List HistoryItem → List HistoryItem
newest_first [] = []
newest_first (h ∷ hs) = newest_first hs ++ (h ∷ [])

unfoldable pub newest_history : List HistoryItem → List HistoryItem × Bool
newest_history history =
    if ltb max_history_scan (length history)
    then (newest_first (drop (length history - max_history_scan) history), true)
    else (newest_first history, false)

-- `tip - height + 1 >= minConf`, without the subtraction.
unfoldable pub confirmed : ℕ → ℕ → ℕ → Bool
confirmed height tip min_conf = ltb 0 height && leb (min_conf + height) (tip + 1)

abbrev pub pushes_of : Outcome (List (List ℕ)) → List (List ℕ)
pushes_of (ok ds) = ds
pushes_of (err e) = []
pushes_of panic = []

-- The tag and the key of one output's pushes.
module _ (is_owner_key : List ℕ → Bool) (label : List ℕ) where
  unfoldable pub fn_pushes : List (List ℕ) → Option (List ℕ × List ℕ)
  fn_pushes (tag ∷ name ∷ pub_key ∷ rest) =
      if (bytes_equal tag fn_claim_tag || bytes_equal tag fn_rebind_tag)
        && (bytes_equal name label && is_owner_key pub_key)
      then some (tag, pub_key)
      else none
  fn_pushes [] = none
  fn_pushes (tag ∷ []) = none
  fn_pushes (tag ∷ name ∷ []) = none

  -- parseFNMetadata, over the outputs.
  unfoldable pub parse_fn_metadata : List ParsedOutput → Option (List ℕ × List ℕ)
  parse_fn_metadata [] = none
  parse_fn_metadata (o ∷ os) = elim (fn_pushes (pushes_of (parse_op_return o.script))) [
    | some m ↦ some m
    | none ↦ parse_fn_metadata os
  ]

pub record Claim : Type 0 where
  pub tx : ParsedTx
  pub claim_id : List ℕ
  pub claim_height : ℕ

-- The earliest claim wins, the smaller transaction id among those of one height.
unfoldable pub is_earlier : ℕ → List ℕ → Option Claim → Bool
is_earlier height id none = true
is_earlier height id (some c) =
    ltb height c.claim_height || height == c.claim_height && bytes_less id c.claim_id

unfoldable pub keep_claim : List ℕ → ParsedTx → HistoryItem → Option Claim → Option Claim
keep_claim tag tx h claim =
    if bytes_equal tag fn_claim_tag && is_earlier h.height h.tx_hash claim
    then some (record { tx = tx; claim_id = h.tx_hash; claim_height = h.height })
    else claim

-- What the scan of `resolve` collects: the keys that were revealed, the last first, and the claim.
-- The map from key hash to key answers with the first key of that hash.
pub record Scan : Type 0 where
  pub bindings : List (List ℕ)
  pub claim : Option Claim

abbrev pub no_scan : Scan
no_scan = record { bindings = []; claim = none }

-- genesisCategory.
unfoldable pub genesis_category : List ParsedInput → Option (List ℕ)
genesis_category [] = none
genesis_category (i ∷ is) = if i.prev_index == 0 then some i.prev_tx_id else genesis_category is

-- A token output: its position, its commitment and its script.
pub record Holder : Type 0 where
  pub holder_id : List ℕ
  pub holder_index : ℕ
  pub commitment : List ℕ
  pub script : List ℕ

-- The first output from position `n` on that carries the category.
unfoldable pub find_token : List ℕ → List ℕ → ℕ → List ParsedOutput → Option Holder
find_token category id n [] = none
find_token category id n (o ∷ os) =
    let rest = find_token category id (n + 1) os in
    elim o.token [
      | none ↦ rest
      | some t ↦
          if bytes_equal t.category_id category
          then some (record {
            holder_id = id;
            holder_index = n;
            commitment = t.commitment;
            script = o.script;
          })
          else rest
    ]

unfoldable pub spends : Holder → List ParsedInput → Bool
spends o [] = false
spends o (i ∷ is) =
    i.prev_index == o.holder_index && bytes_equal i.prev_tx_id o.holder_id || spends o is
