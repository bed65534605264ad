-- ===== src/Node/Replicate.antt =====
-- internal/node/replicate.go, replicator: the pushes of a published set to the closest peers, and the
-- top-up of its replicas. The DHT's answers are lists of peers, none where a lookup fails; a push to
-- a peer answers a status, or none where it fails. What is returned beside the result is the peers
-- that were pushed to, in order.
mod Tests
pub mod Counts
use freedom_names.Common.{
  ℕ, zero, suc, ◌+◌, ◌-◌, ◌*◌, Bool, true, false, not, ◌&&◌, ◌||◌, List, [], ◌∷◌, ◌++◌, Option,
  none, some, String, str_eq, ltb, leb, ◌==◌, if◌then◌else◌,
}
use freedom_names.Common.Assoc.{member}
use freedom_names.Node.Push.{push_accept, push_have}

pub record Replicator : Type 0 where
  pub self : String
  pub replicas : ℕ
  pub closest : String → ℕ → Option (List String)
  pub providers : String → ℕ → Option (List String)
  pub push : String → String → Option ℕ

-- status == pushAccept || status == pushHave
unfoldable pub is_replica : Option ℕ → Bool
is_replica none = false
is_replica (some b) = b == push_accept || b == push_have

module _ (r : Replicator) (root : String) where
  -- The loop of replicate.
  unfoldable pub place : ℕ → List String → ℕ × List String
  place placed [] = (placed, [])
  place placed (p ∷ ps) =
      let kept = place (if is_replica (r.push p root) then suc placed else placed) ps in
      let skipped = place placed ps in
      if leb r.replicas placed
      then (placed, [])
      else if str_eq p r.self
      then skipped
      else (kept.0, p ∷ kept.1)

  unfoldable pub replicate : ℕ × List String
  replicate = elim (r.closest root (r.replicas * 2 + 2)) [
    | none ↦ (0, [])
    | some peers ↦ place 0 peers
  ]

-- The holders that are not known yet are counted once.
unfoldable pub count_holders : List String → ℕ → List String → List String × ℕ
count_holders known holders [] = (known, holders)
count_holders known holders (p ∷ ps) =
    let same = count_holders known holders ps in
    let more = count_holders (p ∷ known) (suc holders) ps in if member p known then same else more

module _ (r : Replicator) (root : String) where
  -- The loop of heal.
  unfoldable pub top_up : List String → ℕ → List String → ℕ × List String
  top_up known need [] = (need, [])
  top_up known need (p ∷ ps) =
      let kept = top_up known (if is_replica (r.push p root) then need - 1 else need) ps in
      let skipped = top_up known need ps in
      if need == 0 then (need, []) else if member p known then skipped else (kept.0, p ∷ kept.1)

  -- The peers pushed to, or none where heal returns an error.
  unfoldable pub heal_from : List String → ℕ → Option (List String)
  heal_from known holders =
      if leb (r.replicas + 1) holders
      then some []
      else elim (r.closest root ((r.replicas + 1) * 2 + 2)) [
        | none ↦ none
        | some peers ↦ some (top_up known (r.replicas + 1 - holders) peers).1
      ]

  unfoldable pub heal : Option (List String)
  heal = elim (r.providers root (r.replicas + 1 + 2)) [
    | none ↦ none
    | some found ↦
        let (known, holders) = count_holders (r.self ∷ []) 1 found in heal_from known holders
  ]
