-- ===== src/Common/Assoc.antt =====
-- Go maps with text keys as association lists, and map[string]bool as a list of texts.
pub mod Laws
use Prim.Native.Nat.{ℕ}
use Prim.Native.String.{String}
use mathlib.Core.Bool.{Bool, true, false, not, ◌&&◌, ◌||◌}
use mathlib.Core.Option.{Option, none, some}
use mathlib.Core.List.{List, [], ◌∷◌}
use freedom_names.Common.Tests.{str_eq, if◌then◌else◌}

module _ {ℓ} {V : Type ℓ} where
  unfoldable pub lookup : String → List (String × V) → Option V
  lookup k [] = none
  lookup k ((j, v) ∷ m) = if str_eq j k then some v else lookup k m

  -- m[k] = v
  unfoldable pub insert : String → V → List (String × V) → List (String × V)
  insert k v [] = (k, v) ∷ []
  insert k v ((j, w) ∷ m) = if str_eq j k then (j, v) ∷ m else (j, w) ∷ insert k v m

  -- delete(m, k)
  unfoldable pub remove : String → List (String × V) → List (String × V)
  remove k [] = []
  remove k ((j, v) ∷ m) = let rest = remove k m in if str_eq j k then rest else (j, v) ∷ rest

-- _, ok := m[k]
unfoldable pub has_key {ℓ} : {V : Type ℓ} → String → List (String × V) → Bool
has_key k [] = false
has_key k ((j, v) ∷ m) = str_eq j k || has_key k m

-- s[k], of a set.
unfoldable pub member : String → List String → Bool
member k [] = false
member k (j ∷ s) = str_eq j k || member k s

-- s[k] = true
unfoldable pub add : String → List String → List String
unfolding member
add k s = if member k s then s else k ∷ s

-- delete(s, k)
unfoldable pub delete : String → List String → List String
delete k [] = []
delete k (j ∷ s) = let rest = delete k s in if str_eq j k then rest else j ∷ rest

-- len(s) == 0
abbrev pub is_empty {ℓ} : {A : Type ℓ} → List A → Bool
is_empty [] = true
is_empty (x ∷ xs) = false
