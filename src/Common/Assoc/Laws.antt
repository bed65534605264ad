-- ===== src/Common/Assoc/Laws.antt =====
-- The laws of the maps and sets, in a form without side conditions.
use Prim.Native.String.{String}
use mathlib.Core.Path.{◌≡◌, refl}
use mathlib.Core.Bool.{true, false, not, ◌&&◌, ◌||◌}
use mathlib.Core.Option.{none, some}
use mathlib.Core.List.{List, [], ◌∷◌}
use native.Mathlib.Omega.{arith}
use text.Mathlib.TextEquality.{eq_iff}
use freedom_names.Common.Tests.{str_eq, if◌then◌else◌}
use freedom_names.Common.Assoc.{has_key, lookup, insert, remove, member, add, delete}

module _ {ℓ} {V : Type ℓ} where
  pub lookup-insert :
      (j k : String) (v : V) (m : List (String × V))
      → lookup j (insert k v m) ≡ (if str_eq k j then some v else lookup j m)
  unfolding lookup insert
  lookup-insert j k v [] = refl
  lookup-insert j k v ((i, w) ∷ m) =
      ground (arith, eq_iff k j, eq_iff i k, eq_iff i j, lookup-insert j k v m)

  pub lookup-remove :
      (j k : String) (m : List (String × V))
      → lookup j (remove k m) ≡ (if str_eq k j then none else lookup j m)
  unfolding lookup remove
  lookup-remove j k [] = ground arith
  lookup-remove j k ((i, w) ∷ m) =
      ground (arith, eq_iff k j, eq_iff i k, eq_iff i j, lookup-remove j k m)

pub member-add : (j k : String) (s : List String) → member j (add k s) ≡ (str_eq k j || member j s)
unfolding add member
member-add j k s = ground (arith, member-self j k s)
  where
    member-self : (j k : String) (s : List String) → str_eq k j ≡ true → member j s ≡ member k s
    member-self j k [] e = refl
    member-self j k (i ∷ s) e = ground (arith, eq_iff k j, member-self j k s e)

pub member-delete :
    (j k : String) (s : List String) → member j (delete k s) ≡ (not (str_eq k j) && member j s)
unfolding delete member
member-delete j k [] = ground arith
member-delete j k (i ∷ s) = ground (arith, eq_iff k j, eq_iff i k, eq_iff i j, member-delete j k s)

-- A key stands once, as in a Go map.
abbrev pub IsMap {ℓ} : {V : Type ℓ} → List (String × V) → Type 0
IsMap [] = Unit
IsMap ((k, v) ∷ m) = (has_key k m ≡ false) × IsMap m

module _ {ℓ} {V : Type ℓ} where
  pub has_key-remove :
      (j k : String) (m : List (String × V))
      → has_key j (remove k m) ≡ (not (str_eq k j) && has_key j m)
  unfolding has_key remove
  has_key-remove j k [] = ground arith
  has_key-remove j k ((i, w) ∷ m) =
      ground (arith, eq_iff k j, eq_iff i k, eq_iff i j, has_key-remove j k m)

  pub has_key-insert :
      (j k : String) (v : V) (m : List (String × V))
      → has_key j (insert k v m) ≡ (str_eq k j || has_key j m)
  unfolding has_key insert
  has_key-insert j k v [] = ground arith
  has_key-insert j k v ((i, w) ∷ m) =
      ground (arith, eq_iff k j, eq_iff i k, eq_iff i j, has_key-insert j k v m)

  pub remove-IsMap : (k : String) (m : List (String × V)) → IsMap m → IsMap (remove k m)
  unfolding remove
  remove-IsMap k [] u = tt
  remove-IsMap k ((i, w) ∷ m) (new, u) = ground (arith, has_key-remove i k m, remove-IsMap k m u)

  pub insert-IsMap : (k : String) (v : V) (m : List (String × V)) → IsMap m → IsMap (insert k v m)
  unfolding insert has_key
  insert-IsMap k v [] u = (refl, tt)
  insert-IsMap k v ((i, w) ∷ m) (new, u) =
      ground (arith, eq_iff i k, eq_iff k i, has_key-insert i k v m, insert-IsMap k v m u)

  pub lookup-has_key :
      (k : String) (m : List (String × V)) → has_key k m ≡ false → lookup k m ≡ none
  unfolding has_key lookup
  lookup-has_key k [] e = refl
  lookup-has_key k ((i, w) ∷ m) e = ground (arith, lookup-has_key k m)

  pub remove-missing : (k : String) (m : List (String × V)) → has_key k m ≡ false → remove k m ≡ m
  unfolding has_key remove
  remove-missing k [] e = refl
  remove-missing k ((i, w) ∷ m) e = ground (arith, remove-missing k m)
