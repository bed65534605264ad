-- ===== src/Common/Bytes.antt =====
-- Byte slices as lists of numbers: bytes.Equal and bytes.Compare.
use Prim.Native.Nat.{ℕ}
use mathlib.Core.Path.{◌≡◌, refl, subst}
use mathlib.Core.Bool.{Bool, true, false, ◌&&◌, ◌||◌}
use mathlib.Core.List.{List, [], ◌∷◌}
use mathlib.Core.Logic.{◌↔◌}
use native.Mathlib.Omega.{arith}
use freedom_names.Common.Tests.{ltb, ◌==◌}

unfoldable pub bytes_equal : List ℕ → List ℕ → Bool
bytes_equal [] [] = true
bytes_equal [] (y ∷ ys) = false
bytes_equal (x ∷ xs) [] = false
bytes_equal (x ∷ xs) (y ∷ ys) = x == y && bytes_equal xs ys

-- bytes.Compare(a, b) < 0.
unfoldable pub bytes_less : List ℕ → List ℕ → Bool
bytes_less [] [] = false
bytes_less [] (y ∷ ys) = true
bytes_less (x ∷ xs) [] = false
bytes_less (x ∷ xs) (y ∷ ys) = ltb x y || x == y && bytes_less xs ys

pub bytes_equal→≡ : (a b : List ℕ) → bytes_equal a b ≡ true → a ≡ b
unfolding bytes_equal
bytes_equal→≡ [] [] e = refl
bytes_equal→≡ [] (y ∷ ys) e = cc
bytes_equal→≡ (x ∷ xs) [] e = cc
bytes_equal→≡ (x ∷ xs) (y ∷ ys) e = ground (arith, bytes_equal→≡ xs ys)

pub bytes_equal_refl : (b : List ℕ) → bytes_equal b b ≡ true
unfolding bytes_equal
bytes_equal_refl [] = refl
bytes_equal_refl (x ∷ xs) = ground (arith, bytes_equal_refl xs)

pub bytes_less_trans :
    (a b c : List ℕ) → bytes_less a b ≡ true → bytes_less b c ≡ true → bytes_less a c ≡ true
unfolding bytes_less
bytes_less_trans [] [] c e f = cc
bytes_less_trans [] (y ∷ ys) [] e f = cc
bytes_less_trans [] (y ∷ ys) (z ∷ zs) e f = refl
bytes_less_trans (x ∷ xs) [] c e f = cc
bytes_less_trans (x ∷ xs) (y ∷ ys) [] e f = cc
bytes_less_trans (x ∷ xs) (y ∷ ys) (z ∷ zs) e f = ground (arith, bytes_less_trans xs ys zs)

pub bytes_less_irrefl : (a : List ℕ) → bytes_less a a ≡ false
unfolding bytes_less
bytes_less_irrefl [] = refl
bytes_less_irrefl (x ∷ xs) = ground (arith, bytes_less_irrefl xs)

-- Of two slices that neither precede nor follow one another, each is the other.
pub bytes_less_connex : (a b : List ℕ) → bytes_less a b ≡ false → bytes_less b a ≡ false → a ≡ b
unfolding bytes_less
bytes_less_connex [] [] e f = refl
bytes_less_connex [] (y ∷ ys) e f = cc
bytes_less_connex (x ∷ xs) [] e f = cc
bytes_less_connex (x ∷ xs) (y ∷ ys) e f = ground (arith, bytes_less_connex xs ys)

-- What does not precede a slice does not precede what does not precede that slice.
pub bytes_less_cotrans :
    (a b c : List ℕ) → bytes_less a b ≡ false → bytes_less b c ≡ false → bytes_less a c ≡ false
unfolding bytes_less
bytes_less_cotrans [] [] c e f = f
bytes_less_cotrans [] (y ∷ ys) c e f = cc
bytes_less_cotrans (x ∷ xs) [] [] e f = refl
bytes_less_cotrans (x ∷ xs) [] (z ∷ zs) e f = cc
bytes_less_cotrans (x ∷ xs) (y ∷ ys) [] e f = refl
bytes_less_cotrans (x ∷ xs) (y ∷ ys) (z ∷ zs) e f = ground (arith, bytes_less_cotrans xs ys zs)

pub bytes_equal_iff : (a b : List ℕ) → (bytes_equal a b ≡ true) ↔ (a ≡ b)
bytes_equal_iff a b =
    (bytes_equal→≡ a b, λ e. subst (λ c. bytes_equal a c ≡ true) e (bytes_equal_refl a))
