-- ===== src/Common/Texts.antt =====
-- A Go string and its bytes, string(buf) and []byte(s). A byte is the character of its number.
use Prim.Native.Char.{Char, char, code, IsScalar, nul}
use Prim.Native.Nat.{ℕ, ◌<◌, Ordering, compare}
use Prim.Native.String.{String}
use mathlib.Core.Path.{◌≡◌, refl, ap}
use mathlib.Core.List.{List, [], ◌∷◌}
use native.Mathlib.Omega.{arith}

abbrev pub codes : String → List ℕ
codes String.[] = []
codes (String.◌∷◌ c s) = code c ∷ codes s

pub low-IsScalar : (n : ℕ) → compare n 256 ≡ Ordering.lt → IsScalar n
low-IsScalar n e = let low : compare n 55296 ≡ Ordering.lt = ground arith in rw low tt

abbrev pub char_by : (n : ℕ) (o : Ordering) → compare n 256 ≡ o → Char
char_by n Ordering.lt e = char n (low-IsScalar n e)
char_by n Ordering.eq e = nul
char_by n Ordering.gt e = nul

-- A number that is no byte is none that a string holds.
unfoldable pub char_of : ℕ → Char
char_of n = char_by n (compare n 256) refl

unfoldable pub text_of : List ℕ → String
text_of [] = String.[]
text_of (b ∷ bs) = String.◌∷◌ (char_of b) (text_of bs)

IsScalar-prop : (n : ℕ) → n < 256 → IsProp (IsScalar n)
IsScalar-prop n small =
    let low : compare n 55296 ≡ Ordering.lt = ground arith in rw low (λ x y. refl)

char_by-char :
    (n : ℕ) (p : IsScalar n) (o : Ordering) (e : compare n 256 ≡ o)
    → n < 256
    → char_by n o e ≡ char n p
char_by-char n p Ordering.lt e small = ap (char n) (IsScalar-prop n small (low-IsScalar n e) p)
char_by-char n p Ordering.eq e small = absurd (ground arith)
char_by-char n p Ordering.gt e small = absurd (ground arith)

char_of-code : (c : Char) → code c < 256 → char_of (code c) ≡ c
unfolding char_of
char_of-code (char n p) small = char_by-char n p (compare n 256) refl small

-- Each character is a byte.
abbrev pub IsLatin : String → Type 0
IsLatin String.[] = Unit
IsLatin (String.◌∷◌ c s) = (code c < 256) × IsLatin s

pub text_of-codes : (s : String) → IsLatin s → text_of (codes s) ≡ s
unfolding text_of
text_of-codes String.[] u = refl
text_of-codes (String.◌∷◌ c s) (small, u) = rw (char_of-code c small, text_of-codes s u) refl
