-- ===== src/Common/Xor.antt =====
-- The exclusive or of native numbers: it acts on the binary digits one by one.
use Prim.Native.Nat.{
  ℕ, zero, suc, ◌+◌, ◌*◌, ◌/◌, ◌%◌, ◌^◌, ◌≤◌, ◌<◌, bit_xor, bit_xor-bitwise, differ,
}
use mathlib.Core.Path.{◌≡◌, refl, sym, ◌∙◌}
use native.Mathlib.Omega.{arith}
use freedom_names.Common.Bits.{
  bitwise-halves, halves, half_shifted, parity_shifted, below_one, plain,
}

pub xor-zero_left : (b : ℕ) → bit_xor 0 b ≡ b
xor-zero_left b = bit_xor-bitwise 0 b

-- The digits above the lowest, and the lowest.
xor-halves : (a b : ℕ) → bit_xor a b ≡ bit_xor (a / 2) (b / 2) * 2 + differ (a % 2) (b % 2)
xor-halves a b =
    rw (bit_xor-bitwise a b, bit_xor-bitwise (a / 2) (b / 2))
      (bitwise-halves differ (λ y. refl) a b)

differ_bound : (x y : ℕ) → x < 2 → y < 2 → differ x y < 2
differ_bound zero y h k = k
differ_bound (suc x) zero h k = h
differ_bound (suc x) (suc y) h k = differ_bound x y (omega (arith, h)) (omega (arith, k))

differ_comm : (x y : ℕ) → differ x y ≡ differ y x
differ_comm zero zero = refl
differ_comm zero (suc y) = refl
differ_comm (suc x) zero = refl
differ_comm (suc x) (suc y) = differ_comm x y

differ_self : (x : ℕ) → differ x x ≡ 0
differ_self zero = refl
differ_self (suc x) = differ_self x

differ_assoc : (x y z : ℕ) → x < 2 → y < 2 → z < 2 → differ (differ x y) z ≡ differ x (differ y z)
differ_assoc zero y z h k l = refl
differ_assoc (suc zero) zero z h k l = refl
differ_assoc (suc zero) (suc zero) zero h k l = refl
differ_assoc (suc zero) (suc zero) (suc zero) h k l = refl
differ_assoc (suc zero) (suc zero) (suc (suc z)) h k l = absurd (omega (arith, l))
differ_assoc (suc zero) (suc (suc y)) z h k l = absurd (omega (arith, k))
differ_assoc (suc (suc x)) y z h k l = absurd (omega (arith, h))

xor-half : (a b : ℕ) → bit_xor a b / 2 ≡ bit_xor (a / 2) (b / 2)
xor-half a b =
    omega (arith, xor-halves a b, differ_bound (a % 2) (b % 2) (omega arith) (omega arith))

xor-parity : (a b : ℕ) → bit_xor a b % 2 ≡ differ (a % 2) (b % 2)
xor-parity a b =
    omega (arith, xor-halves a b, differ_bound (a % 2) (b % 2) (omega arith) (omega arith))

-- On numbers up to n.
module _ where
  comm_upto : (n a b : ℕ) → a ≤ n → b ≤ n → bit_xor a b ≡ bit_xor b a
  comm_upto zero zero zero h k = refl
  comm_upto zero zero (suc b) h k = absurd (omega (arith, k))
  comm_upto zero (suc a) b h k = absurd (omega (arith, h))
  comm_upto (suc n) a b h k =
      halves _ _
        (xor-half a b
          ∙ comm_upto n (a / 2) (b / 2) (omega (arith, h)) (omega (arith, k))
          ∙ sym (xor-half b a))
        (xor-parity a b ∙ differ_comm (a % 2) (b % 2) ∙ sym (xor-parity b a))

  self_upto : (n a : ℕ) → a ≤ n → bit_xor a a ≡ 0
  self_upto zero zero h = refl
  self_upto zero (suc a) h = absurd (omega (arith, h))
  self_upto (suc n) a h =
      halves _ _ (xor-half a a ∙ self_upto n (a / 2) (omega (arith, h)))
        (xor-parity a a ∙ differ_self (a % 2))

  assoc_upto :
      (n a b c : ℕ) → a ≤ n → b ≤ n → c ≤ n → bit_xor (bit_xor a b) c ≡ bit_xor a (bit_xor b c)
  assoc_upto zero zero zero zero h k l = refl
  assoc_upto zero zero zero (suc c) h k l = absurd (omega (arith, l))
  assoc_upto zero zero (suc b) c h k l = absurd (omega (arith, k))
  assoc_upto zero (suc a) b c h k l = absurd (omega (arith, h))
  assoc_upto (suc n) a b c h k l =
      halves _ _
        (rw (xor-half (bit_xor a b) c, xor-half a b, xor-half a (bit_xor b c), xor-half b c)
          (assoc_upto n (a / 2) (b / 2) (c / 2) (omega (arith, h)) (omega (arith, k))
            (omega (arith, l))))
        (rw (xor-parity (bit_xor a b) c, xor-parity a b, xor-parity a (bit_xor b c), xor-parity b c)
          (differ_assoc (a % 2) (b % 2) (c % 2) (omega arith) (omega arith) (omega arith)))

pub xor_comm : (a b : ℕ) → bit_xor a b ≡ bit_xor b a
xor_comm a b = comm_upto (a + b) a b (omega arith) (omega arith)

pub xor_self : (a : ℕ) → bit_xor a a ≡ 0
xor_self a = self_upto a a (omega arith)

pub xor_assoc : (a b c : ℕ) → bit_xor (bit_xor a b) c ≡ bit_xor a (bit_xor b c)
xor_assoc a b c = assoc_upto (a + b + c) a b c (omega arith) (omega arith) (omega arith)

pub xor-zero_right : (a : ℕ) → bit_xor a 0 ≡ a
xor-zero_right a = xor_comm a 0 ∙ xor-zero_left a

-- No digit is carried.
pub xor_bound : (k a b : ℕ) → a < 2 ^ k → b < 2 ^ k → bit_xor a b < 2 ^ k
xor_bound zero a b h l = rw (below_one a h, below_one b l) (omega arith)
xor_bound (suc k) a b h l =
    omega (arith, xor-half a b, xor_bound k (a / 2) (b / 2) (omega (arith, h)) (omega (arith, l)))

-- The digits above the k lowest, and those, apart.
pub xor-split :
    (k a b i j : ℕ)
    → i < 2 ^ k
    → j < 2 ^ k
    → bit_xor (a * 2 ^ k + i) (b * 2 ^ k + j) ≡ bit_xor a b * 2 ^ k + bit_xor i j
xor-split zero a b i j h l =
    rw (below_one i h, below_one j l, xor-zero_left 0, plain a, plain b) (omega arith)
xor-split (suc k) a b i j h l =
    halves _ _
      (rw
        (
          xor-half (a * 2 ^ suc k + i) (b * 2 ^ suc k + j),
          half_shifted k a i,
          half_shifted k b j,
          half_shifted k (bit_xor a b) (bit_xor i j),
          xor-half i j,
        )
        (xor-split k a b (i / 2) (j / 2) (omega (arith, h)) (omega (arith, l))))
      (rw
        (
          xor-parity (a * 2 ^ suc k + i) (b * 2 ^ suc k + j),
          parity_shifted k a i,
          parity_shifted k b j,
          parity_shifted k (bit_xor a b) (bit_xor i j),
          xor-parity i j,
        )
        refl)
