-- ===== src/Common/Bits.antt =====
-- The binary digits of native numbers, and the inclusive or, which is a sum where no digits meet.
use Prim.Native.Nat.{
  ℕ, zero, suc, ◌+◌, ◌*◌, ◌/◌, ◌%◌, ◌^◌, ◌≤◌, ◌<◌, bit_or, bit_or-bitwise, bitwise, digits, max,
}
use mathlib.Core.Path.{◌≡◌, refl, sym, ap, ◌∙◌}
use native.Mathlib.Omega.{arith}

module _ (f : ℕ → ℕ → ℕ) where
  -- The value of the lowest digits, with the halves above them.
  abbrev with_lowest : ℕ → ℕ → ℕ → ℕ
  with_lowest a b above = above * 2 + f (a % 2) (b % 2)

  run_out : (fuel b : ℕ) → digits (λ y. y) f fuel 0 b ≡ b
  run_out zero b = refl
  run_out (suc fuel) b = refl

  -- Any fuel of at least a, and at most a bound for the induction, gives what a rounds give.
  enough :
      (bound fuel a b : ℕ)
      → fuel ≤ bound
      → a ≤ fuel
      → digits (λ y. y) f fuel a b ≡ bitwise (λ y. y) f a b
  enough bound fuel zero b l k = run_out fuel b
  enough bound zero (suc a) b l k = absurd (omega (arith, k))
  enough zero (suc fuel) (suc a) b l k = absurd (omega (arith, l))
  enough (suc bound) (suc fuel) (suc a) b l k =
      let ha = suc a / 2 in
      let hb = b / 2 in
      let left = enough bound fuel ha hb (omega (arith, l)) (omega (arith, k)) in
      let right = enough bound a ha hb (omega (arith, l, k)) (omega arith) in
      ap (with_lowest (suc a) b) (left ∙ sym right)

  -- The digits above the lowest, and the lowest.
  pub bitwise-halves :
      ((y : ℕ) → f 0 y ≡ y)
      → (a b : ℕ)
      → bitwise (λ y. y) f a b ≡ bitwise (λ y. y) f (a / 2) (b / 2) * 2 + f (a % 2) (b % 2)
  bitwise-halves z zero b = rw (z (b % 2)) (omega arith)
  bitwise-halves z (suc a) b =
      ap (with_lowest (suc a) b) (enough a a (suc a / 2) (b / 2) (omega arith) (omega arith))

-- Two numbers with the same halves are the same.
pub halves : (a b : ℕ) → a / 2 ≡ b / 2 → a % 2 ≡ b % 2 → a ≡ b
halves a b e f = omega (arith, e, f)

pow_suc : (k : ℕ) → 2 ^ suc k ≡ 2 * 2 ^ k
pow_suc k = omega arith

shifted : (k a : ℕ) → a * 2 ^ suc k ≡ a * 2 ^ k * 2
shifted k a = rw (pow_suc k) (omega arith)

pub below_one : (a : ℕ) → a < 1 → a ≡ 0
below_one a h = omega (arith, h)

pub plain : (a : ℕ) → a * 1 + 0 ≡ a
plain a = omega arith

pub half_shifted : (k a i : ℕ) → (a * 2 ^ suc k + i) / 2 ≡ a * 2 ^ k + i / 2
half_shifted k a i = omega (arith, shifted k a)

pub parity_shifted : (k a i : ℕ) → (a * 2 ^ suc k + i) % 2 ≡ i % 2
parity_shifted k a i = omega (arith, shifted k a)

or-halves : (a b : ℕ) → bit_or a b ≡ bit_or (a / 2) (b / 2) * 2 + max (a % 2) (b % 2)
or-halves a b =
    rw (bit_or-bitwise a b, bit_or-bitwise (a / 2) (b / 2))
      (bitwise-halves max (λ y. omega arith) a b)

or-zero_upto : (n a : ℕ) → a ≤ n → bit_or a 0 ≡ a
or-zero_upto zero zero h = bit_or-bitwise 0 0
or-zero_upto zero (suc a) h = absurd (omega (arith, h))
or-zero_upto (suc n) a h = omega (arith, or-halves a 0, or-zero_upto n (a / 2) (omega (arith, h)))

pub half : (k a : ℕ) → a * 2 ^ suc k / 2 ≡ a * 2 ^ k
half k a = omega (arith, shifted k a)

pub even : (k a : ℕ) → a * 2 ^ suc k % 2 ≡ 0
even k a = omega (arith, shifted k a)

pub or-shifted : (k a b : ℕ) → b < 2 ^ k → bit_or (a * 2 ^ k) b ≡ a * 2 ^ k + b
or-shifted zero a b h =
    rw (below_one b h) (or-zero_upto (a * 1) (a * 1) (omega arith) ∙ sym (omega arith))
or-shifted (suc k) a b h = omega (
  arith,
  or-halves (a * 2 ^ suc k) b,
  shifted k a,
  ap (λ d. bit_or d (b / 2)) (half k a),
  or-shifted k a (b / 2) (omega (arith, h)),
)
