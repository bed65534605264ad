-- ===== src/Bch/CashAddr/Regroup.antt =====
-- internal/bch/cashaddr.go, convertBits, by eight bits and five with padding: the bits of the groups
-- are those of the bytes, and less than five zeros.
use freedom_names.Common.{
  ℕ, zero, suc, ◌+◌, ◌*◌, ◌/◌, ◌%◌, ◌^◌, ◌<◌, ◌≡◌, refl, sym, ap, ◌∙◌, true, List, [], ◌∷◌, bit_or,
  arith, All,
}
use native.Mathlib.Nat.{div-div-eq-div-mul}
use freedom_names.Common.Bits.{or-shifted, half_shifted, parity_shifted, half, even}
use freedom_names.Bch.CashAddr.{emit, regroup, convert_bits}

-- The lowest w bits of a number, the highest of them first, in front of others.
abbrev pub bits_onto : ℕ → ℕ → List ℕ → List ℕ
bits_onto zero n rest = rest
bits_onto (suc w) n rest = bits_onto w (n / 2) (n % 2 ∷ rest)

-- The bits of groups of w bits.
abbrev pub spread_onto : ℕ → List ℕ → List ℕ → List ℕ
spread_onto w [] rest = rest
spread_onto w (d ∷ ds) rest = bits_onto w d (spread_onto w ds rest)

abbrev pub zeros_onto : ℕ → List ℕ → List ℕ
zeros_onto zero rest = rest
zeros_onto (suc p) rest = zeros_onto p (0 ∷ rest)

-- A number without its lowest v bits.
abbrev halved : ℕ → ℕ → ℕ
halved zero n = n
halved (suc v) n = halved v (n / 2)

pow_suc : (k : ℕ) → 2 ^ suc k ≡ 2 * 2 ^ k
pow_suc k = omega arith

halved_lem : (v n : ℕ) → n / 2 ^ v ≡ halved v n
halved_lem zero n = omega arith
halved_lem (suc v) n =
    ap (λ (m : ℕ). n / m) (pow_suc v) ∙ sym (div-div-eq-div-mul n 2 (2 ^ v)) ∙ halved_lem v (n / 2)

-- What stands above the bits does not count.
bits_onto-low : (w q n : ℕ) (rest : List ℕ) → bits_onto w (q * 2 ^ w + n) rest ≡ bits_onto w n rest
bits_onto-low zero q n rest = refl
bits_onto-low (suc w) q n rest =
    rw (half_shifted w q n, parity_shifted w q n) (bits_onto-low w q (n / 2) (n % 2 ∷ rest))

-- A group that was cut out of a number.
bits_onto-group :
    (v n : ℕ) (rest : List ℕ)
    → bits_onto 5 (n / 2 ^ v % 2 ^ 5 % 256) rest ≡ bits_onto 5 (halved v n) rest
bits_onto-group v n rest =
    let m = n / 2 ^ v in
    let whole : m / 2 ^ 5 * 2 ^ 5 + m % 2 ^ 5 % 256 ≡ m = omega arith in
    sym (bits_onto-low 5 (m / 2 ^ 5) (m % 2 ^ 5 % 256) rest)
    ∙ ap (λ (k : ℕ). bits_onto 5 k rest) (whole ∙ halved_lem v n)

-- The accumulator with the next byte.
abbrev byte_in : ℕ → ℕ → ℕ
byte_in acc b = bit_or (acc * 2 ^ 8 % 2 ^ 32) b

byte_in_lem : (acc b : ℕ) → b < 256 → byte_in acc b ≡ acc % 2 ^ 24 * 2 ^ 8 + b
byte_in_lem acc b h = ap (λ n. bit_or n b) low ∙ or-shifted 8 (acc % 2 ^ 24) b h
  where
    low : acc * 2 ^ 8 % 2 ^ 32 ≡ acc % 2 ^ 24 * 2 ^ 8
    low = omega arith

-- The last k bits of the accumulator, and the next byte.
bits_onto-byte_in :
    (k q acc c : ℕ) (rest : List ℕ)
    → acc ≡ q * 2 ^ k + acc % 2 ^ 24
    → c < 256
    → bits_onto k (halved 8 (byte_in acc c)) (bits_onto 8 (byte_in acc c) rest)
      ≡ bits_onto k acc (bits_onto 8 c rest)
bits_onto-byte_in k q acc c rest e h =
    let above : halved 8 (byte_in acc c) ≡ acc % 2 ^ 24 = omega (arith, byte_in_lem acc c h, h) in
    let kept = bits_onto-low k q (acc % 2 ^ 24) (bits_onto 8 c rest) in
    ap (λ (n : ℕ). bits_onto k n (bits_onto 8 (byte_in acc c) rest)) above
    ∙ ap (bits_onto k (acc % 2 ^ 24)) (
        ap (λ (n : ℕ). bits_onto 8 n rest) (byte_in_lem acc c h)
        ∙ bits_onto-low 8 (acc % 2 ^ 24) c rest)
    ∙ sym kept
    ∙ ap (λ (n : ℕ). bits_onto k n (bits_onto 8 c rest)) (sym e)

-- A sum that computes where its first number is a literal.
abbrev more : ℕ → ℕ → ℕ
more zero k = k
more (suc j) k = suc (more j k)

bits_onto-shifted :
    (j k acc : ℕ) (rest : List ℕ)
    → bits_onto (more j k) (acc * 2 ^ j) rest ≡ bits_onto k acc (zeros_onto j rest)
bits_onto-shifted zero k acc rest = ap (λ (n : ℕ). bits_onto k n rest) (omega arith)
bits_onto-shifted (suc j) k acc rest =
    let n = acc * 2 ^ suc j in
    ap (λ (m : ℕ). bits_onto (more j k) m (n % 2 ∷ rest)) (half j acc)
    ∙ ap (λ (b : ℕ). bits_onto (more j k) (acc * 2 ^ j) (b ∷ rest)) (even j acc)
    ∙ bits_onto-shifted j k acc (0 ∷ rest)

-- The group with the padding.
padded :
    (j k acc : ℕ)
    → more j k ≡ 5
    → acc * 2 ^ j % 2 ^ 32 % 2 ^ 5 % 256 ≡ acc * 2 ^ j % 2 ^ 5
    → bits_onto 5 (acc * 2 ^ j % 2 ^ 32 % 2 ^ 5 % 256) [] ≡ bits_onto k acc (zeros_onto j [])
padded j k acc five low =
    let n = acc * 2 ^ j in
    let whole : n / 2 ^ 5 * 2 ^ 5 + n % 2 ^ 32 % 2 ^ 5 % 256 ≡ n = omega (arith, low) in
    sym (bits_onto-low 5 (n / 2 ^ 5) (n % 2 ^ 32 % 2 ^ 5 % 256) [])
    ∙ ap (λ (m : ℕ). bits_onto 5 m []) whole
    ∙ ap (λ (w : ℕ). bits_onto w n []) (sym five)
    ∙ bits_onto-shifted j k acc []

-- The groups that are made with k bits left have those bits, those of the bytes, and few zeros.
abbrev Spreads : ℕ → List ℕ → Type 0
Spreads k bs =
    (acc : ℕ)
    → (p : ℕ) × (p < 5)
      × (spread_onto 5 (regroup 8 5 true acc k bs) []
          ≡ bits_onto k acc (spread_onto 8 bs (zeros_onto p [])))

regroup1-end : Spreads 1 []
unfolding regroup
regroup1-end acc = (4, omega arith, padded 4 1 acc refl (omega arith))

regroup2-end : Spreads 2 []
unfolding regroup
regroup2-end acc = (3, omega arith, padded 3 2 acc refl (omega arith))

regroup3-end : Spreads 3 []
unfolding regroup
regroup3-end acc = (2, omega arith, padded 2 3 acc refl (omega arith))

regroup4-end : Spreads 4 []
unfolding regroup
regroup4-end acc = (1, omega arith, padded 1 4 acc refl (omega arith))

regroup0-step : (c : ℕ) (bs : List ℕ) → c < 256 → Spreads 3 bs → Spreads 0 (c ∷ bs)
unfolding regroup emit
regroup0-step c bs h next acc =
    let a = byte_in acc c in
    let (p, few, e) = next a in
    let left = bits_onto 3 a (spread_onto 8 bs (zeros_onto p [])) in
    (
      p,
      few,
      ap (bits_onto 5 (a / 2 ^ 3 % 2 ^ 5 % 256)) e
          ∙ bits_onto-group 3 a left
          ∙ bits_onto-byte_in 0 (acc / 2 ^ 24 * 2 ^ 24) acc c (spread_onto 8 bs (zeros_onto p []))
              (omega arith) h,
    )

regroup1-step : (c : ℕ) (bs : List ℕ) → c < 256 → Spreads 4 bs → Spreads 1 (c ∷ bs)
unfolding regroup emit
regroup1-step c bs h next acc =
    let a = byte_in acc c in
    let (p, few, e) = next a in
    let left = bits_onto 4 a (spread_onto 8 bs (zeros_onto p [])) in
    (
      p,
      few,
      ap (bits_onto 5 (a / 2 ^ 4 % 2 ^ 5 % 256)) e
          ∙ bits_onto-group 4 a left
          ∙ bits_onto-byte_in 1 (acc / 2 ^ 24 * 2 ^ 23) acc c (spread_onto 8 bs (zeros_onto p []))
              (omega arith) h,
    )

regroup2-step : (c : ℕ) (bs : List ℕ) → c < 256 → Spreads 0 bs → Spreads 2 (c ∷ bs)
unfolding regroup emit
regroup2-step c bs h next acc =
    let a = byte_in acc c in
    let (p, few, e) = next a in
    let left = bits_onto 0 a (spread_onto 8 bs (zeros_onto p [])) in
    (
      p,
      few,
      ap
            (λ (t : List ℕ).
              bits_onto 5 (a / 2 ^ 5 % 2 ^ 5 % 256) (bits_onto 5 (a / 2 ^ 0 % 2 ^ 5 % 256) t))
            e
          ∙ ap (bits_onto 5 (a / 2 ^ 5 % 2 ^ 5 % 256)) (bits_onto-group 0 a left)
          ∙ bits_onto-group 5 a (bits_onto 5 (halved 0 a) left)
          ∙ bits_onto-byte_in 2 (acc / 2 ^ 24 * 2 ^ 22) acc c (spread_onto 8 bs (zeros_onto p []))
              (omega arith) h,
    )

regroup3-step : (c : ℕ) (bs : List ℕ) → c < 256 → Spreads 1 bs → Spreads 3 (c ∷ bs)
unfolding regroup emit
regroup3-step c bs h next acc =
    let a = byte_in acc c in
    let (p, few, e) = next a in
    let left = bits_onto 1 a (spread_onto 8 bs (zeros_onto p [])) in
    (
      p,
      few,
      ap
            (λ (t : List ℕ).
              bits_onto 5 (a / 2 ^ 6 % 2 ^ 5 % 256) (bits_onto 5 (a / 2 ^ 1 % 2 ^ 5 % 256) t))
            e
          ∙ ap (bits_onto 5 (a / 2 ^ 6 % 2 ^ 5 % 256)) (bits_onto-group 1 a left)
          ∙ bits_onto-group 6 a (bits_onto 5 (halved 1 a) left)
          ∙ bits_onto-byte_in 3 (acc / 2 ^ 24 * 2 ^ 21) acc c (spread_onto 8 bs (zeros_onto p []))
              (omega arith) h,
    )

regroup4-step : (c : ℕ) (bs : List ℕ) → c < 256 → Spreads 2 bs → Spreads 4 (c ∷ bs)
unfolding regroup emit
regroup4-step c bs h next acc =
    let a = byte_in acc c in
    let (p, few, e) = next a in
    let left = bits_onto 2 a (spread_onto 8 bs (zeros_onto p [])) in
    (
      p,
      few,
      ap
            (λ (t : List ℕ).
              bits_onto 5 (a / 2 ^ 7 % 2 ^ 5 % 256) (bits_onto 5 (a / 2 ^ 2 % 2 ^ 5 % 256) t))
            e
          ∙ ap (bits_onto 5 (a / 2 ^ 7 % 2 ^ 5 % 256)) (bits_onto-group 2 a left)
          ∙ bits_onto-group 7 a (bits_onto 5 (halved 2 a) left)
          ∙ bits_onto-byte_in 4 (acc / 2 ^ 24 * 2 ^ 20) acc c (spread_onto 8 bs (zeros_onto p []))
              (omega arith) h,
    )

spreads :
    (bs : List ℕ)
    → All (λ c. c < 256) bs
    → Spreads 0 bs × Spreads 1 bs × Spreads 2 bs × Spreads 3 bs × Spreads 4 bs
unfolding regroup
spreads [] a =
    ((λ acc. (0, omega arith, refl)), regroup1-end, regroup2-end, regroup3-end, regroup4-end)
spreads (c ∷ bs) (h, a) =
    let (s0, s1, s2, s3, s4) = spreads bs a in
    (
      regroup0-step c bs h s3,
      regroup1-step c bs h s4,
      regroup2-step c bs h s0,
      regroup3-step c bs h s1,
      regroup4-step c bs h s2,
    )

-- The bits of bytes that are regrouped by five with padding are those of the bytes, and less than five
-- zeros.
pub spread_onto-convert_bits :
    (bs : List ℕ)
    → All (λ b. b < 256) bs
    → (p : ℕ) × (p < 5)
      × (spread_onto 5 (convert_bits bs 8 5 true) [] ≡ spread_onto 8 bs (zeros_onto p []))
unfolding convert_bits
spread_onto-convert_bits bs a = (spreads bs a).0 0
