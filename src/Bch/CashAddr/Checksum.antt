-- ===== src/Bch/CashAddr/Checksum.antt =====
-- internal/bch/cashaddr.go, polymod: its rounds are linear in the groups, so that the checksum brings
-- it to zero.
use freedom_names.Common.{
  ℕ, zero, suc, ◌+◌, ◌*◌, ◌/◌, ◌%◌, ◌^◌, ◌≤◌, ◌<◌, ◌≡◌, refl, sym, ap, ◌∙◌, List, [], ◌∷◌, ◌++◌,
  arith, All, map,
}
use Prim.Native.Nat.{bit_xor}
use freedom_names.Common.Xor.{
  xor_comm, xor_assoc, xor_self, xor-zero_left, xor-zero_right, xor_bound, xor-split,
}
use freedom_names.Bch.CashAddr.{
  zero_bytes, mix, mix_all, polymod_step, polymod_from, polymod, checksum_from,
}

xor_swap : (c x g : ℕ) → bit_xor (bit_xor c x) g ≡ bit_xor (bit_xor c g) x
xor_swap c x g = xor_assoc c x g ∙ ap (bit_xor c) (xor_comm x g) ∙ sym (xor_assoc c g x)

mix-xor : (c0 w g c x : ℕ) → mix c0 w g (bit_xor c x) ≡ bit_xor (mix c0 w g c) x
unfolding mix
mix-xor c0 w g c x = ground (arith, xor_swap c x g)

mix_all-xor : (c0 c x : ℕ) → mix_all c0 (bit_xor c x) ≡ bit_xor (mix_all c0 c) x
unfolding mix_all
mix_all-xor c0 c x = simp mix-xor refl

plus_zero : (x : ℕ) → 0 + x ≡ x
plus_zero x = omega arith

-- The lowest 35 bits change, and the others stand.
xor-whole : (c x : ℕ) → x < 2 ^ 35 → bit_xor c x ≡ c / 2 ^ 35 * 2 ^ 35 + bit_xor (c % 2 ^ 35) x
xor-whole c x h =
    ap (λ k. bit_xor k x) parts
    ∙ ap (bit_xor (c / 2 ^ 35 * 2 ^ 35 + c % 2 ^ 35)) (sym (plus_zero x))
    ∙ xor-split 35 (c / 2 ^ 35) 0 (c % 2 ^ 35) x (omega arith) h
    ∙ ap (λ k. k * 2 ^ 35 + bit_xor (c % 2 ^ 35) x) (xor-zero_right (c / 2 ^ 35))
  where
    parts : c ≡ c / 2 ^ 35 * 2 ^ 35 + c % 2 ^ 35
    parts = omega arith

xor-low : (c x : ℕ) → x < 2 ^ 35 → bit_xor c x % 2 ^ 35 ≡ bit_xor (c % 2 ^ 35) x
xor-low c x h = omega (arith, xor-whole c x h, xor_bound 35 (c % 2 ^ 35) x (omega arith) h)

xor-high : (c x : ℕ) → x < 2 ^ 35 → bit_xor c x / 2 ^ 35 ≡ c / 2 ^ 35
xor-high c x h = omega (arith, xor-whole c x h, xor_bound 35 (c % 2 ^ 35) x (omega arith) h)

-- Five bits to the left, where they do not reach the 64th.
xor-scaled :
    (l x d : ℕ)
    → l < 2 ^ 35
    → x < 2 ^ 35
    → d < 32
    → bit_xor (l * 2 ^ 5 % 2 ^ 64) (x * 32 + d) ≡ bit_xor l x * 2 ^ 5 + d
xor-scaled l x d h k m =
    ap (λ n. bit_xor n (x * 32 + d)) whole
    ∙ xor-split 5 l x 0 d (omega arith) m
    ∙ ap (λ n. bit_xor l x * 2 ^ 5 + n) (xor-zero_left d)
  where
    whole : l * 2 ^ 5 % 2 ^ 64 ≡ l * 2 ^ 5 + 0
    whole = omega (arith, h)

xor-shift :
    (l x d : ℕ)
    → l < 2 ^ 35
    → x < 2 ^ 35
    → d < 32
    → bit_xor (bit_xor l x * 2 ^ 5 % 2 ^ 64) d
      ≡ bit_xor (bit_xor (l * 2 ^ 5 % 2 ^ 64) 0) (x * 32 + d)
xor-shift l x d h k m =
    ap (bit_xor (bit_xor l x * 2 ^ 5 % 2 ^ 64)) (sym (plus_zero d))
    ∙ xor-scaled (bit_xor l x) 0 d (xor_bound 35 l x h k) (omega arith) m
    ∙ ap (λ n. n * 2 ^ 5 + d) (xor-zero_right (bit_xor l x))
    ∙ sym (xor-scaled l x d h k m)
    ∙ ap (λ n. bit_xor n (x * 32 + d)) (sym (xor-zero_right (l * 2 ^ 5 % 2 ^ 64)))

polymod_step-xor :
    (c x d : ℕ)
    → x < 2 ^ 35
    → d < 32
    → polymod_step (bit_xor c x) d ≡ bit_xor (polymod_step c 0) (x * 32 + d)
unfolding polymod_step
polymod_step-xor c x d h k =
    rw (polymod_step, xor-high c x h, xor-low c x h, xor-shift (c % 2 ^ 35) x d (omega arith) h k)
      (mix_all-xor (c / 2 ^ 35 % 256) (bit_xor (c % 2 ^ 35 * 2 ^ 5 % 2 ^ 64) 0) (x * 32 + d))

-- The number that groups of five bits write, after those before them.
abbrev pub group_value : ℕ → List ℕ → ℕ
group_value x [] = x
group_value x (d ∷ ds) = group_value (x * 32 + d) ds

group_value-grows : (ds : List ℕ) (x : ℕ) → x ≤ group_value x ds
group_value-grows [] x = omega arith
group_value-grows (d ∷ ds) x = omega (arith, group_value-grows ds (x * 32 + d))

-- The last groups are added to what the rounds make of zeros.
polymod_from-xor :
    (ds : List ℕ) (c x : ℕ)
    → All (λ d. d < 32) ds
    → group_value x ds < 2 ^ 40
    → polymod_from (bit_xor c x) ds ≡ bit_xor (polymod_from c (map (λ d. 0) ds)) (group_value x ds)
unfolding polymod_from
polymod_from-xor [] c x a h = refl
polymod_from-xor (d ∷ ds) c x (b, a) h =
    let small : x < 2 ^ 35 = omega (arith, h, group_value-grows ds (x * 32 + d)) in
    rw (polymod_step-xor c x d small b) (polymod_from-xor ds (polymod_step c 0) (x * 32 + d) a h)

mix_bound : (c0 w g c : ℕ) → g < 2 ^ 40 → c < 2 ^ 40 → mix c0 w g c < 2 ^ 40
unfolding mix
mix_bound c0 w g c h k = ground (arith, h, k, xor_bound 40 c g k h)

mix_all_bound : (c0 c : ℕ) → c < 2 ^ 40 → mix_all c0 c < 2 ^ 40
unfolding mix_all
mix_all_bound c0 c h = mix_bound c0 0x10 _ _ (omega arith) (
    mix_bound c0 0x08 _ _ (omega arith) (
      mix_bound c0 0x04 _ _ (omega arith)
        (mix_bound c0 0x02 _ _ (omega arith) (mix_bound c0 0x01 _ _ (omega arith) h))))

-- A round stays below 40 bits.
polymod_step_bound : (c d : ℕ) → d < 32 → polymod_step c d < 2 ^ 40
unfolding polymod_step
polymod_step_bound c d h =
    mix_all_bound _ _
      (xor_bound 40 (c % 2 ^ 35 * 2 ^ 5 % 2 ^ 64) d (omega arith) (omega (arith, h)))

polymod_from_bound :
    (ds : List ℕ) (c : ℕ) → All (λ d. d < 32) ds → c < 2 ^ 40 → polymod_from c ds < 2 ^ 40
unfolding polymod_from
polymod_from_bound [] c a h = h
polymod_from_bound (d ∷ ds) c (b, a) h =
    polymod_from_bound ds (polymod_step c d) a (polymod_step_bound c d b)

polymod_from-append :
    (xs ys : List ℕ) (c : ℕ) → polymod_from c (xs ++ ys) ≡ polymod_from (polymod_from c xs) ys
unfolding polymod_from
polymod_from-append [] ys c = refl
polymod_from-append (x ∷ xs) ys c = polymod_from-append xs ys (polymod_step c x)

checksum_from-group_value : (m : ℕ) → m < 2 ^ 40 → group_value 0 (checksum_from 8 m) ≡ m
unfolding checksum_from
checksum_from-group_value m h = omega (arith, h)

pub checksum_from-All : (n m : ℕ) → All (λ d. d < 32) (checksum_from n m)
unfolding checksum_from
checksum_from-All zero m = tt
checksum_from-All (suc n) m = (omega arith, checksum_from-All n m)

checksum_from-zeros : (m : ℕ) → map (λ d. 0) (checksum_from 8 m) ≡ zero_bytes 8
unfolding checksum_from
checksum_from-zeros m = refl

All-zero_bytes : (n : ℕ) → All (λ d. d < 32) (zero_bytes n)
All-zero_bytes zero = tt
All-zero_bytes (suc n) = (omega arith, All-zero_bytes n)

pub All-append :
    (xs ys : List ℕ) → All (λ d. d < 32) xs → All (λ d. d < 32) ys → All (λ d. d < 32) (xs ++ ys)
All-append [] ys a b = b
All-append (x ∷ xs) ys (h, a) b = (h, All-append xs ys a b)

-- The checksum of what a state makes of eight zeros gives that and the last bit.
polymod_from-checksum_from :
    (c m : ℕ)
    → m < 2 ^ 40
    → polymod_from c (checksum_from 8 m) ≡ bit_xor (polymod_from c (zero_bytes 8)) m
polymod_from-checksum_from c m h =
    let k = checksum_from 8 m in
    let small : group_value 0 k < 2 ^ 40 = rw (checksum_from-group_value m h) h in
    ap (λ n. polymod_from n k) (sym (xor-zero_right c))
    ∙ polymod_from-xor k c 0 (checksum_from-All 8 m) small
    ∙ ap (λ z. bit_xor (polymod_from c z) (group_value 0 k)) (checksum_from-zeros m)
    ∙ ap (bit_xor (polymod_from c (zero_bytes 8))) (checksum_from-group_value m h)

-- After any groups, the checksum of what they and eight zeros give brings the result to zero.
pub polymod-checksum_from :
    (ds : List ℕ)
    → All (λ d. d < 32) ds
    → polymod (ds ++ checksum_from 8 (polymod (ds ++ zero_bytes 8))) ≡ 0
unfolding polymod
polymod-checksum_from ds a =
    let r = polymod_from 1 (ds ++ zero_bytes 8) in
    let small : bit_xor r 1 < 2 ^ 40 =
      xor_bound 40 r 1
        (polymod_from_bound (ds ++ zero_bytes 8) 1
          (All-append ds (zero_bytes 8) a (All-zero_bytes 8)) (omega arith))
        (omega arith) in
    let run : polymod_from 1 (ds ++ checksum_from 8 (bit_xor r 1)) ≡ bit_xor r (bit_xor r 1) =
      polymod_from-append ds (checksum_from 8 (bit_xor r 1)) 1
      ∙ polymod_from-checksum_from (polymod_from 1 ds) (bit_xor r 1) small
      ∙ ap (λ n. bit_xor n (bit_xor r 1)) (sym (polymod_from-append ds (zero_bytes 8) 1)) in
    let cancel : bit_xor r (bit_xor r 1) ≡ 1 =
      sym (xor_assoc r r 1) ∙ ap (λ n. bit_xor n 1) (xor_self r) in
    ap (λ n. bit_xor n 1) (run ∙ cancel)
