-- ===== src/Bch/Encode/Bounds.antt =====
-- Sizes and values of the encoders of bchtx.go.
use freedom_names.Common.{
  ℕ, zero, suc, ◌/◌, ◌%◌, ◌^◌, ◌<◌, ◌≤◌, ◌≡◌, refl, ap, List, arith, length, length-append,
}
use freedom_names.Bch.Encode.{le, un_le, put_var_int, put_var_bytes}

pub length-le : (k n : ℕ) → length (le k n) ≡ k
unfolding le
length-le zero n = refl
length-le (suc k) n = ap suc (length-le k (n / 256))

-- What a field of `k` bytes holds, read back.
pub un_le-le : (k n : ℕ) → n < 256 ^ k → un_le (le k n) ≡ n
unfolding le un_le
un_le-le zero n h = omega arith
un_le-le (suc k) n h = omega (arith, un_le-le k (n / 256) (omega arith))

pub length-put_var_int : (n : ℕ) → (1 ≤ length (put_var_int n)) × (length (put_var_int n) ≤ 9)
unfolding put_var_int
length-put_var_int n =
    ground (arith, length-le 2 (n % 2 ^ 16), length-le 4 (n % 2 ^ 32), length-le 8 n)

pub length-put_var_bytes : (b : List ℕ) → length b < length (put_var_bytes b)
unfolding put_var_bytes
length-put_var_bytes b =
    omega (arith, length-append (put_var_int (length b)) b, length-put_var_int (length b))

pub length-put_var_int_wide : (n : ℕ) → 2 ^ 32 ≤ n → length (put_var_int n) ≡ 9
unfolding put_var_int
length-put_var_int_wide n h = ground (arith, length-le 8 n)
