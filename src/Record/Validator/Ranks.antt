-- ===== src/Record/Validator/Ranks.antt =====
-- internal/record/validator.go, betterRecord: the order of records, by cases that share no test with the
-- code.
use freedom_names.Common.{
  ℕ, ◌<◌, ◌≡◌, refl, ◌⊎◌, inl, inr, ◌↔◌, Bool, true, false, List, arith, ==_iff,
}
use freedom_names.Common.Bytes.{bytes_less, bytes_less_trans, bytes_less_cotrans, bytes_less_irrefl}
use freedom_names.Record.{FnRecord, ℤ, pos, negsuc, int_equal, int_less}
use freedom_names.Record.Validator.{better_record}

-- A record and the bytes that it was read from.
abbrev pub Entry : Type 0
Entry = FnRecord × List ℕ

-- The later update: the higher sequence number, then the later end of life, then the greater bytes.
abbrev pub Outranks : Entry → Entry → Type 0
Outranks (r, x) (s, y) =
    (s.seq < r.seq)
    ⊎ ((r.seq ≡ s.seq)
        × ((int_less s.eol r.eol ≡ true) ⊎ ((r.eol ≡ s.eol) × (bytes_less y x ≡ true))))

abbrev pub better : Entry → Entry → Bool
better (r, x) (s, y) = better_record r s x y

int_equal→≡ : (m n : ℤ) → int_equal m n ≡ true → m ≡ n
unfolding int_equal
int_equal→≡ (pos m) (pos n) e = ground (arith, ==_iff m n)
int_equal→≡ (pos m) (negsuc n) e = cc
int_equal→≡ (negsuc m) (pos n) e = cc
int_equal→≡ (negsuc m) (negsuc n) e = ground (arith, ==_iff m n)

int_equal_refl : (m : ℤ) → int_equal m m ≡ true
unfolding int_equal
int_equal_refl (pos m) = ground arith
int_equal_refl (negsuc m) = ground arith

int_less_trans : (a b c : ℤ) → int_less a b ≡ true → int_less b c ≡ true → int_less a c ≡ true
unfolding int_less
int_less_trans (pos a) (pos b) (pos c) e f = ground arith
int_less_trans (pos a) (pos b) (negsuc c) e f = cc
int_less_trans (pos a) (negsuc b) c e f = cc
int_less_trans (negsuc a) b (pos c) e f = refl
int_less_trans (negsuc a) (pos b) (negsuc c) e f = cc
int_less_trans (negsuc a) (negsuc b) (negsuc c) e f = ground arith

-- Two numbers are equal, or one is less, and not more than one of these.
pub int_cases :
    (a b : ℤ)
    → ((a ≡ b) × (int_less a b ≡ false) × (int_less b a ≡ false) × (int_equal a b ≡ true))
      ⊎ (((int_less a b ≡ true) × (int_less b a ≡ false) × (int_equal a b ≡ false))
          ⊎ ((int_less b a ≡ true) × (int_less a b ≡ false) × (int_equal a b ≡ false)))
unfolding int_less int_equal
int_cases (pos a) (pos b) = ground arith
int_cases (pos a) (negsuc b) = inr (inr (refl, refl, refl))
int_cases (negsuc a) (pos b) = inr (inl (refl, refl, refl))
int_cases (negsuc a) (negsuc b) = ground arith

pub better_iff : (a b : Entry) → (better a b ≡ true) ↔ Outranks a b
unfolding better_record
better_iff (r, x) (s, y) = ground (arith, int_cases r.eol s.eol)

pub better_trans : (a b c : Entry) → better a b ≡ true → better b c ≡ true → better a c ≡ true
unfolding better_record
better_trans (a, x) (b, y) (c, z) e f = ground (
  arith,
  int_cases a.eol b.eol,
  int_cases b.eol c.eol,
  int_cases a.eol c.eol,
  int_less_trans c.eol b.eol a.eol,
  bytes_less_trans z y x,
)

pub better_cotrans : (a b c : Entry) → better a b ≡ false → better b c ≡ false → better a c ≡ false
unfolding better_record
better_cotrans (a, x) (b, y) (c, z) e f = ground (
  arith,
  int_cases a.eol b.eol,
  int_cases b.eol c.eol,
  int_cases a.eol c.eol,
  int_less_trans c.eol a.eol b.eol,
  bytes_less_cotrans z y x,
)

pub better_irrefl : (a : Entry) → better a a ≡ false
unfolding better_record
better_irrefl (r, x) = ground (arith, int_cases r.eol r.eol, bytes_less_irrefl x)
