-- ===== src/Record/Order.antt =====
-- internal/record/record.go, canonicalBytes: the order of the resource records. The sorted records
-- do not depend on the order they are given in, if no two of one type and value differ.
use freedom_names.Common.{
  ◌≡◌, refl, sym, ap, ◌∙◌, inl, inr, true, false, List, [], ◌∷◌, arith, Bool-cases,
}
use freedom_names.Common.Bytes.{
  bytes_equal_iff, bytes_less_trans, bytes_less_irrefl, bytes_less_connex, bytes_less_cotrans,
}
use mathlib.Core.List.{Mem, Permᴰ, mem-cons_self, mem-cons_of_mem}
use mathlib.Core.List.Permᴰ
use freedom_names.Record.{Rr, rr_less, insert_rr, sort_rrs}

rr_less_irrefl : (a : Rr) → rr_less a a ≡ false
unfolding rr_less
rr_less_irrefl a = ground (arith, bytes_less_irrefl a.value, bytes_less_irrefl a.rr_type)

rr_less_trans : (a b c : Rr) → rr_less a b ≡ true → rr_less b c ≡ true → rr_less a c ≡ true
unfolding rr_less
rr_less_trans a b c e f = ground (
  arith,
  bytes_equal_iff a.rr_type b.rr_type,
  bytes_equal_iff b.rr_type c.rr_type,
  bytes_equal_iff a.rr_type c.rr_type,
  bytes_less_trans a.value b.value c.value,
  bytes_less_trans a.rr_type b.rr_type c.rr_type,
  bytes_less_trans a.rr_type b.rr_type a.rr_type,
  bytes_less_irrefl a.rr_type,
)

rr_less_cotrans : (a b c : Rr) → rr_less a b ≡ false → rr_less b c ≡ false → rr_less a c ≡ false
unfolding rr_less
rr_less_cotrans a b c e f = ground (
  arith,
  bytes_equal_iff a.rr_type b.rr_type,
  bytes_equal_iff b.rr_type c.rr_type,
  bytes_equal_iff a.rr_type c.rr_type,
  bytes_less_cotrans a.value b.value c.value,
  bytes_less_cotrans a.rr_type b.rr_type c.rr_type,
  bytes_less_connex a.rr_type b.rr_type,
  bytes_less_cotrans b.rr_type c.rr_type a.rr_type,
)

-- Of two records that neither precede nor follow one another, type and value are the same.
rr_less_tie :
    (a b : Rr)
    → rr_less a b ≡ false
    → rr_less b a ≡ false
    → (a.rr_type ≡ b.rr_type) × (a.value ≡ b.value)
unfolding rr_less
rr_less_tie a b e f = ground (
  arith,
  bytes_equal_iff a.rr_type b.rr_type,
  bytes_equal_iff b.rr_type a.rr_type,
  bytes_less_connex a.rr_type b.rr_type,
  bytes_less_connex a.value b.value,
)

insert_rr_less :
    (a b : Rr) (rs : List Rr)
    → rr_less a b ≡ true
    → rr_less b a ≡ false
    → insert_rr a (insert_rr b rs) ≡ insert_rr b (insert_rr a rs)
unfolding insert_rr
insert_rr_less a b [] e f = ground (arith, e, f)
insert_rr_less a b (r ∷ rs) e f = elim (Bool-cases (rr_less r a)) [
  | inl before ↦
      rw (before, rr_less_trans r a b before e, before) (ap (◌∷◌ r) (insert_rr_less a b rs e f))
  | inr after ↦ elim (Bool-cases (rr_less r b)) [
    | inl between ↦ rw (after, between, after, e) refl
    | inr behind ↦ rw (after, behind, f, e) refl
  ]
]

-- Two records of one type and one value are the same record.
abbrev pub IsConsistent : List Rr → Type 0
IsConsistent rs =
    (a b : Rr) → Mem a rs → Mem b rs → a.rr_type ≡ b.rr_type → a.value ≡ b.value → a ≡ b

insert_rr_comm :
    (a b : Rr) (rs : List Rr)
    → (a.rr_type ≡ b.rr_type → a.value ≡ b.value → a ≡ b)
    → insert_rr a (insert_rr b rs) ≡ insert_rr b (insert_rr a rs)
insert_rr_comm a b rs same = elim (Bool-cases (rr_less a b)) [
  | inl before ↦ insert_rr_less a b rs before (asym a b before)
  | inr not_before ↦ elim (Bool-cases (rr_less b a)) [
    | inl after ↦ sym (insert_rr_less b a rs after not_before)
    | inr not_after ↦ let (t, v) = rr_less_tie a b not_before not_after in rw (same t v) refl
  ]
]
  where
    asym : (a b : Rr) → rr_less a b ≡ true → rr_less b a ≡ false
    asym a b e = ground (arith, e, rr_less_trans a b a, rr_less_irrefl a)

pub sort_rrs-Permᴰ : {xs ys : List Rr} → Permᴰ xs ys → IsConsistent xs → sort_rrs xs ≡ sort_rrs ys
unfolding sort_rrs
sort_rrs-Permᴰ Permᴰ.nil same = refl
sort_rrs-Permᴰ (Permᴰ.cons {a = a} {b} {l₁ = l} e d) same =
    let rest = sort_rrs-Permᴰ d λ x y m n. same x y (mem-cons_of_mem a m) (mem-cons_of_mem a n) in
    rw (e, rest) refl
sort_rrs-Permᴰ (Permᴰ.swap {a} {b} {l = l} e f) same =
    rw (← e, ← f)
      (insert_rr_comm a b (sort_rrs l) (same a b mem-cons_self (mem-cons_of_mem a mem-cons_self)))
sort_rrs-Permᴰ (Permᴰ.trans d f) same =
    sort_rrs-Permᴰ d same
    ∙ sort_rrs-Permᴰ f λ x y m n. same x y (Permᴰ.mem (Permᴰ.symm d) m) (Permᴰ.mem (Permᴰ.symm d) n)
