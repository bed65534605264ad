-- ===== src/Record/Canonical.antt =====
-- internal/record/record.go, canonicalBytes: what the signed bytes determine of a record.
use freedom_names.Common.{
  ℕ, zero, suc, ◌+◌, ◌/◌, ◌%◌, ◌^◌, ◌<◌, ◌≡◌, ◌≢◌, refl, sym, ap, ◌∙◌, List, [], ◌∷◌, ◌++◌, arith,
  length, All, append_assoc, length-append,
}
use mathlib.Core.List.{Perm, is_set}
use mathlib.Core.Logic.{∥∥₁_elim}
use native.Mathlib.Nat.{ℕ_set}
use freedom_names.Record.{
  FnRecord, Rr, ℤ, pos, negsuc, to_uint64, be, rr_bytes, rrs_bytes, sort_rrs, insert_rr,
  canonical_bytes,
}
use freedom_names.Record.Order.{IsConsistent, sort_rrs-Permᴰ}

-- The order of the resource records does not change what is signed.
pub canonical_bytes-Perm :
    (r : FnRecord) (rs : List Rr)
    → Perm r.records rs
    → IsConsistent r.records
    → canonical_bytes (record r { records = rs }) ≡ canonical_bytes r
unfolding canonical_bytes
canonical_bytes-Perm r rs p same =
    ∥∥₁_elim p (is_set ℕ_set _ _) λ d. rw (sort_rrs-Permᴰ d same) refl

-- No byte of the text is 0, which ends a text.
abbrev pub HasNoNul : List ℕ → Type 0
HasNoNul = All (λ b. b ≢ 0)

nul_split :
    (xs ys us vs : List ℕ)
    → HasNoNul xs
    → HasNoNul us
    → (xs ++ (0 ∷ [])) ++ ys ≡ (us ++ (0 ∷ [])) ++ vs
    → (xs ≡ us) × (ys ≡ vs)
nul_split [] ys [] vs p q e = ground (arith, e)
nul_split [] ys (u ∷ us) vs p (q, qs) e = absurd (q (ground (arith, e)))
nul_split (x ∷ xs) ys [] vs (p, ps) q e = absurd (p (ground (arith, e)))
nul_split (x ∷ xs) ys (u ∷ us) vs (p, ps) (q, qs) e =
    let (same, rest) = nul_split xs ys us vs ps qs (ground (arith, e)) in
    (ground (arith, e, same), rest)

append_split :
    (xs ys us vs : List ℕ) → length xs ≡ length us → xs ++ ys ≡ us ++ vs → (xs ≡ us) × (ys ≡ vs)
append_split [] ys [] vs l e = (refl, e)
append_split [] ys (u ∷ us) vs l e = absurd (omega arith)
append_split (x ∷ xs) ys [] vs l e = absurd (omega arith)
append_split (x ∷ xs) ys (u ∷ us) vs l e =
    let (same, rest) = append_split xs ys us vs (omega arith) (ground (arith, e)) in
    (ground (arith, e, same), rest)

length-be : (k n : ℕ) → length (be k n) ≡ k
unfolding be
length-be zero n = refl
length-be (suc k) n =
    omega (arith, length-append (be k (n / 256)) ((n % 256) ∷ []), length-be k (n / 256))

be_injective : (k m n : ℕ) → m < 256 ^ k → n < 256 ^ k → be k m ≡ be k n → m ≡ n
unfolding be
be_injective zero m n p q e = omega arith
be_injective (suc k) m n p q e =
    let (high, low) =
      append_split (be k (m / 256)) ((m % 256) ∷ []) (be k (n / 256)) ((n % 256) ∷ [])
        (length-be k (m / 256) ∙ sym (length-be k (n / 256))) e in
    let rest = be_injective k (m / 256) (n / 256) (omega arith) (omega arith) high in
    ground (arith, rest, low)

-- The text fields carry no 0, and the numbers fit their machine types.
pub record IsPlain (r : Rr) : Type 0 where
  pub type_text : HasNoNul r.rr_type
  pub value_text : HasNoNul r.value
  pub ttl_fits : r.ttl < 256 ^ 4

length-rr_bytes : (r : Rr) → 0 < length (rr_bytes r)
unfolding rr_bytes
length-rr_bytes r = omega (
  arith,
  length-append (r.rr_type ++ (0 ∷ [])) ((r.value ++ (0 ∷ [])) ++ be 4 r.ttl),
  length-append r.rr_type (0 ∷ []),
)

rr_bytes_split :
    (r s : Rr) (xs ys : List ℕ)
    → IsPlain r
    → IsPlain s
    → rr_bytes r ++ xs ≡ rr_bytes s ++ ys
    → (r ≡ s) × (xs ≡ ys)
unfolding rr_bytes
rr_bytes_split r s xs ys p q e =
    let (same_type, e) =
      nul_split r.rr_type _ s.rr_type _ p.type_text q.type_text
        (spread r xs ∙ e ∙ sym (spread s ys)) in
    let (same_value, e) = nul_split r.value _ s.value _ p.value_text q.value_text e in
    let (same_ttl, rest) =
      append_split (be 4 r.ttl) xs (be 4 s.ttl) ys (length-be 4 r.ttl ∙ sym (length-be 4 s.ttl))
        e in
    let same_number = be_injective 4 r.ttl s.ttl p.ttl_fits q.ttl_fits same_ttl in
    (same_rr r s same_type same_value same_number, rest)
  where
    same_rr : (r s : Rr) → r.rr_type ≡ s.rr_type → r.value ≡ s.value → r.ttl ≡ s.ttl → r ≡ s
    same_rr r s e f g = ground (arith, e, f, g)

    spread :
        (r : Rr) (xs : List ℕ)
        → (r.rr_type ++ (0 ∷ [])) ++ ((r.value ++ (0 ∷ [])) ++ (be 4 r.ttl ++ xs))
          ≡ rr_bytes r ++ xs
    spread r xs = simp append_assoc refl

rrs_bytes_injective :
    (rs ss : List Rr) → All IsPlain rs → All IsPlain ss → rrs_bytes rs ≡ rrs_bytes ss → rs ≡ ss
unfolding rrs_bytes
rrs_bytes_injective [] [] p q e = refl
rrs_bytes_injective [] (s ∷ ss) p q e =
    absurd
      (omega (arith, length-rr_bytes s, length-append (rr_bytes s) (rrs_bytes ss), ap length e))
rrs_bytes_injective (r ∷ rs) [] p q e =
    absurd
      (omega (arith, length-rr_bytes r, length-append (rr_bytes r) (rrs_bytes rs), ap length e))
rrs_bytes_injective (r ∷ rs) (s ∷ ss) (p, ps) (q, qs) e =
    let (same, rest) = rr_bytes_split r s (rrs_bytes rs) (rrs_bytes ss) p q e in
    rw (same, rrs_bytes_injective rs ss ps qs rest) refl

insert_rr-IsPlain :
    (r : Rr) (rs : List Rr) → IsPlain r → All IsPlain rs → All IsPlain (insert_rr r rs)
unfolding insert_rr
insert_rr-IsPlain r [] p ps = (p, tt)
insert_rr-IsPlain r (s ∷ ss) p (q, qs) = ground (arith, p, q, qs, insert_rr-IsPlain r ss p qs)

sort_rrs-IsPlain : (rs : List Rr) → All IsPlain rs → All IsPlain (sort_rrs rs)
unfolding sort_rrs
sort_rrs-IsPlain [] p = tt
sort_rrs-IsPlain (r ∷ rs) (p, ps) = insert_rr-IsPlain r (sort_rrs rs) p (sort_rrs-IsPlain rs ps)

-- An int64.
abbrev pub FitsInt64 : ℤ → Type 0
FitsInt64 (pos n) = n < 2 ^ 63
FitsInt64 (negsuc n) = n < 2 ^ 63

to_uint64_injective : (m n : ℤ) → FitsInt64 m → FitsInt64 n → to_uint64 m ≡ to_uint64 n → m ≡ n
unfolding to_uint64
to_uint64_injective (pos m) (pos n) p q e = ap pos e
to_uint64_injective (pos m) (negsuc n) p q e = absurd (omega arith)
to_uint64_injective (negsuc m) (pos n) p q e = absurd (omega arith)
to_uint64_injective (negsuc m) (negsuc n) p q e = ap negsuc (omega arith)

to_uint64_fits : (m : ℤ) → FitsInt64 m → to_uint64 m < 256 ^ 8
unfolding to_uint64
to_uint64_fits (pos m) p = omega arith
to_uint64_fits (negsuc m) p = omega arith

pub record IsPlainRecord (r : FnRecord) : Type 0 where
  pub label_text : HasNoNul r.label
  pub records : All IsPlain r.records
  pub seq_fits : r.seq < 256 ^ 8
  pub eol_fits : FitsInt64 r.eol

-- Two records whose texts carry no zero byte, whose numbers fit their types and whose public keys
-- have one length, and which have the same canonical bytes, have the same label, sorted resource
-- records, sequence number, end of life and public key.
pub canonical_bytes_determine :
    (r s : FnRecord)
    → IsPlainRecord r
    → IsPlainRecord s
    → length r.pub_key ≡ length s.pub_key
    → canonical_bytes r ≡ canonical_bytes s
    → (r.label ≡ s.label)
      × (sort_rrs r.records ≡ sort_rrs s.records)
      × (r.seq ≡ s.seq)
      × (r.eol ≡ s.eol)
      × (r.pub_key ≡ s.pub_key)
unfolding canonical_bytes
canonical_bytes_determine r s p q l e =
    let (same_label, e) = nul_split r.label _ s.label _ p.label_text q.label_text e in
    let (same_rrs, e) =
      append_split (rrs_bytes (sort_rrs r.records)) (tail r) (rrs_bytes (sort_rrs s.records))
        (tail s) (front_length r s l e) e in
    let (same_seq, e) =
      append_split (be 8 r.seq) _ (be 8 s.seq) _ (length-be 8 r.seq ∙ sym (length-be 8 s.seq)) e in
    let (same_eol, same_key) =
      append_split (be 8 (to_uint64 r.eol)) r.pub_key (be 8 (to_uint64 s.eol)) s.pub_key
        (length-be 8 _ ∙ sym (length-be 8 _)) e in
    (
      same_label,
      rrs_bytes_injective (sort_rrs r.records) (sort_rrs s.records)
          (sort_rrs-IsPlain r.records p.records) (sort_rrs-IsPlain s.records q.records) same_rrs,
      be_injective 8 r.seq s.seq p.seq_fits q.seq_fits same_seq,
      to_uint64_injective r.eol s.eol p.eol_fits q.eol_fits (
          be_injective 8 (to_uint64 r.eol) (to_uint64 s.eol) (to_uint64_fits r.eol p.eol_fits)
            (to_uint64_fits s.eol q.eol_fits) same_eol),
      same_key,
    )
  where
    tail : FnRecord → List ℕ
    tail r = be 8 r.seq ++ (be 8 (to_uint64 r.eol) ++ r.pub_key)

    tail_length : (r : FnRecord) → length (tail r) ≡ 16 + length r.pub_key
    tail_length r = omega (
      arith,
      length-append (be 8 r.seq) (be 8 (to_uint64 r.eol) ++ r.pub_key),
      length-append (be 8 (to_uint64 r.eol)) r.pub_key,
      length-be 8 r.seq,
      length-be 8 (to_uint64 r.eol),
    )

    front_length :
        (r s : FnRecord)
        → length r.pub_key ≡ length s.pub_key
        → rrs_bytes (sort_rrs r.records) ++ tail r ≡ rrs_bytes (sort_rrs s.records) ++ tail s
        → length (rrs_bytes (sort_rrs r.records)) ≡ length (rrs_bytes (sort_rrs s.records))
    front_length r s l e = omega (
      arith,
      ap length e,
      tail_length r,
      tail_length s,
      length-append (rrs_bytes (sort_rrs r.records)) (tail r),
      length-append (rrs_bytes (sort_rrs s.records)) (tail s),
    )
