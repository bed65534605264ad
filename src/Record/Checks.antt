-- ===== src/Record/Checks.antt =====
-- internal/record/record.go, ValidateRecords and Verify: which records pass, said without the tests
-- of the code.
use freedom_names.Common.{
  ℕ, ◌/◌, ◌≤◌, ◌<◌, ◌≡◌, refl, ◌⊎◌, inl, inr, ◌↔◌, Bool, true, false, not, ◌&&◌, List, [], ◌∷◌,
  Option, none, some, arith, length, All, Option-cases, ==_iff,
}
use freedom_names.Common.Bytes.{bytes_equal_iff}
use freedom_names.Record.{
  Codec, FnRecord, Rr, ℤ, pos, negsuc, record_type_a, record_type_aaaa, record_type_cname,
  record_type_content, record_type_txt, second, is_after, int_equal, validate_rr, validate_rrs,
  validate_records, check_signature, verify, canonical_bytes, expired,
}
use freedom_names.Record.Ip.{v4, v6, parse_ip}

-- A record that has no end, or whose end is not past.
abbrev pub IsLive : ℕ → ℤ → Type 0
IsLive now eol = (eol ≡ pos 0) ⊎ ((n : ℕ) × (eol ≡ pos n) × (now / second ≤ n))

module _ (c : Codec) where
  abbrev pub IsSaneRr : Rr → Type 0
  IsSaneRr r =
      ((r.rr_type ≡ record_type_a) × (bs : List ℕ) × (parse_ip r.value ≡ some (v4 bs)))
      ⊎ (((r.rr_type ≡ record_type_aaaa) × (bs : List ℕ) × (parse_ip r.value ≡ some (v6 bs)))
          ⊎ (((r.rr_type ≡ record_type_cname) × (0 < length r.value) × (length r.value ≤ 253))
              ⊎ (((r.rr_type ≡ record_type_content) × (c.is_content_hash r.value ≡ true))
                  ⊎ ((r.rr_type ≡ record_type_txt) × (length r.value ≤ 255)))))

  pub record IsSane (r : FnRecord) : Type 0 where
    pub not_empty : 0 < length r.records
    pub few : length r.records ≤ 32
    pub short_label : length r.label ≤ 190
    pub sane : All IsSaneRr r.records

  validate_rr_iff : (r : Rr) → (validate_rr c r ≡ none) ↔ IsSaneRr r
  unfolding validate_rr
  validate_rr_iff r = ground (
    arith,
    bytes_equal_iff r.rr_type record_type_a,
    bytes_equal_iff r.rr_type record_type_aaaa,
    bytes_equal_iff r.rr_type record_type_cname,
    bytes_equal_iff r.rr_type record_type_content,
    bytes_equal_iff r.rr_type record_type_txt,
  )

  validate_rrs_iff : (rs : List Rr) → (validate_rrs c rs ≡ none) ↔ All IsSaneRr rs
  unfolding validate_rrs
  validate_rrs_iff [] = (λ e. tt, λ u. refl)
  validate_rrs_iff (r ∷ rs) = elim (Option-cases (validate_rr c r)) [
    | inl fine ↦ (
      λ e. ((validate_rr_iff r).0 fine, (validate_rrs_iff rs).0 (ground (arith, fine, e))),
      λ (p, ps). ground (arith, fine, (validate_rrs_iff rs).1 ps),
    )
    | inr (x, bad) ↦ (
      λ e. absurd (ground (arith, bad, e)),
      λ (p, ps). absurd (ground (arith, bad, (validate_rr_iff r).1 p)),
    )
  ]

  -- validate_records
  pub validate_records_iff : (r : FnRecord) → (validate_records c r ≡ none) ↔ IsSane r
  unfolding validate_records
  validate_records_iff r = (
    λ e. record {
      not_empty = ground (arith, e);
      few = ground (arith, e);
      short_label = ground (arith, e);
      sane = (validate_rrs_iff r.records).0 (ground (arith, e));
    },
    λ s. ground (arith, s.not_empty, s.few, s.short_label, (validate_rrs_iff r.records).1 s.sane),
  )

  pub IsLive-cases :
      (now : ℕ) (eol : ℤ)
      → (IsLive now eol × ((not (int_equal eol (pos 0)) && is_after now eol) ≡ false))
        ⊎ ((¬ IsLive now eol) × ((not (int_equal eol (pos 0)) && is_after now eol) ≡ true))
  unfolding is_after int_equal
  IsLive-cases now (pos n) = ground (arith, ==_iff n 0)
  IsLive-cases now (negsuc n) = ground arith

  -- A record that Verify accepts.
  pub record IsGood (now : ℕ) (r : FnRecord) : Type 0 where
    pub has_key : 0 < length r.pub_key
    pub has_sig : 0 < length r.sig
    pub is_key : c.is_public_key r.pub_key ≡ true
    pub signed : c.verify_bytes r.pub_key (canonical_bytes r) r.sig ≡ some true
    pub live : IsLive now r.eol
    pub sane : IsSane r

  check_signature_iff :
      (now : ℕ) (r : FnRecord) (o : Option Bool)
      → (check_signature c now r o ≡ none) ↔ ((o ≡ some true) × IsLive now r.eol × IsSane r)
  unfolding check_signature
  check_signature_iff now r none = (λ e. absurd cc, λ (e, _, _). absurd cc)
  check_signature_iff now r (some false) = (λ e. absurd cc, λ (e, _, _). absurd cc)
  check_signature_iff now r (some true) = elim (IsLive-cases now r.eol) [
    | inl (live, t) ↦ (
      λ e. (refl, live, (validate_records_iff r).0 (ground (arith, t, e))),
      λ (_, _, s). ground (arith, t, (validate_records_iff r).1 s),
    )
    | inr (dead, t) ↦ (λ e. absurd (ground (arith, t, e)), λ (_, live, _). absurd (dead live))
  ]

  -- verify
  pub verify_iff : (now : ℕ) (r : FnRecord) → (verify c now r ≡ none) ↔ IsGood now r
  unfolding verify
  verify_iff now r = (
    λ e. by_signature e (
        (check_signature_iff now r (c.verify_bytes r.pub_key (canonical_bytes r) r.sig)).0
          (ground (arith, e))),
    λ g. ground (
      arith,
      g.has_key,
      g.has_sig,
      g.is_key,
      (check_signature_iff now r (c.verify_bytes r.pub_key (canonical_bytes r) r.sig)).1
          (g.signed, g.live, g.sane),
    ),
  )
    where
      by_signature :
          verify c now r ≡ none
          → (c.verify_bytes r.pub_key (canonical_bytes r) r.sig ≡ some true)
            × IsLive now r.eol
            × IsSane r
          → IsGood now r
      by_signature e (s, live, sane) = record {
        has_key = ground (arith, e);
        has_sig = ground (arith, e);
        is_key = ground (arith, e);
        signed = s;
        live = live;
        sane = sane;
      }

  -- A signed record that has ended is refused for that.
  pub verify_expired :
      (now : ℕ) (r : FnRecord)
      → 0 < length r.pub_key
      → 0 < length r.sig
      → c.is_public_key r.pub_key ≡ true
      → c.verify_bytes r.pub_key (canonical_bytes r) r.sig ≡ some true
      → ¬ IsLive now r.eol
      → verify c now r ≡ some expired
  unfolding verify check_signature
  verify_expired now r k g p s dead = elim (IsLive-cases now r.eol) [
    | inl (live, _) ↦ absurd (dead live)
    | inr (_, t) ↦ ground (arith, k, g, p, s, t)
  ]
