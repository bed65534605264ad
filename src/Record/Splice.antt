-- ===== src/Record/Splice.antt =====
-- internal/record/record.go: a text that carries the byte 0. The lengths of the texts are not among
-- the signed bytes, so two resource records have the bytes of one.
use freedom_names.Common.{
  ℕ, ◌≤◌, ◌≡◌, ◌≢◌, refl, sym, ap, ◌∙◌, inr, false, none, List, [], ◌∷◌, ◌++◌, arith, length,
  append_assoc, append-nil,
}
use freedom_names.Record.{
  Codec, FnRecord, Rr, be, rr_bytes, rrs_bytes, rr_less, insert_rr, sort_rrs, canonical_bytes,
  record_type_txt, verify,
}
use freedom_names.Record.Checks.{verify_iff}

abbrev pub txt : List ℕ → ℕ → Rr
txt v t = record { rr_type = record_type_txt; value = v; ttl = t }

-- The value that holds the first record's value and TTL, and the second record's type and value.
abbrev pub spliced : List ℕ → ℕ → List ℕ → List ℕ
spliced v t w = v ++ (0 ∷ (be 4 t ++ (record_type_txt ++ (0 ∷ w))))

spliced_bytes :
    (v w : List ℕ) (t u : ℕ)
    → rrs_bytes (txt (spliced v t w) u ∷ []) ≡ rrs_bytes (txt v t ∷ txt w u ∷ [])
unfolding rrs_bytes rr_bytes
spliced_bytes v w t u = simp (append-nil, append_assoc) refl

canonical_bytes-spliced :
    (r : FnRecord) (v w : List ℕ) (t u : ℕ)
    → r.records ≡ txt v t ∷ txt w u ∷ []
    → rr_less (txt w u) (txt v t) ≡ false
    → canonical_bytes (record r { records = txt (spliced v t w) u ∷ [] }) ≡ canonical_bytes r
unfolding canonical_bytes sort_rrs insert_rr
canonical_bytes-spliced r v w t u two in_order = rw (two, in_order, spliced_bytes v w t u) refl

-- A record with two TXT records, in order, that Verify accepts is also accepted when the two are
-- replaced by one TXT record whose value splices them with zero bytes, if that value has at most
-- 255 bytes; the record sets differ.
pub verify-spliced :
    (c : Codec) (now : ℕ) (r : FnRecord) (v w : List ℕ) (t u : ℕ)
    → r.records ≡ txt v t ∷ txt w u ∷ []
    → rr_less (txt w u) (txt v t) ≡ false
    → verify c now r ≡ none
    → length (spliced v t w) ≤ 255
    → (verify c now (record r { records = txt (spliced v t w) u ∷ [] }) ≡ none)
      × (r.records ≢ txt (spliced v t w) u ∷ [])
verify-spliced c now r v w t u two in_order good short =
    let g = (verify_iff c now r).0 good in
    let s = record r { records = txt (spliced v t w) u ∷ [] } in
    (
      (verify_iff c now s).1 (record {
        has_key = g.has_key;
        has_sig = g.has_sig;
        is_key = g.is_key;
        signed = rw (canonical_bytes-spliced r v w t u two in_order) g.signed;
        live = g.live;
        sane = record {
          not_empty = omega arith;
          few = omega arith;
          short_label = g.sane.short_label;
          sane = (inr (inr (inr (inr (refl, short)))), tt);
        };
      }),
      λ same. omega (arith, ap length (sym two ∙ same)),
    )
