-- ===== src/Record/Tests/Texts.antt =====
-- Records of internal/record/record.go that are signed by the same bytes.
use freedom_names.Common.{
  ◌^◌, Bool, true, false, not, ◌&&◌, ◌==◌, ℕ, ◌≡◌, ◌≢◌, refl, ◌<◌, ◌≤◌, List, [], ◌∷◌, none, arith,
  length,
}
use freedom_names.Common.Bytes.{bytes_less, bytes_equal}
use freedom_names.Record.{
  FnRecord, Rr, be, sort_rrs, canonical_bytes, rr_less, insert_rr, rr_bytes, rrs_bytes, to_uint64,
  int_equal, is_after, validate_rr, validate_rrs, validate_records, check_signature, verify,
}
use freedom_names.Record.Canonical.{HasNoNul, IsPlain, IsPlainRecord, canonical_bytes_determine}
use freedom_names.Record.Splice.{txt, spliced, verify-spliced}
use freedom_names.Record.Tests.{toy, published, reordered, same_bytes, start}

abbrev no_zero : List ℕ → Bool
no_zero [] = true
no_zero (b ∷ bs) = not (b == 0) && no_zero bs

no_zero-HasNoNul : (s : List ℕ) → no_zero s ≡ true → HasNoNul s
no_zero-HasNoNul [] e = tt
no_zero-HasNoNul (b ∷ bs) e =
    (λ h. absurd (ground (arith, e, h)), no_zero-HasNoNul bs (ground (arith, e)))

plain : (r : Rr) → no_zero r.rr_type ≡ true → no_zero r.value ≡ true → r.ttl < 256 ^ 4 → IsPlain r
plain r e f g = record {
  type_text = no_zero-HasNoNul r.rr_type e;
  value_text = no_zero-HasNoNul r.value f;
  ttl_fits = g;
}

published-IsPlainRecord : IsPlainRecord published
published-IsPlainRecord = record {
  label_text = no_zero-HasNoNul published.label refl;
  records = (plain _ refl refl (omega arith), (plain _ refl refl (omega arith), tt));
  seq_fits = omega arith;
  eol_fits = omega arith;
}

reordered-IsPlainRecord : IsPlainRecord reordered
reordered-IsPlainRecord = record {
  label_text = no_zero-HasNoNul published.label refl;
  records = (plain _ refl refl (omega arith), (plain _ refl refl (omega arith), tt));
  seq_fits = omega arith;
  eol_fits = omega arith;
}

canonical_bytes_determine_example :
    (published.label ≡ reordered.label)
    × (sort_rrs published.records ≡ sort_rrs reordered.records)
    × (published.seq ≡ reordered.seq)
    × (published.eol ≡ reordered.eol)
    × (published.pub_key ≡ reordered.pub_key)
canonical_bytes_determine_example =
    canonical_bytes_determine published reordered published-IsPlainRecord reordered-IsPlainRecord
      refl same_bytes

-- Two texts of one byte, signed with the toy key.
abbrev two_unsigned : FnRecord
two_unsigned = record published { records = txt (b'a' ∷ []) 60 ∷ txt (b'b' ∷ []) 60 ∷ [] }

abbrev two_texts : FnRecord
two_texts = record two_unsigned { sig = 1 ∷ 0x24 ∷ 7 ∷ canonical_bytes two_unsigned }

two_texts_good : verify toy start two_texts ≡ none
unfolding bytes_equal bytes_less be rr_less insert_rr sort_rrs rr_bytes rrs_bytes canonical_bytes
    to_uint64 int_equal is_after validate_rr validate_rrs validate_records check_signature verify
two_texts_good = refl

in_order : rr_less (txt (b'b' ∷ []) 60) (txt (b'a' ∷ []) 60) ≡ false
unfolding rr_less bytes_equal bytes_less
in_order = refl

spliced_short : length (spliced (b'a' ∷ []) 60 (b'b' ∷ [])) ≤ 255
unfolding be
spliced_short = omega arith

verify-spliced_example :
    (verify toy start
        (record two_texts { records = txt (spliced (b'a' ∷ []) 60 (b'b' ∷ [])) 60 ∷ [] })
      ≡ none)
    × (two_texts.records ≢ txt (spliced (b'a' ∷ []) 60 (b'b' ∷ [])) 60 ∷ [])
verify-spliced_example =
    verify-spliced toy start two_texts (b'a' ∷ []) (b'b' ∷ []) 60 60 refl in_order two_texts_good
      spliced_short
