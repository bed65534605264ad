-- ===== src/Bch/Token/RoundTrip.antt =====
-- Token prefixes: parsing what was encoded.
use freedom_names.Common.{
  ℕ, ◌^◌, ◌<◌, ◌≤◌, ◌≡◌, refl, bit_and, inl, inr, false, ◌==◌, none, some, List, [], ◌∷◌, ◌++◌,
  arith, length, ltb, if◌then◌else◌, Bool-cases, ltb→lt, ltb→le,
}
use freedom_names.Bch.Encode.{put_var_int, IsU64}
use freedom_names.Bch.Reader.{ok, ByteReader, read_byte, read_bytes, read_var_int}
use freedom_names.Bch.Reader.Reads.{
  Reads, At, At-advance, Reads-map, Reads-bind, Reads-return, read_byte-Reads, read_bytes-Reads,
  read_var_int-Reads,
}
use freedom_names.Bch.Token.{
  TokenInfo, token_prefix_byte, validate, has_flag, has_nft, has_commitment, token_bitfield,
  encode_commitment, encode_amount, encode_token_prefix, read_commitment_of, read_commitment,
  read_amount, read_token_fields, read_token, split_token_prefix,
}
use freedom_names.Bch.Token.Flags.{validate-none, Decodes, token_bitfield-decode}

length-zero : (xs : List ℕ) → ltb 0 (length xs) ≡ false → xs ≡ []
length-zero [] h = refl
length-zero (x ∷ xs) h = ground arith

read_commitment_of-Reads :
    (c : List ℕ) → 0 < length c → length c ≤ 40 → Reads (read_commitment_of (length c)) c c
unfolding read_commitment_of
read_commitment_of-Reads c lo hi =
    let nonzero : (length c == 0) ≡ false = ground arith in
    let fits : ltb 40 (length c) ≡ false = ground arith in
    rw (nonzero, fits) (read_bytes-Reads (length c) c refl)

read_commitment-Reads :
    (t : TokenInfo) (bits : ℕ)
    → has_flag bits 0x40 ≡ has_commitment t
    → length t.commitment ≤ 40
    → Reads (read_commitment bits) (encode_commitment t) t.commitment
unfolding read_commitment encode_commitment
read_commitment-Reads t bits flag hi = elim (Bool-cases (has_commitment t)) [
  | inl e ↦
      rw (flag, e)
        (Reads-bind read_var_int read_commitment_of (put_var_int (length t.commitment)) t.commitment
          (length t.commitment) t.commitment
          (read_var_int-Reads (length t.commitment) (omega arith))
          (read_commitment_of-Reads t.commitment (ltb→lt 0 (length t.commitment) e) hi))
  | inr e ↦ rw (flag, e) (rw (length-zero t.commitment e) (Reads-return []))
]

read_amount-Reads :
    (t : TokenInfo) (bits : ℕ)
    → has_flag bits 0x10 ≡ ltb 0 t.amount
    → IsU64 t.amount
    → Reads (read_amount bits) (encode_amount t) t.amount
unfolding read_amount encode_amount
read_amount-Reads t bits flag h = elim (Bool-cases (ltb 0 t.amount)) [
  | inl e ↦ rw (flag, e) (read_var_int-Reads t.amount h)
  | inr e ↦
      let zero_amount : t.amount ≡ 0 = omega (arith, ltb→le 0 t.amount e) in
      rw (flag, e, zero_amount) (Reads-return {A = ℕ} 0)
]

-- Without the NFT flag the capability is that of no NFT.
field_capability :
    (t : TokenInfo) (bits : ℕ)
    → has_flag bits 0x20 ≡ has_nft t
    → bit_and bits 0x0f ≡ t.capability
    → (if has_flag bits 0x20 then bit_and bits 0x0f else 0) ≡ t.capability
field_capability t bits flag e = elim (Bool-cases (has_nft t)) [
  | inl f ↦ rw (flag, f) e
  | inr f ↦ rw (flag, f) (ground arith)
]

read_token_fields-Reads :
    (t : TokenInfo) (bits : ℕ)
    → Decodes bits (has_nft t) (has_commitment t) (ltb 0 t.amount) t.capability
    → length t.commitment ≤ 40
    → IsU64 t.amount
    → Reads (read_token_fields t.category_id bits) (encode_commitment t ++ encode_amount t) t
unfolding read_token_fields
read_token_fields-Reads t bits d hc ha = rw (field_capability t bits d.1 d.4) (
    Reads-bind (read_commitment bits) _ (encode_commitment t) (encode_amount t) t.commitment t
      (read_commitment-Reads t bits d.2 hc)
      (Reads-map (read_amount bits) _ (encode_amount t) t.amount (read_amount-Reads t bits d.3 ha)))

read_token-Reads :
    (t : TokenInfo)
    → validate t ≡ none
    → IsU64 t.amount
    → Reads read_token
        (t.category_id ++ ((token_bitfield t ∷ []) ++ (encode_commitment t ++ encode_amount t)))
        t
unfolding read_token
read_token-Reads t h ha =
    let (cat, len, cap) = validate-none t h in
    let d : Decodes (token_bitfield t) (has_nft t) (has_commitment t) (ltb 0 t.amount)
        t.capability =
      token_bitfield-decode t cap in
    Reads-bind (read_bytes 32) _ t.category_id _ t.category_id t
      (read_bytes-Reads 32 t.category_id cat)
      (Reads-bind read_byte _ (token_bitfield t ∷ []) (encode_commitment t ++ encode_amount t)
        (token_bitfield t) t (read_byte-Reads (token_bitfield t))
        (rw d.0 (read_token_fields-Reads t (token_bitfield t) d len ha)))

-- For a valid token with a 64-bit amount, splitting its prefix followed by a script, in all fewer
-- than 2 ^ 63 bytes, gives the token and the script.
pub split_token_prefix-encode_token_prefix :
    (t : TokenInfo) (script : List ℕ)
    → validate t ≡ none
    → IsU64 t.amount
    → length (encode_token_prefix t ++ script) < 2 ^ 63
    → split_token_prefix (encode_token_prefix t ++ script) ≡ ok (some t, script)
unfolding split_token_prefix encode_token_prefix
split_token_prefix-encode_token_prefix t script h ha small =
    let body : List ℕ =
      t.category_id ++ ((token_bitfield t ∷ []) ++ (encode_commitment t ++ encode_amount t)) in
    let r : ByteReader = record { buf = token_prefix_byte ∷ (body ++ script); pos = 1 } in
    let at : At r (body ++ script) = record { within = omega arith; small = small; left = refl } in
    rw (read_token-Reads t h ha r script at, At.left (At-advance r body script at)) (ground arith)
