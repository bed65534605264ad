-- ===== src/Record/Tests.antt =====
-- Runs of internal/record on small records, with toy keys: a signature is the signed bytes after
-- the public key, and the id of a key is "k1".
mod Choices
mod Texts
use freedom_names.Common.{
  ◌*◌, ◌+◌, ℕ, zero, suc, ◌<◌, ◌≡◌, ◌≢◌, refl, sym, ap, ◌∙◌, subst, ◌⊎◌, inl, inr, ◌↔◌, Bool, true,
  false, List, [], ◌∷◌, ◌++◌, Option, none, some, arith, ltb, leb, ◌==◌, if◌then◌else◌, length,
  get_elem?, All, ==_iff, Bool-cases, ◌%◌, ◌/◌,
}
use freedom_names.Common.Bytes.{bytes_equal, bytes_less, bytes_equal_refl, bytes_equal→≡}
use freedom_names.Record.{
  Codec, FnRecord, Rr, ℤ, pos, negsuc, int_less, int_equal, to_uint64, be, rr_less, insert_rr,
  sort_rrs, rr_bytes, rrs_bytes, canonical_bytes, is_after, validate_rr, validate_rrs,
  validate_records, check_signature, verify, sign, build_and_sign_record, record_type_a,
  record_type_aaaa, record_type_txt, record_type_cname, second, expired,
}
use freedom_names.Record.Ip.{
  split, is_digit, octet_from, octet, octets, parse_ipv4, hex_digit, hex_from, hex_group, groups,
  side, cut_ellipsis, zeros, fill, parse_ipv6, to4, has_colon_first, parse_ip, v4, v6,
}
use freedom_names.Record.Names.{
  lower_byte, to_lower, trim_dot, canonical_name, join, split_last, parse_name, has_suffix,
  dht_key_of, dht_key_for_name, pub_key_id, dht_key_for_pub_key, dht_key, full_name, is_pub_key_id,
  is_bare_name, dht_namespace,
}
use freedom_names.Record.Checks.{IsSane, IsGood}
use freedom_names.Record.Publish.{
  SplitLaws, KeyLaws, IsAccepted, validate-IsAccepted, build_and_sign_record-validate,
}
use freedom_names.Record.Validator.{
  bad_record, selected, refused, better_record, validate, weigh, select_from, select,
}

-- 192.168.0.1
abbrev pub ip4 : List ℕ
ip4 = b'1' ∷ b'9' ∷ b'2' ∷ b'.' ∷ b'1' ∷ b'6' ∷ b'8' ∷ b'.' ∷ b'0' ∷ b'.' ∷ b'1' ∷ []

-- ::ffff:1.2.3.4
abbrev mapped : List ℕ
mapped =
    b':' ∷ b':' ∷ b'f' ∷ b'f' ∷ b'f' ∷ b'f' ∷ b':' ∷ b'1' ∷ b'.' ∷ b'2' ∷ b'.' ∷ b'3' ∷ b'.' ∷ b'4'
    ∷ []

-- 2001:db8::1
abbrev ip6 : List ℕ
ip6 = b'2' ∷ b'0' ∷ b'0' ∷ b'1' ∷ b':' ∷ b'd' ∷ b'b' ∷ b'8' ∷ b':' ∷ b':' ∷ b'1' ∷ []

parse_ip_v4 : parse_ip ip4 ≡ some (v4 (192 ∷ 168 ∷ 0 ∷ 1 ∷ []))
unfolding split is_digit octet_from octet octets parse_ipv4 hex_digit hex_from hex_group groups side
    cut_ellipsis zeros fill parse_ipv6 to4 has_colon_first parse_ip bytes_equal
parse_ip_v4 = refl

parse_ip-mapped : parse_ip mapped ≡ some (v4 (1 ∷ 2 ∷ 3 ∷ 4 ∷ []))
unfolding split is_digit octet_from octet octets parse_ipv4 hex_digit hex_from hex_group groups side
    cut_ellipsis zeros fill parse_ipv6 to4 has_colon_first parse_ip bytes_equal
parse_ip-mapped = refl

parse_ip_v6 :
    parse_ip ip6
    ≡ some (v6 (0x20 ∷ 0x01 ∷ 0x0d ∷ 0xb8 ∷ 0 ∷ 0 ∷ 0 ∷ 0 ∷ 0 ∷ 0 ∷ 0 ∷ 0 ∷ 0 ∷ 0 ∷ 0 ∷ 1 ∷ []))
unfolding split is_digit octet_from octet octets parse_ipv4 hex_digit hex_from hex_group groups side
    cut_ellipsis zeros fill parse_ipv6 to4 has_colon_first parse_ip bytes_equal
parse_ip_v6 = refl

-- 01.2.3.4
parse_ip_zero : parse_ip (b'0' ∷ b'1' ∷ b'.' ∷ b'2' ∷ b'.' ∷ b'3' ∷ b'.' ∷ b'4' ∷ []) ≡ none
unfolding split is_digit octet_from octet octets parse_ipv4 hex_digit hex_from hex_group groups side
    cut_ellipsis zeros fill parse_ipv6 to4 has_colon_first parse_ip bytes_equal
parse_ip_zero = refl

abbrev pub key_id : List ℕ
key_id = b'k' ∷ b'1' ∷ []

abbrev pub toy_with : (List ℕ → Option FnRecord) → Codec
toy_with unmarshal = record {
  public_of = λ priv. some (0x24 ∷ priv);
  sign_bytes = λ priv message. some (1 ∷ 0x24 ∷ (priv ++ message));
  is_public_key = λ pk. true;
  verify_bytes = λ pk message sig. some (bytes_equal sig (1 ∷ (pk ++ message)));
  sum = λ pk. some pk;
  base36_encode = λ h. key_id;
  base36_decode = λ s. some s;
  is_sha256 = λ raw. some (bytes_equal raw key_id);
  is_content_hash = λ h. true;
  marshal = λ r. some (r.seq ∷ []);
  unmarshal_fn_record = unmarshal;
}

-- A record with a text and an address.
abbrev pub site : List ℕ
site = b's' ∷ b'i' ∷ b't' ∷ b'e' ∷ []

abbrev pub site_rrs : List Rr
site_rrs =
    record { rr_type = record_type_txt; value = b'h' ∷ b'i' ∷ []; ttl = 60 }
    ∷ record { rr_type = record_type_a; value = ip4; ttl = 300 }
    ∷ []

abbrev pub start : ℕ
start = 1000 * second

abbrev pub nothing : List ℕ → Option FnRecord
nothing v = none

-- What BuildAndSignRecord makes of it.
abbrev unsigned : FnRecord
unsigned = record {
  label = site;
  records = site_rrs;
  seq = 1;
  eol = pos (1000 + 604_800);
  pub_key = 0x24 ∷ 7 ∷ [];
  sig = [];
}

abbrev pub published : FnRecord
published = record unsigned { sig = 1 ∷ 0x24 ∷ 7 ∷ canonical_bytes unsigned }

abbrev pub toy : Codec
toy = toy_with (λ v. if bytes_equal v (1 ∷ []) then some published else none)

abbrev toy_split : List ℕ → Option (List ℕ × List ℕ)
toy_split [] = none
toy_split (a ∷ []) = none
toy_split (a ∷ b ∷ []) = none
toy_split (a ∷ b ∷ d ∷ []) = none
toy_split (a ∷ b ∷ d ∷ e ∷ id) =
    if bytes_equal (a ∷ b ∷ d ∷ e ∷ []) (b'/' ∷ b'f' ∷ b'n' ∷ b'/' ∷ [])
    then some (dht_namespace, id)
    else none

toy-SplitLaws : SplitLaws toy_split
unfolding dht_key_of bytes_equal
toy-SplitLaws = record { parts = parts; fn_key = λ id. refl }
  where
    parts : (key ns id : List ℕ) → toy_split key ≡ some (ns, id) → key ≡ (b'/' ∷ ns) ++ (b'/' ∷ id)
    parts [] ns id e = cc
    parts (a ∷ []) ns id e = cc
    parts (a ∷ b ∷ []) ns id e = cc
    parts (a ∷ b ∷ d ∷ []) ns id e = cc
    parts (a ∷ b ∷ d ∷ x ∷ key) ns id e =
        elim (Bool-cases (bytes_equal (a ∷ b ∷ d ∷ x ∷ []) (b'/' ∷ b'f' ∷ b'n' ∷ b'/' ∷ []))) [
          | inl same ↦
              ground (arith, same, e, ==_iff a b'/', ==_iff b b'f', ==_iff d b'n', ==_iff x b'/')
          | inr other ↦ absurd (ground (arith, other, e))
        ]

toy-KeyLaws : KeyLaws toy
toy-KeyLaws = record {
  public_key = λ priv pk e. ground (arith, e);
  signature = λ priv pk message sig e f. verified priv pk message sig e f;
}
  where
    verified :
        (priv pk message sig : List ℕ)
        → ◌≡◌ {A = Option (List ℕ)} (some (0x24 ∷ priv)) (some pk)
        → ◌≡◌ {A = Option (List ℕ)} (some (1 ∷ 0x24 ∷ (priv ++ message))) (some sig)
        → (0 < length sig)
          × (◌≡◌ {A = Option Bool} (some (bytes_equal sig (1 ∷ (pk ++ message)))) (some true))
    verified priv pk message sig e f =
        let same : sig ≡ 1 ∷ (pk ++ message) = ground (arith, e, f) in
        (ground (arith, f), rw (same, bytes_equal_refl (1 ∷ (pk ++ message))) refl)

abbrev pub key_id_key : List ℕ
key_id_key = b'/' ∷ b'f' ∷ b'n' ∷ b'/' ∷ key_id

published-IsSane : IsSane toy published
unfolding parse_ip has_colon_first parse_ipv4 split octets octet octet_from is_digit
published-IsSane = record {
  not_empty = omega arith;
  few = omega arith;
  short_label = omega arith;
  sane =
      (inr (inr (inr (inr (refl, omega arith)))), (inl (refl, 192 ∷ 168 ∷ 0 ∷ 1 ∷ [], refl), tt));
}

built : build_and_sign_record toy start (7 ∷ []) site site_rrs 1 ≡ some published
unfolding build_and_sign_record sign canonical_bytes
built = refl

validated : validate toy toy_split start key_id_key (1 ∷ []) ≡ none
unfolding split is_digit octet_from octet octets parse_ipv4 has_colon_first parse_ip bytes_equal
    bytes_less be rr_less insert_rr sort_rrs rr_bytes rrs_bytes canonical_bytes to_uint64 int_equal
    is_after validate_rr validate_rrs validate_records check_signature verify validate pub_key_id
    dht_key_of dht_key_for_pub_key
validated = refl

validate-IsAccepted_example : IsAccepted toy toy_split start key_id_key (1 ∷ [])
validate-IsAccepted_example =
    validate-IsAccepted toy toy_split toy-SplitLaws start key_id_key (1 ∷ []) validated

own_key : dht_key_for_pub_key toy (0x24 ∷ 7 ∷ []) ≡ some key_id_key
unfolding dht_key_for_pub_key pub_key_id dht_key_of
own_key = refl

read_back : toy.unmarshal_fn_record (1 ∷ []) ≡ some published
unfolding bytes_equal
read_back = refl

build_and_sign_record-validate_example :
    validate toy toy_split (start + 700_000 * second) key_id_key (1 ∷ [])
    ≡ some (bad_record expired)
build_and_sign_record-validate_example =
    build_and_sign_record-validate toy toy_split toy-SplitLaws toy-KeyLaws start
      (start + 700_000 * second) (7 ∷ []) site key_id_key (1 ∷ []) site_rrs 1 published built
      published-IsSane read_back own_key

-- The same record, its resource records in the other order.
abbrev pub reordered : FnRecord
reordered = record published {
  records =
      record { rr_type = record_type_a; value = ip4; ttl = 300 }
      ∷ record { rr_type = record_type_txt; value = b'h' ∷ b'i' ∷ []; ttl = 60 }
      ∷ [];
}

pub same_bytes : canonical_bytes published ≡ canonical_bytes reordered
unfolding rr_less insert_rr sort_rrs canonical_bytes bytes_equal bytes_less
same_bytes = refl
