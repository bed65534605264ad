-- ===== src/Record.antt =====
-- internal/record/record.go and internal/record/build.go: resource records, signed name records,
-- their canonical bytes, signing, verification and the sanity check. A string is its bytes. The
-- JSON form, the public keys and the multihash are a parameter, Codec; a call of it answers none
-- where the code's call returns an error. Times are in nanoseconds since 1970.
pub mod Ip
pub mod Names
pub mod Publish
pub mod Checks
pub mod Order
pub mod Canonical
pub mod Splice
pub mod Tests
pub mod Validator
use freedom_names.Common.{
  ℕ, zero, suc, ◌+◌, ◌-◌, ◌*◌, ◌/◌, ◌%◌, ◌^◌, Bool, true, false, not, ◌&&◌, ◌||◌, List, [], ◌∷◌,
  ◌++◌, Option, none, some, ltb, leb, ◌==◌, if◌then◌else◌, length,
}
use freedom_names.Common.Bytes.{bytes_equal, bytes_less}
use freedom_names.Record.Ip.{Address, v4, v6, parse_ip}

abbrev pub record_type_a : List ℕ
record_type_a = b'A' ∷ []

abbrev pub record_type_aaaa : List ℕ
record_type_aaaa = b'A' ∷ b'A' ∷ b'A' ∷ b'A' ∷ []

abbrev pub record_type_txt : List ℕ
record_type_txt = b'T' ∷ b'X' ∷ b'T' ∷ []

abbrev pub record_type_cname : List ℕ
record_type_cname = b'C' ∷ b'N' ∷ b'A' ∷ b'M' ∷ b'E' ∷ []

abbrev pub record_type_content : List ℕ
record_type_content = b'C' ∷ b'O' ∷ b'N' ∷ b'T' ∷ b'E' ∷ b'N' ∷ b'T' ∷ []

-- An int64; `negsuc n` is -1 - n.
pub data ℤ : Type 0 where
  pos negsuc : ℕ → ℤ

unfoldable pub int_less : ℤ → ℤ → Bool
int_less (pos m) (pos n) = ltb m n
int_less (pos m) (negsuc n) = false
int_less (negsuc m) (pos n) = true
int_less (negsuc m) (negsuc n) = ltb n m

unfoldable pub int_equal : ℤ → ℤ → Bool
int_equal (pos m) (pos n) = m == n
int_equal (pos m) (negsuc n) = false
int_equal (negsuc m) (pos n) = false
int_equal (negsuc m) (negsuc n) = m == n

-- uint64(x)
unfoldable pub to_uint64 : ℤ → ℕ
to_uint64 (pos n) = n
to_uint64 (negsuc n) = 2 ^ 64 - (1 + n)

pub record Rr : Type 0 where
  pub rr_type : List ℕ
  pub value : List ℕ
  pub ttl : ℕ

pub record FnRecord : Type 0 where
  pub label : List ℕ
  pub records : List Rr
  pub seq : ℕ
  pub eol : ℤ
  pub pub_key : List ℕ
  pub sig : List ℕ

-- The libraries that the package calls: libp2p's keys, the multihash and base36 encodings, JSON,
-- and content.IsContentHash. A private key is known by its bytes.
pub record Codec : Type 0 where
  -- crypto.MarshalPublicKey(priv.GetPublic())
  pub public_of : List ℕ → Option (List ℕ)
  -- priv.Sign(data)
  pub sign_bytes : List ℕ → List ℕ → Option (List ℕ)
  -- crypto.UnmarshalPublicKey succeeds
  pub is_public_key : List ℕ → Bool
  -- pub.Verify(data, sig)
  pub verify_bytes : List ℕ → List ℕ → List ℕ → Option Bool
  -- mh.Sum(data, mh.SHA2_256, -1)
  pub sum : List ℕ → Option (List ℕ)
  pub base36_encode : List ℕ → List ℕ
  pub base36_decode : List ℕ → Option (List ℕ)
  -- mh.Decode(raw), and whether its code is mh.SHA2_256
  pub is_sha256 : List ℕ → Option Bool
  pub is_content_hash : List ℕ → Bool
  pub marshal : FnRecord → Option (List ℕ)
  pub unmarshal_fn_record : List ℕ → Option FnRecord

-- binary.BigEndian.PutUint32 and PutUint64, of `k` bytes.
unfoldable pub be : ℕ → ℕ → List ℕ
be zero n = []
be (suc k) n = be k (n / 256) ++ ((n % 256) ∷ [])

-- The comparison that canonicalBytes sorts by.
unfoldable pub rr_less : Rr → Rr → Bool
rr_less a b =
    if bytes_equal a.rr_type b.rr_type
    then bytes_less a.value b.value
    else bytes_less a.rr_type b.rr_type

-- sort.Slice, as an insertion sort that is stable.
unfoldable pub insert_rr : Rr → List Rr → List Rr
insert_rr r [] = r ∷ []
insert_rr r (s ∷ ss) = let rest = insert_rr r ss in if rr_less s r then s ∷ rest else r ∷ s ∷ ss

unfoldable pub sort_rrs : List Rr → List Rr
sort_rrs [] = []
sort_rrs (r ∷ rs) = insert_rr r (sort_rrs rs)

unfoldable pub rr_bytes : Rr → List ℕ
rr_bytes r = (r.rr_type ++ (0 ∷ [])) ++ ((r.value ++ (0 ∷ [])) ++ be 4 r.ttl)

unfoldable pub rrs_bytes : List Rr → List ℕ
rrs_bytes [] = []
rrs_bytes (r ∷ rs) = rr_bytes r ++ rrs_bytes rs

unfoldable pub canonical_bytes : FnRecord → List ℕ
canonical_bytes r =
    (r.label ++ (0 ∷ []))
    ++ (rrs_bytes (sort_rrs r.records) ++ (be 8 r.seq ++ (be 8 (to_uint64 r.eol) ++ r.pub_key)))

abbrev pub max_rrs_per_record : ℕ
max_rrs_per_record = 32

abbrev pub max_label_len : ℕ
max_label_len = 190

abbrev pub max_txt_len : ℕ
max_txt_len = 255

abbrev pub max_dns_name_len : ℕ
max_dns_name_len = 253

abbrev pub second : ℕ
second = 1_000_000_000

-- 7 days
abbrev pub default_record_ttl : ℕ
default_record_ttl = 7 * 24 * 3600 * second

-- now.Unix() > eol
unfoldable pub is_after : ℕ → ℤ → Bool
is_after now (pos eol) = ltb eol (now / second)
is_after now (negsuc n) = true

pub data RecordError : Type 0 where
  no_public_key no_signature bad_public_key verify_failed invalid_signature expired no_records :
      RecordError
  too_many_records label_too_long invalid_ipv4 invalid_ipv6 empty_target target_too_long :
      RecordError
  invalid_content_hash txt_too_long unsupported_type : RecordError

-- An `error`: none is nil.
abbrev pub Check : Type 0
Check = Option RecordError

module _ (c : Codec) where
  unfoldable pub validate_rr : Rr → Check
  validate_rr r =
      if bytes_equal r.rr_type record_type_a
      then elim (parse_ip r.value) [
        | some (v4 _) ↦ none
        | some (v6 _) ↦ some invalid_ipv4
        | none ↦ some invalid_ipv4
      ]
      else if bytes_equal r.rr_type record_type_aaaa
      then elim (parse_ip r.value) [
        | some (v6 _) ↦ none
        | some (v4 _) ↦ some invalid_ipv6
        | none ↦ some invalid_ipv6
      ]
      else if bytes_equal r.rr_type record_type_cname
      then if length r.value == 0
        then some empty_target
        else if ltb max_dns_name_len (length r.value)
        then some target_too_long
        else none
      else if bytes_equal r.rr_type record_type_content
      then if c.is_content_hash r.value then none else some invalid_content_hash
      else if bytes_equal r.rr_type record_type_txt
      then if ltb max_txt_len (length r.value) then some txt_too_long else none
      else some unsupported_type

  unfoldable pub validate_rrs : List Rr → Check
  validate_rrs [] = none
  validate_rrs (r ∷ rs) = elim (validate_rr r) [ some e ↦ some e | none ↦ validate_rrs rs ]

  unfoldable pub validate_records : FnRecord → Check
  validate_records r =
      if length r.records == 0
      then some no_records
      else if ltb max_rrs_per_record (length r.records)
      then some too_many_records
      else if ltb max_label_len (length r.label)
      then some label_too_long
      else validate_rrs r.records

  -- The signature check and what follows it, of Verify.
  unfoldable pub check_signature : ℕ → FnRecord → Option Bool → Check
  check_signature now r none = some verify_failed
  check_signature now r (some false) = some invalid_signature
  check_signature now r (some true) =
      if not (int_equal r.eol (pos 0)) && is_after now r.eol
      then some expired
      else validate_records r

  unfoldable pub verify : ℕ → FnRecord → Check
  verify now r =
      if length r.pub_key == 0
      then some no_public_key
      else if length r.sig == 0
      then some no_signature
      else if not (c.is_public_key r.pub_key)
      then some bad_public_key
      else check_signature now r (c.verify_bytes r.pub_key (canonical_bytes r) r.sig)

  unfoldable pub sign : List ℕ → FnRecord → Option FnRecord
  sign priv r = elim (c.public_of priv) [
    | none ↦ none
    | some pub_bytes ↦
        elim (c.sign_bytes priv (canonical_bytes (record r { pub_key = pub_bytes }))) [
          | none ↦ none
          | some sig ↦ some (record r { pub_key = pub_bytes; sig = sig })
        ]
  ]

  unfoldable pub build_and_sign_record : ℕ → List ℕ → List ℕ → List Rr → ℕ → Option FnRecord
  build_and_sign_record now priv label records seq = sign priv (record {
    label = label;
    records = records;
    seq = seq;
    eol = pos ((now + default_record_ttl) / second);
    pub_key = [];
    sig = [];
  })
