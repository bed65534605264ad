-- ===== src/Record/Publish.antt =====
-- internal/record: what the validator accepts, and that what BuildAndSignRecord makes is accepted
-- under its own key until it ends.
use freedom_names.Common.{
  leb, if◌then◌else◌, ℕ, ◌+◌, ◌/◌, ◌<◌, ◌≡◌, refl, subst, inl, inr, true, false, List, ◌∷◌, ◌++◌,
  Option, none, some, arith, length, Bool-cases, Option-cases,
}
use freedom_names.Common.Bytes.{bytes_equal_iff, bytes_equal_refl}
use freedom_names.Record.{
  Codec, FnRecord, Rr, pos, expired, second, canonical_bytes, verify, sign, default_record_ttl,
  build_and_sign_record,
}
use freedom_names.Record.Names.{dht_namespace, dht_key_of, pub_key_id, dht_key_for_pub_key}
use freedom_names.Record.Checks.{IsLive, IsSane, IsGood, verify_iff, verify_expired}
use freedom_names.Record.Validator.{bad_record, validate}

-- SplitKey takes "/namespace/path" apart, and answers so for the keys of this namespace.
pub record SplitLaws (split_key : List ℕ → Option (List ℕ × List ℕ)) : Type 0 where
  pub parts :
      (key ns id : List ℕ) → split_key key ≡ some (ns, id) → key ≡ (b'/' ∷ ns) ++ (b'/' ∷ id)
  pub fn_key : (id : List ℕ) → split_key (dht_key_of id) ≡ some (dht_namespace, id)

-- A key pair verifies what it signs.
pub record KeyLaws (c : Codec) : Type 0 where
  pub public_key :
      (priv pk : List ℕ)
      → c.public_of priv ≡ some pk
      → (0 < length pk) × (c.is_public_key pk ≡ true)
  pub signature :
      (priv pk message sig : List ℕ)
      → c.public_of priv ≡ some pk
      → c.sign_bytes priv message ≡ some sig
      → (0 < length sig) × (c.verify_bytes pk message sig ≡ some true)

module _ (c : Codec) (split_key : List ℕ → Option (List ℕ × List ℕ)) where
  -- The value holds a good record, and the key is the one of the record's own public key.
  pub record IsAccepted (now : ℕ) (key value : List ℕ) : Type 0 where
    pub content : FnRecord
    pub read : c.unmarshal_fn_record value ≡ some content
    pub own_key : dht_key_for_pub_key c content.pub_key ≡ some key
    pub good : IsGood c now content

  validate-verify :
      (now : ℕ) (key value id : List ℕ) (r : FnRecord)
      → split_key key ≡ some (dht_namespace, id)
      → c.unmarshal_fn_record value ≡ some r
      → pub_key_id c r.pub_key ≡ some id
      → validate c split_key now key value
        ≡ elim (verify c now r) [ none ↦ none | some e ↦ some (bad_record e) ]
  unfolding validate
  validate-verify now key value id r k v i =
      rw (k, v, i, validate) (ground (arith, bytes_equal_refl dht_namespace, bytes_equal_refl id))

  own :
      (key ns id want pk : List ℕ)
      → pub_key_id c pk ≡ some want
      → ns ≡ dht_namespace
      → want ≡ id
      → key ≡ (b'/' ∷ ns) ++ (b'/' ∷ id)
      → dht_key_for_pub_key c pk ≡ some key
  unfolding dht_key_for_pub_key dht_key_of
  own key ns id want pk hash same_ns same_id e = ground (arith, hash, e, same_ns, same_id)

  -- Given that SplitKey takes keys apart as documented, a value that Validate accepts holds a
  -- record whose own public key gives that DHT key, whose signature verifies over its canonical
  -- bytes, that has not ended, and whose resource records are sane and few.
  pub validate-IsAccepted :
      SplitLaws split_key
      → (now : ℕ) (key value : List ℕ) → validate c split_key now key value ≡ none
      → IsAccepted now key value
  unfolding validate
  validate-IsAccepted laws now key value h = elim (Option-cases (split_key key)) [
    | inl bad ↦ absurd (ground (arith, bad, h))
    | inr ((ns, id), parts) ↦ elim (Option-cases (c.unmarshal_fn_record value)) [
      | inl bad ↦ absurd (ground (arith, parts, bad, h))
      | inr (r, read) ↦ elim (Option-cases (pub_key_id c r.pub_key)) [
        | inl bad ↦ absurd (ground (arith, parts, read, bad, h))
        | inr (want, hash) ↦ by_parts ns id parts r read want hash
      ]
    ]
  ]
    where
      checks :
          (ns id : List ℕ)
          → split_key key ≡ some (ns, id)
          → (r : FnRecord) → c.unmarshal_fn_record value ≡ some r
          → (want : List ℕ) → pub_key_id c r.pub_key ≡ some want
          → (ns ≡ dht_namespace) × (want ≡ id) × (verify c now r ≡ none)
      checks ns id parts r read want hash =
          ground
            (arith, h, parts, read, hash, bytes_equal_iff ns dht_namespace, bytes_equal_iff want id)

      by_parts :
          (ns id : List ℕ)
          → split_key key ≡ some (ns, id)
          → (r : FnRecord) → c.unmarshal_fn_record value ≡ some r
          → (want : List ℕ) → pub_key_id c r.pub_key ≡ some want
          → IsAccepted now key value
      by_parts ns id parts r read want hash =
          let (same_ns, same_id, verified) = checks ns id parts r read want hash in
          record {
            content = r;
            read = read;
            own_key =
                own key ns id want r.pub_key hash same_ns same_id (laws.parts key ns id parts);
            good = (verify_iff c now r).0 verified;
          }

  -- The record is signed with the key.
  pub record IsSigned (priv : List ℕ) (r : FnRecord) : Type 0 where
    pub key : c.public_of priv ≡ some r.pub_key
    pub signature : c.sign_bytes priv (canonical_bytes r) ≡ some r.sig

  sign-IsSigned :
      (priv : List ℕ) (r s : FnRecord)
      → sign c priv r ≡ some s
      → IsSigned priv s × (s.eol ≡ r.eol) × (s.records ≡ r.records) × (s.label ≡ r.label)
  unfolding sign canonical_bytes
  sign-IsSigned priv r s h = elim (Option-cases (c.public_of priv)) [
    | inl bad ↦ absurd (ground (arith, bad, h))
    | inr (pk, key) ↦
        elim (Option-cases (c.sign_bytes priv (canonical_bytes (record r { pub_key = pk })))) [
          | inl bad ↦ absurd (ground (arith, key, bad, h))
          | inr (sig, signed) ↦
              let e : record r { pub_key = pk; sig = sig } ≡ s = ground (arith, key, signed, h) in
              subst
                (λ (x : FnRecord).
                  IsSigned priv x × (x.eol ≡ r.eol) × (x.records ≡ r.records) × (x.label ≡ r.label))
                e (record { key = key; signature = signed }, refl, refl, refl)
        ]
  ]

  module _ (laws : SplitLaws split_key) (keys : KeyLaws c) where
    validate-signed :
        (now : ℕ) (priv key value : List ℕ) (r : FnRecord)
        → IsSigned priv r
        → c.unmarshal_fn_record value ≡ some r
        → dht_key_for_pub_key c r.pub_key ≡ some key
        → validate c split_key now key value
          ≡ elim (verify c now r) [ none ↦ none | some e ↦ some (bad_record e) ]
    unfolding dht_key_for_pub_key
    validate-signed now priv key value r s read at = elim (Option-cases (pub_key_id c r.pub_key)) [
      | inl bad ↦ absurd (ground (arith, bad, at))
      | inr (id, hash) ↦
          let e : dht_key_of id ≡ key = ground (arith, hash, at) in
          let parts : split_key key ≡ some (dht_namespace, id) =
            subst (λ k. split_key k ≡ some (dht_namespace, id)) e (laws.fn_key id) in
          validate-verify now key value id r parts read hash
    ]

    -- Given that a key pair verifies what it signs, a sane record that BuildAndSignRecord made,
    -- read back from its bytes, is accepted by Validate under its own key until the second that is
    -- seven days later, and refused as expired from the next second on.
    pub build_and_sign_record-validate :
        (now now' : ℕ) (priv label key value : List ℕ) (records : List Rr) (seq : ℕ) (r : FnRecord)
        → build_and_sign_record c now priv label records seq ≡ some r
        → IsSane c r
        → c.unmarshal_fn_record value ≡ some r
        → dht_key_for_pub_key c r.pub_key ≡ some key
        → validate c split_key now' key value ≡ (
            if leb (now' / second) ((now + default_record_ttl) / second)
            then none
            else some (bad_record expired))
    unfolding build_and_sign_record
    build_and_sign_record-validate now now' priv label key value records seq r built sane read at =
        let (s, ends, _, _) = sign-IsSigned priv _ r built in
        let at_own_key = validate-signed now' priv key value r s read at in
        let (key_given, is_key) = keys.public_key priv r.pub_key s.key in
        let (sig_given, verifies) =
          keys.signature priv r.pub_key (canonical_bytes r) r.sig s.key s.signature in
        elim (Bool-cases (leb (now' / second) ((now + default_record_ttl) / second))) [
          | inl early ↦
              let live : IsLive now' r.eol =
                inr ((now + default_record_ttl) / second, ends, ground (arith, early)) in
              let fine : verify c now' r ≡ none = (verify_iff c now' r).1 (record {
                has_key = key_given;
                has_sig = sig_given;
                is_key = is_key;
                signed = verifies;
                live = live;
                sane = sane;
              }) in
              ground (arith, at_own_key, fine, early)
          | inr late ↦
              let over : verify c now' r ≡ some expired =
                verify_expired c now' r key_given sig_given is_key verifies (dead late ends) in
              ground (arith, at_own_key, over, late)
        ]
      where
        dead :
            leb (now' / second) ((now + default_record_ttl) / second) ≡ false
            → r.eol ≡ pos ((now + default_record_ttl) / second)
            → ¬ IsLive now' r.eol
        dead late ends = λ live. ground (arith, late, ends, live)
