-- ===== src/Node/Wire/RoundTrip.antt =====
-- internal/node, the wire format: what is written is read back, with the rest of the stream left,
-- and what is read is within the limits.
use freedom_names.Common.{
  ℕ, zero, suc, ◌+◌, ◌*◌, ◌/◌, ◌%◌, ◌^◌, ◌≤◌, ◌<◌, ◌≡◌, refl, ap, ◌∙◌, subst, inl, inr, true, false,
  ◌&&◌, List, [], ◌∷◌, ◌++◌, some, String, arith, ltb, leb, ◌==◌, length, append_assoc,
  length-append, take-append, drop-append, Bool-cases, Option-cases,
}
use freedom_names.Common.Texts.{codes, IsLatin, text_of-codes}
use freedom_names.Content.Store.{Hashing, max_blob_size}
use freedom_names.Content.Manifest.{max_content_size, max_manifest_chunks}
use freedom_names.Node.Wire.{
  Offer, uvarint_bytes, put_uvarint, uvarint_from, read_uvarint, read_full, write_request,
  read_request, write_blob_header, capped, read_blob_max, write_push_offer, read_push_numbers,
  read_push_offer,
}

uvarint_bytes_last : (k n : ℕ) → ltb n 128 ≡ true → uvarint_bytes (suc k) n ≡ n ∷ []
unfolding uvarint_bytes
uvarint_bytes_last k n e = ground (arith, e)

uvarint_bytes_more :
    (k n : ℕ)
    → ltb n 128 ≡ false
    → uvarint_bytes (suc k) n ≡ (n % 128 + 128) ∷ uvarint_bytes k (n / 128)
unfolding uvarint_bytes
uvarint_bytes_more k n e = ground (arith, e)

uvarint_from_last :
    (k b : ℕ) (r : List ℕ)
    → ltb b 128 ≡ true
    → (k == 0 && ltb 1 b) ≡ false
    → uvarint_from (suc k) (b ∷ r) ≡ some (b, r)
unfolding uvarint_from
uvarint_from_last k b r e f = ground (arith, e, f)

uvarint_from_more :
    (k b n : ℕ) (r r' : List ℕ)
    → ltb b 128 ≡ false
    → uvarint_from k r ≡ some (n, r')
    → uvarint_from (suc k) (b ∷ r) ≡ some (b % 128 + 128 * n, r')
unfolding uvarint_from
uvarint_from_more k b n r r' e f = ground (arith, e, f)

uvarint_from-uvarint_bytes :
    (k n : ℕ) (r : List ℕ)
    → n < 2 * 128 ^ k
    → uvarint_from (suc k) (uvarint_bytes (suc k) n ++ r) ≡ some (n, r)
uvarint_from-uvarint_bytes zero n r l =
    let small : ltb n 128 ≡ true = ground (arith, l) in
    rw (uvarint_bytes_last 0 n small) (uvarint_from_last 0 n r small (ground (arith, l)))
uvarint_from-uvarint_bytes (suc k) n r l = elim (Bool-cases (ltb n 128)) [
  | inl small ↦
      rw (uvarint_bytes_last (suc k) n small) (uvarint_from_last (suc k) n r small (ground arith))
  | inr large ↦
      let rest = uvarint_from-uvarint_bytes k (n / 128) r (omega (arith, l)) in
      let value : (n % 128 + 128) % 128 + 128 * (n / 128) ≡ n = omega arith in
      rw (uvarint_bytes_more (suc k) n large) (
        uvarint_from_more (suc k) (n % 128 + 128) (n / 128) _ r (ground arith) rest
        ∙ ap (λ (m : ℕ). some (m, r)) value)
]

pub read_uvarint-put_uvarint :
    (n : ℕ) (r : List ℕ) → n < 2 ^ 64 → read_uvarint (put_uvarint n ++ r) ≡ some (n, r)
unfolding read_uvarint put_uvarint
read_uvarint-put_uvarint n r l = uvarint_from-uvarint_bytes 9 n r (omega arith)

read_full-append : (b r : List ℕ) → read_full (length b) (b ++ r) ≡ some (b, r)
unfolding read_full
read_full-append b r =
    let enough : leb (length b) (length (b ++ r)) ≡ true = ground (arith, length-append b r) in
    rw (enough, take-append (length b) b r refl, drop-append (length b) b r refl) refl

pub read_request-write_request :
    (h : String) (r : List ℕ)
    → IsLatin h
    → 0 < length (codes h)
    → length (codes h) ≤ 128
    → read_request (write_request h ++ r) ≡ some (h, r)
unfolding read_request write_request
read_request-write_request h r latin some_byte few =
    let number = read_uvarint-put_uvarint (length (codes h)) (codes h ++ r) (omega arith) in
    let body = read_full-append (codes h) r in
    ground (
      arith,
      append_assoc (put_uvarint (length (codes h))) (codes h) r,
      number,
      body,
      text_of-codes h latin,
    )

pub read_blob_max-written :
    (max : ℕ) (blob r : List ℕ)
    → 0 < length blob
    → length blob ≤ max
    → length blob ≤ max_blob_size
    → read_blob_max max ((write_blob_header (length blob) ++ blob) ++ r) ≡ some (blob, r)
unfolding read_blob_max write_blob_header capped
read_blob_max-written max blob r some_byte within size =
    let number = read_uvarint-put_uvarint (length blob) (blob ++ r) (omega arith) in
    ground (arith, append_assoc (put_uvarint (length blob)) blob r, number, read_full-append blob r)

-- The limits of an offer.
pub record IsOffer (hashing : Hashing) (o : Offer) : Type 0 where
  pub hash : hashing.is_content_hash o.root ≡ true
  pub some_size : 0 < o.size
  pub size_fits : o.size ≤ max_content_size
  pub some_blob : 0 < o.nblobs
  pub blobs_fit : o.nblobs ≤ 1 + max_manifest_chunks

read_push_numbers_bounds :
    (root : String) (r r' : List ℕ) (o : Offer)
    → read_push_numbers root r ≡ some (o, r')
    → (o.root ≡ root)
      × (0 < o.size)
      × (o.size ≤ max_content_size)
      × (0 < o.nblobs)
      × (o.nblobs ≤ 1 + max_manifest_chunks)
unfolding read_push_numbers
read_push_numbers_bounds root r r' o e = elim (Option-cases (read_uvarint r)) [
  | inl bad ↦ absurd (ground (arith, bad, e))
  | inr ((size, r1), sized) ↦ elim (Option-cases (read_uvarint r1)) [
    | inl bad ↦ absurd (ground (arith, sized, bad, e))
    | inr ((nblobs, r2), counted) ↦ ground (arith, sized, counted, e)
  ]
]

read_push_numbers-written :
    (root : String) (size nblobs : ℕ) (r : List ℕ)
    → 0 < size
    → size ≤ max_content_size
    → 0 < nblobs
    → nblobs ≤ 1 + max_manifest_chunks
    → read_push_numbers root (put_uvarint size ++ (put_uvarint nblobs ++ r))
      ≡ some (record { root = root; size = size; nblobs = nblobs }, r)
unfolding read_push_numbers
read_push_numbers-written root size nblobs r a b d f = ground (
  arith,
  read_uvarint-put_uvarint size (put_uvarint nblobs ++ r) (omega (arith, b)),
  read_uvarint-put_uvarint nblobs r (omega (arith, f)),
)

-- read_push_offer
pub read_push_offer-IsOffer :
    (hashing : Hashing) (r r' : List ℕ) (o : Offer)
    → read_push_offer hashing r ≡ some (o, r')
    → IsOffer hashing o
unfolding read_push_offer
read_push_offer-IsOffer hashing r r' o e = elim (Option-cases (read_request r)) [
  | inl bad ↦ absurd (ground (arith, bad, e))
  | inr ((root, r1), named) ↦ elim (Bool-cases (hashing.is_content_hash root)) [
    | inr bad ↦ absurd (ground (arith, named, bad, e))
    | inl good ↦
        let numbers : read_push_numbers root r1 ≡ some (o, r') = ground (arith, named, good, e) in
        let (same, a, b, d, f) = read_push_numbers_bounds root r1 r' o numbers in
        record { hash = rw same good; some_size = a; size_fits = b; some_blob = d; blobs_fit = f }
  ]
]

pub read_push_offer-write_push_offer :
    (hashing : Hashing) (o : Offer) (r : List ℕ)
    → IsOffer hashing o
    → IsLatin o.root
    → 0 < length (codes o.root)
    → length (codes o.root) ≤ 128
    → read_push_offer hashing (write_push_offer o ++ r) ≡ some (o, r)
unfolding read_push_offer write_push_offer write_blob_header
read_push_offer-write_push_offer hashing o r v latin some_byte few =
    let spread : write_request o.root ++ (put_uvarint o.size ++ (put_uvarint o.nblobs ++ r))
        ≡ write_push_offer o ++ r =
      simp append_assoc refl in
    let named =
      read_request-write_request o.root (put_uvarint o.size ++ (put_uvarint o.nblobs ++ r)) latin
        some_byte few in
    let numbers =
      read_push_numbers-written o.root o.size o.nblobs r v.some_size v.size_fits v.some_blob
        v.blobs_fit in
    subst (λ (s : List ℕ). read_push_offer hashing s ≡ some (o, r)) spread
      (ground (arith, named, v.hash, numbers))
