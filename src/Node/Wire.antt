-- ===== src/Node/Wire.antt =====
-- internal/node/contentnet.go and internal/node/replicate.go, the wire format. A reader is the bytes
-- that are left on it, up to the close of the stream; an error that ends the session is none. A
-- writer is given by the bytes that it writes.
pub mod RoundTrip
use freedom_names.Common.{
  ℕ, zero, suc, ◌+◌, ◌*◌, ◌/◌, ◌%◌, Bool, true, false, not, ◌&&◌, ◌||◌, List, [], ◌∷◌, ◌++◌, Option,
  none, some, String, ltb, leb, ◌==◌, if◌then◌else◌, length, take, drop,
}
use freedom_names.Common.Texts.{codes, text_of}
use freedom_names.Content.Store.{Hashing, max_blob_size}
use freedom_names.Content.Manifest.{max_content_size, max_manifest_chunks}

-- What is read, and what is left.
abbrev pub Read {ℓ} : Type ℓ → Type ℓ
Read A = Option (A × List ℕ)

-- binary.PutUvarint. A uint64 takes ten bytes at most.
unfoldable pub uvarint_bytes : ℕ → ℕ → List ℕ
uvarint_bytes zero n = []
uvarint_bytes (suc k) n =
    let rest = uvarint_bytes k (n / 128) in if ltb n 128 then n ∷ [] else (n % 128 + 128) ∷ rest

unfoldable pub put_uvarint : ℕ → List ℕ
put_uvarint n = uvarint_bytes 10 n

-- binary.ReadUvarint: of the bytes that may still come, the last one must be 0 or 1.
unfoldable pub uvarint_from : ℕ → List ℕ → Read ℕ
uvarint_from zero r = none
uvarint_from (suc k) [] = none
uvarint_from (suc k) (b ∷ r) =
    let rest = uvarint_from k r in
    if ltb b 128
    then (if k == 0 && ltb 1 b then none else some (b, r))
    else elim rest [ none ↦ none | some (n, r') ↦ some (b % 128 + 128 * n, r') ]

unfoldable pub read_uvarint : List ℕ → Read ℕ
read_uvarint r = uvarint_from 10 r

-- io.ReadFull
unfoldable pub read_full : ℕ → List ℕ → Read (List ℕ)
read_full n r = if leb n (length r) then some (take n r, drop n r) else none

abbrev pub max_hash_request_len : ℕ
max_hash_request_len = 128

unfoldable pub write_request : String → List ℕ
write_request hash = put_uvarint (length (codes hash)) ++ codes hash

unfoldable pub read_request : List ℕ → Read String
read_request r = elim (read_uvarint r) [
  | none ↦ none
  | some (n, r) ↦
      if n == 0 || ltb max_hash_request_len n
      then none
      else elim (read_full n r) [ none ↦ none | some (buf, r) ↦ some (text_of buf, r) ]
]

unfoldable pub write_blob_header : ℕ → List ℕ
write_blob_header size = put_uvarint size

unfoldable pub capped : ℕ → ℕ
capped max = if ltb max_blob_size max then max_blob_size else max

-- readBlobMax: a blob that is missing, too large or cut off is refused.
unfoldable pub read_blob_max : ℕ → List ℕ → Read (List ℕ)
read_blob_max max r = elim (read_uvarint r) [
  | none ↦ none
  | some (size, r) ↦ if size == 0 || ltb (capped max) size then none else read_full size r
]

unfoldable pub read_blob : List ℕ → Read (List ℕ)
read_blob r = read_blob_max max_blob_size r

-- readStatusByte
unfoldable pub read_status_byte : List ℕ → Read ℕ
read_status_byte [] = none
read_status_byte (b ∷ r) = some (b, r)

pub record Offer : Type 0 where
  pub root : String
  pub size : ℕ
  pub nblobs : ℕ

unfoldable pub write_push_offer : Offer → List ℕ
write_push_offer o =
    write_request o.root ++ (write_blob_header o.size ++ write_blob_header o.nblobs)

-- The numbers of an offer, once its root is a hash.
unfoldable pub read_push_numbers : String → List ℕ → Read Offer
read_push_numbers root r = elim (read_uvarint r) [
  | none ↦ none
  | some (size, r) ↦
      if size == 0 || ltb max_content_size size then none else elim (read_uvarint r) [
        | none ↦ none
        | some (nblobs, r) ↦
            if nblobs == 0 || ltb (1 + max_manifest_chunks) nblobs
            then none
            else some (record { root = root; size = size; nblobs = nblobs }, r)
      ]
]

unfoldable pub read_push_offer : Hashing → List ℕ → Read Offer
read_push_offer hashing r = elim (read_request r) [
  | none ↦ none
  | some (root, r) ↦ if hashing.is_content_hash root then read_push_numbers root r else none
]
