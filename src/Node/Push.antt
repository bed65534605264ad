-- ===== src/Node/Push.antt =====
-- internal/node/replicate.go, the push protocol: the set that is sent, the pusher's side
-- (pushOnStream) and the receiver's side (handlePushStream), with the content index as its state.
-- The index is the node's; the store-only service without an index registers no handler.
pub mod Steps
pub mod Receiver
pub mod Outcome
use freedom_names.Common.{
  ℕ, zero, suc, ◌+◌, ◌-◌, ◌*◌, ◌/◌, ◌^◌, min, Bool, true, false, not, ◌&&◌, ◌||◌, List, [], ◌∷◌,
  ◌++◌, Option, none, some, String, str_eq, ltb, leb, ◌==◌, if◌then◌else◌, length, take, get_elem?,
}
use freedom_names.Content.Store.{Hashing, BlobStore, StoreResult, ok, err, put, get, open_size}
use freedom_names.Content.Index.{
  ContentIndex, BlobClaims, begin_write, claim, touch, has_set, discard_claims,
}
use freedom_names.Content.Manifest.{ChunkManifest, ManifestFormat, chunk_len, decode_manifest}
use freedom_names.Content.Policy.{HostingPolicy, reserve, release, commit_hosted}
use freedom_names.Node.Wire.{
  Read, Offer, write_request, read_request, write_blob_header, read_blob_max, read_status_byte,
  write_push_offer, read_push_offer, max_hash_request_len,
}

abbrev pub push_decline : ℕ
push_decline = 0

abbrev pub push_accept : ℕ
push_accept = 1

abbrev pub push_have : ℕ
push_have = 2

pub record ContentSet : Type 0 where
  pub root : String
  pub size : ℕ
  pub chunks : List String

unfoldable pub num_blobs : ContentSet → ℕ
num_blobs s = 1 + length s.chunks

-- In seconds: 30, and one for each MiB, but ten minutes at most.
unfoldable pub push_deadline : ℕ → ℕ
push_deadline size = if ltb 600 (30 + size / 2 ^ 20) then 600 else 30 + size / 2 ^ 20

-- The status, or an error; and what the pusher wrote.
pub data PushStatus : Type 0 where
  status : ℕ → PushStatus
  push_failed : PushStatus

module _ (hashing : Hashing) (format : ManifestFormat) where
  unfoldable pub with_manifest : String → List ℕ → Option ChunkManifest → ContentSet
  with_manifest root blob none = record { root = root; size = length blob; chunks = [] }
  with_manifest root blob (some m) = record {
    root = root;
    size = length blob + m.total_size;
    chunks = m.chunks;
  }

  unfoldable pub load_content_set : BlobStore → String → Option ContentSet
  load_content_set store root = elim (get hashing store root) [
    | err e ↦ none
    | ok blob ↦ some (with_manifest root blob (decode_manifest hashing format blob))
  ]

  -- The blobs of the set on the wire, as far as the store has them, and whether it had all.
  unfoldable pub push_blobs : BlobStore → List String → List ℕ × Bool
  push_blobs store [] = ([], true)
  push_blobs store (h ∷ hs) =
      let rest = push_blobs store hs in
      elim (get hashing store h) [
        | err e ↦ ([], false)
        | ok blob ↦
            ((write_request h ++ (write_blob_header (length blob) ++ blob)) ++ rest.0, rest.1)
      ]

  -- The last byte of the receiver.
  unfoldable pub final_status : List ℕ → PushStatus
  final_status replies = elim (read_status_byte replies) [
    | none ↦ push_failed
    | some (b, _) ↦ if b == 1 then status push_accept else push_failed
  ]

  abbrev pub offer_of : ContentSet → Offer
  offer_of set = record { root = set.root; size = set.size; nblobs = num_blobs set }

  -- pushOnStream, given the bytes that the receiver writes.
  unfoldable pub push_on_stream : BlobStore → ContentSet → List ℕ → List ℕ × PushStatus
  push_on_stream store set replies =
      let sent = push_blobs store (set.root ∷ set.chunks) in
      let offer = write_push_offer (offer_of set) in
      elim (read_status_byte replies) [
        | none ↦ (offer, push_failed)
        | some (b, replies) ↦
            if b == push_accept
            then (offer ++ sent.0, if sent.1 then final_status replies else push_failed)
            else (offer, status b)
      ]

-- A transfer under way.
pub record Transfer : Type 0 where
  pub ix : ContentIndex
  pub claims : BlobClaims
  pub manifest : Option ChunkManifest
  pub received : ℕ

-- After a blob: the transfer goes on, with what is left to read, or it is refused, or the handler
-- would read past its manifest.
pub data Progress : Type 0 where
  going : Transfer → List ℕ → Progress
  rejected : Transfer → Progress
  crashed : Progress

module _ (hashing : Hashing) (format : ManifestFormat) (o : Offer) where
  -- The manifest of the set, if the first blob is one and announces as many chunks.
  unfoldable pub first_blob : String → List ℕ → Option (Option ChunkManifest)
  first_blob hash blob =
      if not (str_eq hash o.root) then none else elim (decode_manifest hashing format blob) [
        | some m ↦ if o.nblobs == 1 + length m.chunks then some (some m) else none
        | none ↦ if o.nblobs == 1 then some none else none
      ]

  -- The answer for chunk `j`: none where the code would index out of range.
  unfoldable pub next_chunk : Option ChunkManifest → ℕ → String → List ℕ → Option Bool
  next_chunk none j hash blob = none
  next_chunk (some m) j hash blob = elim (get_elem? m.chunks j) [
    | none ↦ none
    | some h ↦ some (str_eq hash h && length blob == chunk_len m j)
  ]

  unfoldable pub stored : Transfer → ℕ → List ℕ → StoreResult String → Progress
  stored t size r (err e) = rejected t
  stored t size r (ok h) = going (record t { received = t.received + size }) r

  -- Claim, and write.
  unfoldable pub keep_blob : Transfer → String → List ℕ → List ℕ → Progress
  keep_blob t hash blob r =
      let (ix, claims) = claim t.ix t.claims hash in
      let (store, result) = put hashing ix.store blob in
      stored (record t { ix = record ix { store = store }; claims = claims }) (length blob) r result

  unfoldable pub check_blob : ℕ → Transfer → String → List ℕ → List ℕ → Progress
  check_blob zero t hash blob r = elim (first_blob hash blob) [
    | none ↦ rejected t
    | some m ↦ keep_blob (record t { manifest = m }) hash blob r
  ]
  check_blob (suc j) t hash blob r = elim (next_chunk t.manifest j hash blob) [
    | none ↦ crashed
    | some true ↦ keep_blob t hash blob r
    | some false ↦ rejected t
  ]

  unfoldable pub receive_blob : ℕ → Transfer → List ℕ → Progress
  receive_blob i t r = elim (read_request r) [
    | none ↦ rejected t
    | some (hash, r) ↦ elim (read_blob_max (o.size - t.received) r) [
      | none ↦ rejected t
      | some (blob, r) ↦
          if str_eq (hashing.content_hash blob) hash then check_blob i t hash blob r else rejected t
    ]
  ]

  -- The loop: the number of the next blob, and how many are to come.
  unfoldable pub receive_blobs : ℕ → ℕ → Transfer → List ℕ → Progress
  receive_blobs i zero t r = going t r
  receive_blobs i (suc k) t r = elim (receive_blob i t r) [
    | going t r ↦ receive_blobs (suc i) k t r
    | rejected t ↦ rejected t
    | crashed ↦ crashed
  ]

abbrev pub chunks_of : Option ChunkManifest → List String
chunks_of none = []
chunks_of (some m) = m.chunks

-- What the handler leaves: the bytes it wrote, the index, and the set that it goes on to announce;
-- none where it would have crashed.
pub record Handled : Type 0 where
  pub replies : List ℕ
  pub ix : ContentIndex
  pub announced : Option (String × List String)

-- The offered size and the framing of each blob, the ceiling on what is read.
unfoldable pub read_limit : Offer → ℕ
read_limit o = o.size + o.nblobs * (max_hash_request_len + 2 * 10)

module _ (hashing : Hashing) (format : ManifestFormat) (p : HostingPolicy) (now : ℕ) where
  -- fail, and the deferred release of the reservation.
  unfoldable pub fail : Bool → Offer → Transfer → Handled
  fail reserved o t =
      let ix = (discard_claims hashing t.ix t.claims).0 in
      record {
        replies = push_accept ∷ 0 ∷ [];
        ix = if reserved then release ix o.size else ix;
        announced = none;
      }

  unfoldable pub record_set : String → Offer → Transfer → Handled
  record_set from o t =
      let (fits, ix, claims) =
        commit_hosted hashing p now t.ix o.root o.size (chunks_of t.manifest) from t.claims in
      if fits
      then record {
        replies = push_accept ∷ 1 ∷ [];
        ix = ix;
        announced = some (o.root, chunks_of t.manifest);
      }
      else fail false o (record t { ix = ix; claims = claims })

  unfoldable pub finish_transfer : String → Offer → Progress → Option Handled
  finish_transfer from o (going t r) =
      some (if t.received == o.size then record_set from o t else fail true o t)
  finish_transfer from o (rejected t) = some (fail true o t)
  finish_transfer from o crashed = none

  -- What follows an accepted offer; `connected` is whether the accept byte can be written.
  unfoldable pub transfer : Bool → String → Offer → ContentIndex → List ℕ → Option Handled
  transfer connected from o ix r =
      if connected
      then finish_transfer from o (
          receive_blobs hashing format o 0 o.nblobs
            (record { ix = ix; claims = begin_write; manifest = none; received = 0 })
            (take (read_limit o) r))
      else some (record { replies = []; ix = release ix o.size; announced = none })

  unfoldable pub handle_offer : Bool → String → Offer → ContentIndex → List ℕ → Option Handled
  handle_offer connected from o ix r =
      if has_set ix o.root
      then some (record { replies = push_have ∷ []; ix = touch ix o.root now; announced = none })
      else let (fits, ix') = reserve hashing p now ix o.size in
        if fits
        then transfer connected from o ix' r
        else some (record { replies = push_decline ∷ []; ix = ix'; announced = none })

  -- handlePushStream
  unfoldable pub handle_push_stream : Bool → String → ContentIndex → List ℕ → Option Handled
  handle_push_stream connected from ix r = elim (read_push_offer hashing r) [
    | none ↦ some (record { replies = []; ix = ix; announced = none })
    | some (o, r) ↦ handle_offer connected from o ix r
  ]
