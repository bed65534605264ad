-- ===== src/Node/Push/Receiver.antt =====
-- internal/node/replicate.go, handlePushStream: on whatever bytes a peer sends, the handler takes
-- steps that a writer of the content index may take, reserves and releases in balance, and does not
-- read past its manifest.
use freedom_names.Common.{
  ℕ, zero, suc, ◌+◌, ◌-◌, ◌<◌, ◌≡◌, refl, sym, ap, subst, ◌⊎◌, inl, inr, Bool, true, false, ◌&&◌,
  List, [], ◌∷◌, ◌++◌, Option, none, some, String, arith, str_eq, str_eq_refl, eq_iff, length, take,
  get_elem?, Bool-cases, Option-cases, ◌==◌,
}
use freedom_names.Common.Assoc.{member}
use freedom_names.Content.Store.{Hashing, StoreResult, ok, err, put}
use freedom_names.Content.Index.{claim}
use freedom_names.Content.Manifest.{ChunkManifest, ManifestFormat, chunk_len}
use freedom_names.Content.Policy.{HostingPolicy}
use freedom_names.Content.Writers.{World, all_in}
use freedom_names.Node.Wire.{Offer, read_request, read_blob_max}
use freedom_names.Node.Push.{
  Transfer, Progress, going, rejected, crashed, first_blob, next_chunk, stored, keep_blob,
  check_blob, receive_blob, receive_blobs, chunks_of,
}
use freedom_names.Node.Push.Steps.{Holding, Holding-claim, Holding-put}

all_in-append : (ks xs ys : List String) → all_in ks (xs ++ ys) ≡ (all_in ks xs && all_in ks ys)
all_in-append ks [] ys = refl
all_in-append ks (x ∷ xs) ys = ground (arith, all_in-append ks xs ys)

member-append_left :
    (h k : String) (ks : List String) → member h ks ≡ true → member h (ks ++ (k ∷ [])) ≡ true
unfolding member
member-append_left h k [] e = cc
member-append_left h k (j ∷ ks) e = ground (arith, e, member-append_left h k ks)

member_last : (h : String) (ks : List String) → member h (ks ++ (h ∷ [])) ≡ true
unfolding member
member_last h [] = ground (arith, str_eq_refl h)
member_last h (k ∷ ks) = ground (arith, member_last h ks)

all_in_more :
    (ks : List String) (k : String) (hs : List String)
    → all_in ks hs ≡ true
    → all_in (ks ++ (k ∷ [])) hs ≡ true
all_in_more ks k [] e = refl
all_in_more ks k (h ∷ hs) e = ground (arith, e, member-append_left h k ks, all_in_more ks k hs)

take-suc :
    {A : Type 0} (xs : List A) (j : ℕ) (x : A)
    → get_elem? xs j ≡ some x
    → take (suc j) xs ≡ take j xs ++ (x ∷ [])
take-suc [] j x e = cc
take-suc (y ∷ ys) zero x e = ground (arith, e)
take-suc (y ∷ ys) (suc j) x e = ap (◌∷◌ y) (take-suc ys j x e)

get_elem_in :
    {A : Type 0} (xs : List A) (j : ℕ) → j < length xs → (x : A) × (get_elem? xs j ≡ some x)
get_elem_in [] j l = absurd (omega arith)
get_elem_in (x ∷ xs) zero l = (x, refl)
get_elem_in (x ∷ xs) (suc j) l = get_elem_in xs j (omega arith)

module _ (hashing : Hashing) (format : ManifestFormat) (p : HostingPolicy) (w : World) (o : Offer)
    (promised : ℕ) where
  -- Before blob `i`: the blobs before it are claimed, and the manifest fits the offer.
  pub record Receiving (i : ℕ) (t : Transfer) : Type 0 where
    pub holding : Holding hashing p w t.ix t.claims
    pub reserved : t.ix.reserved ≡ promised
    pub claimed : all_in t.claims.hashes (take i (o.root ∷ chunks_of t.manifest)) ≡ true
    pub fits : (i ≡ 0) ⊎ (o.nblobs ≡ 1 + length (chunks_of t.manifest))

  -- A transfer that goes on is at blob `i`; one that is refused is ready to be rolled back.
  abbrev pub Sound : ℕ → Progress → Type 0
  Sound i (going t r) = Receiving i t
  Sound i (rejected t) = Holding hashing p w t.ix t.claims × (t.ix.reserved ≡ promised)
  Sound i crashed = ⊥

  stored-Sound :
      (i : ℕ) (t : Transfer) (size : ℕ) (r : List ℕ) (result : StoreResult String)
      → Receiving i t
      → Sound i (stored hashing format o t size r result)
  unfolding stored
  stored-Sound i t size r (ok h) v = record {
    holding = v.holding;
    reserved = v.reserved;
    claimed = v.claimed;
    fits = v.fits;
  }
  stored-Sound i t size r (err e) v = (v.holding, v.reserved)

  keep_blob-Sound :
      (i : ℕ) (t : Transfer) (hash : String) (blob r : List ℕ)
      → Holding hashing p w t.ix t.claims
      → t.ix.reserved ≡ promised
      → all_in (t.claims.hashes ++ (hash ∷ [])) (take i (o.root ∷ chunks_of t.manifest)) ≡ true
      → (i ≡ 0) ⊎ (o.nblobs ≡ 1 + length (chunks_of t.manifest))
      → Sound i (keep_blob hashing format o t hash blob r)
  unfolding keep_blob claim
  keep_blob-Sound i t hash blob r held same all fits =
      let (ix, claims) = claim t.ix t.claims hash in
      let kept =
        Holding-put hashing p w ix claims blob
          (Holding-claim hashing p w t.ix t.claims hash held) in
      stored-Sound i _ (length blob) r (put hashing ix.store blob).1
        (record { holding = kept; reserved = same; claimed = all; fits = fits })

  first_blob-Sound :
      (hash : String) (blob : List ℕ) (m : Option ChunkManifest)
      → first_blob hashing format o hash blob ≡ some m
      → (hash ≡ o.root) × (o.nblobs ≡ 1 + length (chunks_of m))
  unfolding first_blob
  first_blob-Sound hash blob m e = ground (arith, e, eq_iff hash o.root)

  next_chunk-Sound :
      (m : Option ChunkManifest) (j : ℕ) (hash : String) (blob : List ℕ)
      → next_chunk hashing format o m j hash blob ≡ some true
      → get_elem? (chunks_of m) j ≡ some hash
  unfolding next_chunk
  next_chunk-Sound none j hash blob e = cc
  next_chunk-Sound (some m) j hash blob e = elim (Option-cases (get_elem? m.chunks j)) [
    | inl out ↦ absurd (ground (arith, out, e))
    | inr (h, at) ↦ ground (arith, at, e, eq_iff hash h)
  ]

  next_chunk-in :
      (m : Option ChunkManifest) (j : ℕ) (hash : String) (blob : List ℕ)
      → j < length (chunks_of m)
      → (b : Bool) × (next_chunk hashing format o m j hash blob ≡ some b)
  unfolding next_chunk
  next_chunk-in none j hash blob l = absurd (omega arith)
  next_chunk-in (some m) j hash blob l =
      let (h, at) = get_elem_in m.chunks j l in
      (str_eq hash h && length blob == chunk_len m j, ground (arith, at))

  module _ (t : Transfer) (hash : String) (blob r : List ℕ) where
    first_refused :
        first_blob hashing format o hash blob ≡ none
        → check_blob hashing format o 0 t hash blob r ≡ rejected t
    unfolding check_blob
    first_refused bad = ground (arith, bad)

    first_kept :
        (m : Option ChunkManifest)
        → first_blob hashing format o hash blob ≡ some m
        → check_blob hashing format o 0 t hash blob r
          ≡ keep_blob hashing format o (record t { manifest = m }) hash blob r
    unfolding check_blob
    first_kept m good = ground (arith, good)

    next_refused :
        (j : ℕ)
        → next_chunk hashing format o t.manifest j hash blob ≡ some false
        → check_blob hashing format o (suc j) t hash blob r ≡ rejected t
    unfolding check_blob
    next_refused j bad = ground (arith, bad)

    next_kept :
        (j : ℕ)
        → next_chunk hashing format o t.manifest j hash blob ≡ some true
        → check_blob hashing format o (suc j) t hash blob r
          ≡ keep_blob hashing format o t hash blob r
    unfolding check_blob
    next_kept j good = ground (arith, good)

    check_first-Sound : Receiving 0 t → Sound 1 (check_blob hashing format o 0 t hash blob r)
    check_first-Sound v = elim (Option-cases (first_blob hashing format o hash blob)) [
      | inl bad ↦ subst (Sound 1) (sym (first_refused bad)) (v.holding, v.reserved)
      | inr (m, good) ↦
          let (same, count) = first_blob-Sound hash blob m good in
          subst (Sound 1) (sym (first_kept m good)) (
            keep_blob-Sound 1 (record t { manifest = m }) hash blob r v.holding v.reserved
              (ground (arith, same, member_last hash t.claims.hashes)) (inr count))
    ]

    check_next-Sound :
        (j : ℕ) (b : Bool)
        → Receiving (suc j) t
        → o.nblobs ≡ 1 + length (chunks_of t.manifest)
        → next_chunk hashing format o t.manifest j hash blob ≡ some b
        → Sound (suc (suc j)) (check_blob hashing format o (suc j) t hash blob r)
    check_next-Sound j false v count e =
        subst (Sound (suc (suc j))) (sym (next_refused j e)) (v.holding, v.reserved)
    check_next-Sound j true v count e =
        let chunks = chunks_of t.manifest in
        let split = take-suc chunks j hash (next_chunk-Sound t.manifest j hash blob e) in
        let claims = t.claims.hashes ++ (hash ∷ []) in
        let before = all_in_more t.claims.hashes hash (o.root ∷ take j chunks) v.claimed in
        subst (Sound (suc (suc j))) (sym (next_kept j e)) (
          keep_blob-Sound (suc (suc j)) t hash blob r v.holding v.reserved
            (ground (
              arith,
              before,
              split,
              member_last hash t.claims.hashes,
              all_in-append claims (take j chunks) (hash ∷ []),
            ))
            (inr count))

  check_blob-Sound :
      (i : ℕ) (t : Transfer) (hash : String) (blob r : List ℕ)
      → Receiving i t
      → i < o.nblobs
      → Sound (suc i) (check_blob hashing format o i t hash blob r)
  check_blob-Sound zero t hash blob r v l = check_first-Sound t hash blob r v
  check_blob-Sound (suc j) t hash blob r v l =
      let count : o.nblobs ≡ 1 + length (chunks_of t.manifest) = ground (arith, v.fits) in
      let (b, answer) = next_chunk-in t.manifest j hash blob (omega (arith, count)) in
      check_next-Sound t hash blob r j b v count answer

  -- A blob is refused at once, or checked.
  receive_blob_cases :
      (i : ℕ) (t : Transfer) (r : List ℕ)
      → (receive_blob hashing format o i t r ≡ rejected t)
        ⊎ ((hash : String) × (blob r' : List ℕ) × (receive_blob hashing format o i t r
              ≡ check_blob hashing format o i t hash blob r'))
  unfolding receive_blob
  receive_blob_cases i t r = elim (Option-cases (read_request r)) [
    | inl bad ↦ inl (ground (arith, bad))
    | inr ((hash, r1), named) ↦ elim (Option-cases (read_blob_max (o.size - t.received) r1)) [
      | inl bad ↦ inl (ground (arith, named, bad))
      | inr ((blob, r2), got) ↦ elim (Bool-cases (str_eq (hashing.content_hash blob) hash)) [
        | inl same ↦ inr (hash, blob, r2, ground (arith, named, got, same))
        | inr other ↦ inl (ground (arith, named, got, other))
      ]
    ]
  ]

  receive_blob-Sound :
      (i : ℕ) (t : Transfer) (r : List ℕ)
      → Receiving i t
      → i < o.nblobs
      → Sound (suc i) (receive_blob hashing format o i t r)
  receive_blob-Sound i t r v l = elim (receive_blob_cases i t r) [
    | inl bad ↦ subst (Sound (suc i)) (sym bad) (v.holding, v.reserved)
    | inr (hash, blob, r', e) ↦
        subst (Sound (suc i)) (sym e) (check_blob-Sound i t hash blob r' v l)
  ]

  pub receive_blobs-Sound :
      (i k : ℕ) (t : Transfer) (r : List ℕ)
      → Receiving i t
      → i + k ≡ o.nblobs
      → Sound o.nblobs (receive_blobs hashing format o i k t r)
  unfolding receive_blobs
  receive_blobs-Sound i zero t r v e = subst (λ (n : ℕ). Receiving n t) (omega (arith, e)) v
  receive_blobs-Sound i (suc k) t r v e =
      by_blob (receive_blob hashing format o i t r) refl
        (receive_blob-Sound i t r v (omega (arith, e)))
        (λ t' r' v'. receive_blobs-Sound (suc i) k t' r' v' (omega (arith, e)))
    where
      by_blob :
          (b : Progress)
          → receive_blob hashing format o i t r ≡ b
          → Sound (suc i) b
          → ((t' : Transfer) (r' : List ℕ)
              → Receiving (suc i) t'
              → Sound o.nblobs (receive_blobs hashing format o (suc i) k t' r'))
          → Sound o.nblobs (receive_blobs hashing format o i (suc k) t r)
      by_blob (going t' r') q v' rest =
          let goes : receive_blobs hashing format o (suc i) k t' r'
              ≡ receive_blobs hashing format o i (suc k) t r =
            ground (arith, q) in
          subst (Sound o.nblobs) goes (rest t' r' v')
      by_blob (rejected t') q v' rest =
          let stops : rejected t' ≡ receive_blobs hashing format o i (suc k) t r =
            ground (arith, q) in
          subst (Sound o.nblobs) stops v'
      by_blob crashed q v' rest = absurd v'
