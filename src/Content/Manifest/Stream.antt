-- ===== src/Content/Manifest/Stream.antt =====
-- The chunk reader as a stream of the chunks' bytes.
use freedom_names.Common.{
  ℕ, zero, suc, ◌<◌, ◌≤◌, ◌≡◌, refl, sym, ap, ◌∙◌, subst, true, false, List, [], ◌∷◌, ◌++◌, Option,
  some, String, ◌==◌, length, take, drop, arith, take-append-drop, append_assoc, length-append,
  length-take,
}
use freedom_names.Content.Manifest.{
  ChunkManifest, ManifestFormat, decode_manifest, ChunkReader, ReadResult, bytes, end_of_file,
  fetch_failed, length_mismatch, chunk_len, read_from, read,
}
use freedom_names.Content.Manifest.Sizes.{sum_of, decode_manifest-sum_of}
use freedom_names.Content.Store.{Hashing}

drop-suc :
    (n : ℕ) (xs : List String) (h : String) (hs : List String)
    → drop n xs ≡ h ∷ hs
    → drop (suc n) xs ≡ hs
drop-suc zero xs h hs e = rw e refl
drop-suc (suc n) [] h hs e = cc
drop-suc (suc n) (x ∷ xs) h hs e = drop-suc n xs h hs e

suc_nonzero : (n : ℕ) → (suc n == 0) ≡ false
suc_nonzero n = ground arith

module _ (m : ChunkManifest) (fetch : String → Option (List ℕ)) where
  -- The bytes of the chunks from chunk `i` on, where each is fetched with the manifest's length.
  pub data Holds : ℕ → List String → List ℕ → Type 0 where
    no_more : {i : ℕ} → Holds i [] []
    chunk :
        {i : ℕ} {h : String} {hs : List String} {d rest : List ℕ}
        → fetch h ≡ some d
        → length d ≡ chunk_len m i
        → Holds (suc i) hs rest
        → Holds i (h ∷ hs) (d ++ rest)

  -- The reader is in front of these bytes.
  pub record Remains (r : ChunkReader) (xs : List ℕ) : Type 0 where
    pub ahead : List ℕ
    pub holds : Holds r.next (drop r.next m.chunks) ahead
    pub split : xs ≡ r.cur ++ ahead

  -- What one read of at most `size` bytes gives in front of `xs`.
  abbrev pub Gives : ℕ → List ℕ → ReadResult → Type 0
  Gives size xs end_of_file = xs ≡ []
  Gives size xs (bytes front r) =
      (rest : List ℕ) × (xs ≡ front ++ rest)
      × Remains r rest
      × (0 < length front)
      × (length front ≤ size)
  Gives size xs (fetch_failed i) = ⊥
  Gives size xs (length_mismatch i) = ⊥

  copied :
      (size : ℕ) (r : ChunkReader) (ahead : List ℕ)
      → 0 < size
      → 0 < length r.cur
      → Holds r.next (drop r.next m.chunks) ahead
      → Gives size (r.cur ++ ahead) (bytes (take size r.cur) (record r { cur = drop size r.cur }))
  copied size r ahead pos full holds = (
    drop size r.cur ++ ahead,
    ap (λ (t : List ℕ). t ++ ahead) (sym (take-append-drop size r.cur))
        ∙ append_assoc (take size r.cur) (drop size r.cur) ahead,
    record { ahead = ahead; holds = holds; split = refl },
    ground (arith, length-take size r.cur),
    ground (arith, length-take size r.cur),
  )

  read_from-Gives :
      (size next : ℕ) (hs : List String) (cur ahead : List ℕ)
      → 0 < size
      → drop next m.chunks ≡ hs
      → Holds next hs ahead
      → Gives size (cur ++ ahead) (read_from m fetch size hs (record { next = next; cur = cur }))
  unfolding read_from
  read_from-Gives size next [] [] _ pos here no_more = refl
  read_from-Gives size next [] (b ∷ bs) _ pos here no_more = rw (suc_nonzero (length bs)) (
      copied size (record { next = next; cur = b ∷ bs }) [] pos (omega arith)
        (subst (λ (l : List String). Holds next l []) (sym here) no_more))
  read_from-Gives size next (h ∷ hs) (b ∷ bs) ahead pos here holds =
      rw (suc_nonzero (length bs), read_from)
        (copied size (record { next = next; cur = b ∷ bs }) ahead pos (omega arith)
          (subst (λ (l : List String). Holds next l ahead) (sym here) holds))
  read_from-Gives size next (h ∷ hs) [] _ pos here (chunk {d = d} {rest = rest} got sized holds) =
      let same : (length d == chunk_len m next) ≡ true = ground (arith, sized) in
      rw (got, same)
        (read_from-Gives size (suc next) hs d rest pos (drop-suc next m.chunks h hs here) holds)

  -- Where each chunk that is left is fetched with the length that the manifest gives it, a read of
  -- at most a positive number of bytes gives at least one and at most that many bytes from the
  -- front of those that are left, and leaves the reader in front of the others; it gives the end of
  -- the file exactly when none is left, and no error.
  pub read-Gives :
      (size : ℕ) (r : ChunkReader) (xs : List ℕ)
      → 0 < size
      → Remains r xs
      → Gives size xs (read m fetch size r)
  unfolding read
  read-Gives size r xs pos left =
      rw left.split
        (read_from-Gives size r.next (drop r.next m.chunks) r.cur left.ahead pos refl left.holds)

  -- All bytes of the content.
  length-Holds :
      (i : ℕ) (hs : List String) (xs : List ℕ) → Holds i hs xs → length xs ≡ sum_of m i (length hs)
  length-Holds i _ _ no_more = refl
  length-Holds i _ _ (chunk {hs = hs} {d = d} {rest = rest} got sized holds) =
      omega (arith, length-append d rest, sized, length-Holds (suc i) hs rest holds)

-- The bytes in front of a new reader over a decoded manifest, where each chunk is fetched with the
-- manifest's length, are as many as its total size.
pub length-Remains :
    (hashing : Hashing) (format : ManifestFormat) (data' : List ℕ) (m : ChunkManifest)
    (fetch : String → Option (List ℕ)) (xs : List ℕ)
    → decode_manifest hashing format data' ≡ some m
    → Remains m fetch (record { next = 0; cur = [] }) xs
    → length xs ≡ m.total_size
length-Remains hashing format data' m fetch xs e left =
    let (sizes, total, each) = decode_manifest-sum_of hashing format data' m e in
    ap length left.split ∙ length-Holds m fetch 0 m.chunks left.ahead left.holds ∙ total
