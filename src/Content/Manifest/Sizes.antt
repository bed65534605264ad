-- ===== src/Content/Manifest/Sizes.antt =====
-- The chunk lengths of a valid manifest.
use freedom_names.Common.{
  ℕ, zero, suc, ◌+◌, ◌-◌, ◌*◌, ◌<◌, ◌≤◌, ◌≡◌, ap, ◌∙◌, subst, inl, inr, true, List, some, length,
  arith, Bool-cases, Option-cases,
}
use freedom_names.Content.Store.{Hashing}
use freedom_names.Content.Manifest.{
  ChunkManifest, ManifestFormat, chunk_len, is_valid, decode_manifest, without_prefix,
}

-- The numbers of a valid manifest.
abbrev pub HasSizes : ChunkManifest → Type 0
HasSizes m =
    (2 ≤ length m.chunks)
    × (length m.chunks ≤ 128)
    × (0 < m.chunk_size)
    × (m.chunk_size ≤ 33554432)
    × ((length m.chunks - 1) * m.chunk_size < m.total_size)
    × (m.total_size ≤ length m.chunks * m.chunk_size)
    × (m.total_size ≤ 1073741824)

is_valid-HasSizes : (hashing : Hashing) (m : ChunkManifest) → is_valid hashing m ≡ true → HasSizes m
unfolding is_valid
is_valid-HasSizes hashing m e = ground arith

pub decode_manifest-HasSizes :
    (hashing : Hashing) (format : ManifestFormat) (data' : List ℕ) (m : ChunkManifest)
    → decode_manifest hashing format data' ≡ some m
    → HasSizes m
unfolding decode_manifest
decode_manifest-HasSizes hashing format data' m e =
    elim (Option-cases (without_prefix format.magic data')) [
      | inl plain ↦ ground (arith, e, plain)
      | inr (body, prefixed) ↦ elim (Option-cases (format.unmarshal body)) [
        | inl bad ↦ ground (arith, e, prefixed, bad)
        | inr (m', parsed) ↦ elim (Bool-cases (is_valid hashing m')) [
          | inr refused ↦ ground (arith, e, prefixed, parsed, refused)
          | inl valid ↦
              let same : m' ≡ m = ground (arith, e, prefixed, parsed, valid) in
              subst HasSizes same (is_valid-HasSizes hashing m' valid)
        ]
      ]
    ]

-- The lengths of `n` chunks from chunk `i` on.
abbrev pub sum_of : ChunkManifest → ℕ → ℕ → ℕ
sum_of m i zero = 0
sum_of m i (suc n) = chunk_len m i + sum_of m (suc i) n

suc_times : (n k : ℕ) → suc n * k ≡ k + n * k
suc_times n k = grind arith

sum_of-tail :
    (m : ChunkManifest) (i n : ℕ)
    → i + suc n ≡ length m.chunks
    → sum_of m i (suc n) ≡ n * m.chunk_size + (m.total_size - (length m.chunks - 1) * m.chunk_size)
unfolding chunk_len
sum_of-tail m i zero e = ground arith
sum_of-tail m i (suc n) e =
    let full : chunk_len m i ≡ m.chunk_size = ground (arith, e) in
    omega (arith, full, sum_of-tail m (suc i) n (omega (arith, e)), suc_times n m.chunk_size)

length_pred : (n k : ℕ) → n ≡ suc k → n - 1 ≡ k
length_pred n k e = omega (arith, e)

-- A decoded manifest has 2 to 128 chunks, a chunk size of 1 to 33554432 and a total size of at most
-- 1073741824 that needs all the chunks; each chunk has from 1 byte to the chunk size; and the chunk
-- lengths add up to the total size.
pub decode_manifest-sum_of :
    (hashing : Hashing) (format : ManifestFormat) (data' : List ℕ) (m : ChunkManifest)
    → decode_manifest hashing format data' ≡ some m
    → HasSizes m
      × (sum_of m 0 (length m.chunks) ≡ m.total_size)
      × ((i : ℕ) → i < length m.chunks → (0 < chunk_len m i) × (chunk_len m i ≤ m.chunk_size))
unfolding chunk_len
decode_manifest-sum_of hashing format data' m e =
    let sizes = decode_manifest-HasSizes hashing format data' m e in
    let (two, most, pos, small, low, high, top) = sizes in
    let k = length m.chunks - 1 in
    let split : length m.chunks ≡ suc k = omega (arith, two) in
    let whole : length m.chunks * m.chunk_size ≡ m.chunk_size + k * m.chunk_size =
      ap (λ (n : ℕ). n * m.chunk_size) split ∙ suc_times k m.chunk_size in
    (
      sizes,
      ap (sum_of m 0) split ∙ sum_of-tail m 0 k (omega (arith, split)) ∙ omega (arith, low),
      λ i lt. (ground (arith, low, pos), ground (arith, low, high, whole)),
    )
