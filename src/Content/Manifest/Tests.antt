-- ===== src/Content/Manifest/Tests.antt =====
-- A manifest of two chunks, decoded and read.
use freedom_names.Common.{
  ℕ, ◌<◌, ◌≤◌, ◌≡◌, refl, true, List, [], ◌∷◌, ◌++◌, Option, some, String, arith, str_eq,
  if◌then◌else◌,
}
use freedom_names.Content.Store.{Hashing}
use freedom_names.Content.Manifest.{
  ChunkManifest, ManifestFormat, ChunkReader, chunk_len, decode_manifest, without_prefix, is_valid,
  all_hashes, read,
}
use freedom_names.Content.Manifest.Sizes.{HasSizes, sum_of, decode_manifest-sum_of}
use freedom_names.Content.Manifest.Stream.{no_more, chunk, Remains, Gives, read-Gives}

abbrev toy_hashing : Hashing
toy_hashing = record {
  content_hash = λ b. "h";
  is_content_hash = λ h. true;
  well_formed = λ b. refl;
}

-- Two chunks of 4 and 2 bytes.
abbrev toy_manifest : ChunkManifest
toy_manifest = record { total_size = 6; chunk_size = 4; chunks = "a" ∷ "b" ∷ [] }

abbrev toy_format : ManifestFormat
toy_format = record { magic = 77 ∷ []; unmarshal = λ body. some toy_manifest }

abbrev toy_fetch : String → Option (List ℕ)
toy_fetch h = if str_eq h "a" then some (1 ∷ 2 ∷ 3 ∷ 4 ∷ []) else some (5 ∷ 6 ∷ [])

decoded : decode_manifest toy_hashing toy_format (77 ∷ 0 ∷ []) ≡ some toy_manifest
unfolding decode_manifest without_prefix is_valid all_hashes
decoded = refl

decode_manifest-sum_of_example :
    HasSizes toy_manifest
    × (sum_of toy_manifest 0 2 ≡ 6)
    × ((i : ℕ) → i < 2 → (0 < chunk_len toy_manifest i) × (chunk_len toy_manifest i ≤ 4))
decode_manifest-sum_of_example =
    decode_manifest-sum_of toy_hashing toy_format (77 ∷ 0 ∷ []) toy_manifest decoded

abbrev whole : List ℕ
whole = 1 ∷ 2 ∷ 3 ∷ 4 ∷ 5 ∷ 6 ∷ []

abbrev opened : ChunkReader
opened = record { next = 0; cur = [] }

opened-Remains : Remains toy_manifest toy_fetch opened whole
unfolding chunk_len
opened-Remains = record {
  ahead = (1 ∷ 2 ∷ 3 ∷ 4 ∷ []) ++ ((5 ∷ 6 ∷ []) ++ []);
  holds = chunk {d = 1 ∷ 2 ∷ 3 ∷ 4 ∷ []} refl refl (chunk {d = 5 ∷ 6 ∷ []} refl refl no_more);
  split = refl;
}

read-Gives_example : Gives toy_manifest toy_fetch 3 whole (read toy_manifest toy_fetch 3 opened)
read-Gives_example = read-Gives toy_manifest toy_fetch 3 opened whole (omega arith) opened-Remains
