-- ===== src/Node/Tests.antt =====
-- A push of a chunked page from one node to another, run at both ends.
use freedom_names.Common.{
  ℕ, ◌≡◌, refl, true, false, List, [], ◌∷◌, Option, none, some, String, if◌then◌else◌, ◌==◌,
}
use freedom_names.Common.Assoc.{lookup, insert, remove, member, add, delete, has_key}
use freedom_names.Common.Texts.{text_of, char_of}
use freedom_names.Content.Store.{Hashing, BlobStore, put, has, get}
use freedom_names.Content.Index.{
  ContentIndex, save, has_set, touch, claim, claim_ref, claim_refs, reference, begin_write,
  add_hosted_set, hosted_meta, release_claims, release_hashes, release_claim, hosted_bytes,
  hosted_sizes,
}
use freedom_names.Content.Manifest.{
  ManifestFormat, chunk_len, decode_manifest, without_prefix, is_valid, all_hashes,
}
use freedom_names.Content.Policy.{
  HostingPolicy, pick_victim, take_victim, is_over, fit_loop, finish_pass, fit, admit, reserve,
  release, commit_hosted,
}
use freedom_names.Content.Writers.{World}
use freedom_names.Content.Writers.Handles.{IsConsistent}
use freedom_names.Node.Wire.{
  uvarint_bytes, put_uvarint, uvarint_from, read_uvarint, read_full, write_request, read_request,
  write_blob_header, capped, read_blob_max, read_status_byte, write_push_offer, read_push_numbers,
  read_push_offer,
}
use freedom_names.Node.Push.Outcome.{IsSettled, handle_push_stream-IsSettled}
use freedom_names.Node.Push.{
  ContentSet, num_blobs, with_manifest, load_content_set, push_blobs, final_status, push_on_stream,
  first_blob, next_chunk, stored, keep_blob, check_blob, receive_blob, receive_blobs, Handled,
  read_limit, fail, record_set, finish_transfer, transfer, handle_offer, handle_push_stream,
}

abbrev name_of : List ℕ → String
name_of [] = "e"
name_of (b ∷ bs) = if b == 77 then "m" else if b == 1 then "a" else "b"

abbrev toy_hashing : Hashing
toy_hashing = record {
  content_hash = name_of;
  is_content_hash = λ h. true;
  well_formed = λ b. refl;
}

abbrev toy_policy : HostingPolicy
toy_policy = record { budget = 100; max_size = 60; ttl = 0 }

-- Two chunks of 4 and 2 bytes.
abbrev toy_format : ManifestFormat
toy_format = record {
  magic = 77 ∷ [];
  unmarshal = λ body. some (record { total_size = 6; chunk_size = 4; chunks = "a" ∷ "b" ∷ [] });
}

abbrev publisher : BlobStore
publisher = record {
  files = ("m", 77 ∷ 0 ∷ []) ∷ ("a", 1 ∷ 2 ∷ 3 ∷ 4 ∷ []) ∷ ("b", 5 ∷ 6 ∷ []) ∷ [];
  writable = true;
}

abbrev page : ContentSet
page = record { root = "m"; size = 8; chunks = "a" ∷ "b" ∷ [] }

page_loaded : load_content_set toy_hashing toy_format publisher "m" ≡ some page
unfolding load_content_set with_manifest get lookup decode_manifest without_prefix is_valid
    all_hashes
page_loaded = refl

abbrev host : ContentIndex
host = record {
  store = record { files = []; writable = true };
  sets = [];
  blobs = [];
  dirty = false;
  pending = [];
  reserved = 0;
  saved = [];
  savable = true;
}

abbrev sent : List ℕ
sent = (push_on_stream toy_hashing toy_format publisher page (1 ∷ 1 ∷ [])).0

sent_bytes :
    sent
    ≡ 1 ∷ 109 ∷ 8 ∷ 3 ∷ 1 ∷ 109 ∷ 2 ∷ 77 ∷ 0 ∷ 1 ∷ 97 ∷ 4 ∷ 1 ∷ 2 ∷ 3 ∷ 4 ∷ 1 ∷ 98 ∷ 2 ∷ 5 ∷ 6 ∷ []
unfolding push_on_stream push_blobs final_status num_blobs read_status_byte write_push_offer
    write_request write_blob_header put_uvarint uvarint_bytes get lookup
sent_bytes = refl

abbrev taken : Option Handled
taken = handle_push_stream toy_hashing toy_format toy_policy 100 true "peer" host sent

abbrev replies_of : Option Handled → List ℕ
replies_of none = []
replies_of (some h) = h.replies

taken_replies : replies_of taken ≡ 1 ∷ 1 ∷ []
unfolding push_on_stream push_blobs final_status num_blobs read_status_byte write_push_offer
    write_request write_blob_header put_uvarint uvarint_bytes get lookup uvarint_from read_uvarint
    read_full read_request capped read_blob_max read_push_numbers read_push_offer text_of char_of
    first_blob next_chunk stored keep_blob check_blob receive_blob receive_blobs read_limit fail
    record_set finish_transfer transfer handle_offer handle_push_stream pick_victim take_victim
    is_over fit_loop finish_pass fit admit reserve release commit_hosted hosted_bytes hosted_sizes
    has put insert remove member add delete has_key has_set touch claim claim_ref claim_refs
    reference begin_write add_hosted_set hosted_meta release_claims release_hashes release_claim
    save decode_manifest without_prefix is_valid all_hashes chunk_len
taken_replies = refl

abbrev quiet : World
quiet = record { ix = host; writers = [] }

quiet-IsConsistent : IsConsistent quiet
unfolding lookup member
quiet-IsConsistent = record {
  keys = tt;
  whole = record { covers = λ r m h e named. cc; present = λ r m h e own named. cc };
  counted = λ h. refl;
  held = λ n h m. cc;
}

-- The last byte of the page is wrong.
abbrev broken : List ℕ
broken =
    1 ∷ 109 ∷ 8 ∷ 3 ∷ 1 ∷ 109 ∷ 2 ∷ 77 ∷ 0 ∷ 1 ∷ 97 ∷ 4 ∷ 1 ∷ 2 ∷ 3 ∷ 4 ∷ 1 ∷ 98 ∷ 2 ∷ 1 ∷ 6 ∷ []

handle_push_stream-IsSettled_example :
    (h : Handled) × (handle_push_stream toy_hashing toy_format toy_policy 100 true "peer" host
        broken
      ≡ some h)
    × IsSettled toy_hashing toy_format toy_policy 100 quiet h
handle_push_stream-IsSettled_example =
    handle_push_stream-IsSettled toy_hashing toy_format toy_policy 100 quiet true "peer" broken
      quiet-IsConsistent
