-- ===== src/Content/Tests.antt =====
-- Runs of the content index at concrete inputs.
use freedom_names.Common.{
  ℕ, ◌+◌, ◌<◌, ◌≤◌, ◌≡◌, refl, inl, ◌⊎◌, Bool, true, false, List, [], ◌∷◌, none, some, String,
  if◌then◌else◌, arith, ◌==◌, eq_iff,
}
use freedom_names.Common.Assoc.{lookup, insert, remove, member, add, delete, has_key}
use freedom_names.Common.Assoc.Laws.{IsMap}
use freedom_names.Content.Store.{Hashing, ok, put, has, get, delete_blob}
use freedom_names.Content.Store.Laws.{IsSound, get-put}
use freedom_names.Content.Index.{
  ContentIndex, ContentMeta, BlobClaims, evict, save, set_blobs, has_set, touch, claim, claim_ref,
  claim_refs, reference, begin_write, add_hosted_set, hosted_meta, owned_meta, mark_owned,
  release_claims, release_hashes, release_claim, release_ref, release_refs, drop_blob, hosted_bytes,
  hosted_sizes,
}
use freedom_names.Content.Index.Blobs.{on_disk}
use freedom_names.Content.Policy.{
  HostingPolicy, Victim, is_candidate, is_expired, is_young, is_better, consider, pick_victim,
  take_victim, is_over, fit_loop, finish_pass, fit, admit, reserve, commit_hosted,
}
use freedom_names.Content.Policy.Loop.{pick_victim-first, Before, as_victim}
use freedom_names.Content.Policy.DryRun.{reserve_lem}
use freedom_names.Content.Policy.Budget.{admit_lem, Exhausted}
use freedom_names.Content.Policy.Commit.{commit_hosted_lem}
use freedom_names.Content.Writers.{
  World, begin_transfer, claim_blob, put_blob, commit_push, publish, admit_set, is_allowed, run,
  Reaches, start, step,
}
use freedom_names.Content.Writers.Handles.{IsConsistent}
use freedom_names.Content.Writers.Safety.{Reaches-IsConsistent, Reaches-keeps_wanted}
use freedom_names.Content.Writers.Owned.{Reaches-keeps_owned}

-- Two blobs have names of their own.
abbrev name_of : List ℕ → String
name_of [] = "empty"
name_of (b ∷ bs) = if b == 1 then "one" else "other"

abbrev toy_hashing : Hashing
toy_hashing = record {
  content_hash = name_of;
  is_content_hash = λ h. true;
  well_formed = λ b. refl;
}

abbrev toy_policy : HostingPolicy
toy_policy = record { budget = 100; max_size = 60; ttl = 0 }

abbrev empty_index : ContentIndex
empty_index = record {
  store = record { files = []; writable = true };
  sets = [];
  blobs = [];
  dirty = false;
  pending = [];
  reserved = 0;
  saved = [];
  savable = true;
}

abbrev fresh : World
fresh = record { ix = empty_index; writers = [] }

fresh-IsConsistent : IsConsistent fresh
unfolding lookup member
fresh-IsConsistent = record {
  keys = tt;
  whole = record { covers = λ r m h e named. cc; present = λ r m h e own named. cc };
  counted = λ h. refl;
  held = λ n h m. cc;
}

-- A push of one blob, up to its commit.
abbrev begun : World
begun = run toy_hashing toy_policy begin_transfer fresh

abbrev claimed : World
claimed = run toy_hashing toy_policy (claim_blob 0 "one") begun

abbrev written : World
written = run toy_hashing toy_policy (put_blob 0 (1 ∷ [])) claimed

abbrev committed : World
committed = run toy_hashing toy_policy (commit_push 0 "one" 40 [] "peer" 100) written

abbrev published : World
published = run toy_hashing toy_policy (publish 0 "one" 40 [] 100) written

writing : Reaches toy_hashing toy_policy fresh written
unfolding is_allowed run begin_write claim lookup insert
writing =
    step (step (step start begin_transfer refl refl) (claim_blob 0 "one") refl refl)
      (put_blob 0 (1 ∷ [])) refl refl

written_here : on_disk written.ix "one" ≡ true
unfolding is_allowed run begin_write claim lookup insert put has
written_here = refl

commit_allowed : is_allowed (commit_push 0 "one" 40 [] "peer" 100) written ≡ true
unfolding is_allowed run begin_write claim lookup insert put has member
commit_allowed = refl

committed_names :
    lookup "one" committed.ix.sets
    ≡ some (record {
      owned = false;
      size = 40;
      chunks = [];
      stored_at = 100;
      last_access = 100;
      from = "peer";
    })
unfolding run begin_write claim lookup insert put has member commit_hosted fit finish_pass fit_loop
    is_over hosted_bytes hosted_sizes add_hosted_set has_set touch hosted_meta save reference
    claim_refs claim_ref add release_claims release_hashes release_claim remove drop_blob
committed_names = refl

Reaches-keeps_wanted_example : on_disk committed.ix "one" ≡ true
unfolding member
Reaches-keeps_wanted_example =
    Reaches-keeps_wanted toy_hashing toy_policy fresh written (commit_push 0 "one" 40 [] "peer" 100)
      "one" fresh-IsConsistent writing commit_allowed written_here
      (inl ("one", _, committed_names, refl))

Reaches-IsConsistent_example : IsConsistent written
Reaches-IsConsistent_example =
    Reaches-IsConsistent toy_hashing toy_policy fresh written fresh-IsConsistent writing

publish_allowed : is_allowed (publish 0 "one" 40 [] 100) written ≡ true
unfolding is_allowed run begin_write claim lookup insert put has member
publish_allowed = refl

published_here : Reaches toy_hashing toy_policy fresh published
published_here = step writing (publish 0 "one" 40 [] 100) publish_allowed refl

abbrev published_meta : ContentMeta
published_meta = record {
  owned = true;
  size = 40;
  chunks = [];
  stored_at = 100;
  last_access = 100;
  from = "";
}

published_names : lookup "one" published.ix.sets ≡ some published_meta
unfolding run begin_write claim lookup insert put has member save reference claim_refs claim_ref add
    release_claims release_hashes release_claim remove drop_blob mark_owned owned_meta
published_names = refl

-- A pass under pressure, a long time later.
abbrev pressed : World
pressed = run toy_hashing toy_policy (admit_set 60 999999) published

Reaches-keeps_owned_example :
    (m : ContentMeta) × (lookup "one" pressed.ix.sets ≡ some m)
    × (m.owned ≡ true)
    × ((h : String) → member h (set_blobs "one" m) ≡ true → on_disk pressed.ix h ≡ true)
Reaches-keeps_owned_example =
    Reaches-keeps_owned toy_hashing "one" toy_policy published pressed
      (Reaches-IsConsistent toy_hashing toy_policy fresh published fresh-IsConsistent
        published_here)
      (published_meta, published_names, refl)
      (step start (admit_set 60 999999) (unfold is_allowed in refl) refl)

-- Two hosted sets of 40 and 50 bytes, the first accessed less recently.
abbrev hosted : ℕ → ℕ → ContentMeta
hosted size at = record {
  owned = false;
  size = size;
  chunks = [];
  stored_at = at;
  last_access = at;
  from = "peer";
}

abbrev crowded : ContentIndex
crowded = record {
  store = record { files = ("one", 1 ∷ []) ∷ ("other", 2 ∷ []) ∷ []; writable = true };
  sets = ("one", hosted 40 100) ∷ ("other", hosted 50 200) ∷ [];
  blobs = ("one", "one" ∷ []) ∷ ("other", "other" ∷ []) ∷ [];
  dirty = false;
  pending = [];
  reserved = 0;
  saved = [];
  savable = true;
}

crowded_keys : IsMap crowded.sets
unfolding has_key
crowded_keys = (refl, (refl, tt))

-- The answer of the pass, and the index after it.
abbrev after_admit : Bool × ContentIndex
after_admit = admit toy_hashing toy_policy 99999 crowded 30

admit_lem_example :
    (after_admit.0 ≡ true → (30 ≤ 60) × (hosted_bytes after_admit.1 + 30 ≤ 100))
    × (after_admit.0 ≡ false
        → (((60 < 30) ⊎ (100 < 30)) × (after_admit.1 ≡ crowded))
          ⊎ (100 < hosted_bytes after_admit.1 + 30)
            × Exhausted toy_hashing toy_policy 99999 after_admit.1)
admit_lem_example =
    admit_lem toy_hashing toy_policy 99999 crowded after_admit.1 30 after_admit.0 crowded_keys refl

-- The set that was accessed first makes room.
after_admit_keeps : (after_admit.0 ≡ true) × (lookup "one" after_admit.1.sets ≡ none)
unfolding run lookup insert remove member delete fit admit finish_pass fit_loop is_over hosted_bytes
    hosted_sizes pick_victim consider is_better is_expired is_young take_victim evict release_refs
    release_ref drop_blob delete_blob save
after_admit_keeps = (refl, refl)

reserve_lem_example : reserve toy_hashing toy_policy 99999 crowded 30 ≡ (
    if after_admit.0
    then (true, record crowded { reserved = crowded.reserved + 30 })
    else (false, crowded))
reserve_lem_example = reserve_lem toy_hashing toy_policy 99999 crowded 30 crowded_keys

abbrev after_commit_hosted : Bool × ContentIndex × BlobClaims
after_commit_hosted =
    commit_hosted toy_hashing toy_policy 99999 (record crowded { reserved = 30 }) "empty" 30 []
      "peer" (record { hashes = "empty" ∷ [] })

commit_hosted_lem_example :
    (after_commit_hosted.1.reserved ≡ 0)
    × (after_commit_hosted.0 ≡ true
        → (has_set after_commit_hosted.1 "empty" ≡ true)
          × (hosted_bytes after_commit_hosted.1 ≤ 100)
          × (after_commit_hosted.2.hashes ≡ []))
    × (after_commit_hosted.0 ≡ false → after_commit_hosted.2 ≡ record { hashes = "empty" ∷ [] })
commit_hosted_lem_example =
    commit_hosted_lem toy_hashing toy_policy 99999 (record crowded { reserved = 30 })
      after_commit_hosted.1 "empty" 30 [] "peer" (record { hashes = "empty" ∷ [] })
      after_commit_hosted.2 after_commit_hosted.0 crowded_keys refl

abbrev first_victim : Victim
first_victim = record { root = "one"; expired = false; oldest = 100 }

first_chosen : pick_victim toy_policy 99999 [] crowded.sets none ≡ some first_victim
unfolding pick_victim consider member is_better is_expired is_young
first_chosen = refl

pick_victim-first_example :
    (chosen : ContentMeta) × (lookup "one" crowded.sets ≡ some chosen)
    × (is_candidate toy_policy 99999 chosen ≡ true)
    × (member "one" [] ≡ false)
    × Before toy_policy 99999
        (as_victim toy_policy 99999 "one" chosen)
        (is_expired toy_policy 99999 (hosted 50 200))
        200
pick_victim-first_example =
    pick_victim-first toy_policy 99999 [] crowded.sets first_victim "other" (hosted 50 200)
      crowded_keys first_chosen (unfold lookup in refl)
      (unfold is_candidate is_expired is_young in refl) (unfold member in refl)

crowded-IsSound : IsSound toy_hashing crowded.store
unfolding lookup
crowded-IsSound h b e = ground (arith, eq_iff "one" h, eq_iff "other" h)

get-put_example :
    (b : List ℕ) × (get toy_hashing (put toy_hashing crowded.store (1 ∷ 7 ∷ [])).0 "one" ≡ ok b)
    × (name_of b ≡ "one")
    × ("one" ≡ name_of (1 ∷ 7 ∷ []))
get-put_example =
    get-put toy_hashing crowded.store (put toy_hashing crowded.store (1 ∷ 7 ∷ [])).0 (1 ∷ 7 ∷ [])
      "one" crowded-IsSound (unfold put has lookup in refl)
