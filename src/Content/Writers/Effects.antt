-- ===== src/Content/Writers/Effects.antt =====
-- What a writer's calls do to the index and to its handle together.
use freedom_names.Common.{
  ℕ, ◌+◌, ◌≤◌, ◌≡◌, refl, sym, ◌∙◌, inl, inr, ◌⊎◌, Bool, true, false, ◌&&◌, ◌||◌, List, [], ◌∷◌,
  ◌++◌, String, arith, eq_iff, str_eq, str_eq_refl, Bool-cases, Option-cases,
}
use freedom_names.Common.Assoc.{lookup, insert, member, is_empty}
use freedom_names.Common.Assoc.Laws.{IsMap, lookup-insert}
use freedom_names.Content.Store.{Hashing}
use freedom_names.Content.Index.{
  ContentIndex, ContentMeta, BlobClaims, save, touch, has_set, hosted_meta, owned_meta, refs,
  pending_count, set_blobs, claim, reference, add_hosted_set, add_hosted, mark_owned,
  release_claims, release_hashes,
}
use freedom_names.Content.Index.Blobs.{
  on_disk, count, pending-release_hashes, member→nonempty, member-claim_refs,
}
use freedom_names.Content.Index.Sets.{
  IsWhole, sets-release_hashes, release_hashes-IsWhole, claim-IsWhole, mark_owned-IsWhole,
  add_hosted_set-IsWhole,
}
use freedom_names.Content.Writers.Claims.{
  Quiet, Alive, recorded-Quiet, add_hosted_set-Quiet, store-release_hashes, release_hashes-Alive,
  save-Quiet,
}

-- A call keeps the index whole, moves the claim counts by what the handle gains or loses, and
-- loses no blob that is wanted afterwards.
pub record Effect (ix : ContentIndex) (c : BlobClaims) (ix' : ContentIndex) (c' : BlobClaims)
    : Type 0 where
  pub keys : IsMap ix'.sets
  pub whole : IsWhole ix'
  pub balance :
      (h : String) → pending_count ix' h + count h c.hashes ≡ pending_count ix h + count h c'.hashes
  pub alive : (h : String) → on_disk ix h ≡ true → Alive h ix'
  pub kept : (c'.hashes ≡ []) ⊎ ((h : String) → count h c.hashes ≤ count h c'.hashes)

count-append :
    (h j : String) (hs : List String) → count h (hs ++ (j ∷ [])) ≡ count h hs + count h (j ∷ [])
count-append h j [] = omega arith
count-append h j (k ∷ hs) = ground (arith, count-append h j hs)

-- A handle's claims are among those that the index counts.
abbrev pub Counted : ContentIndex → BlobClaims → Type 0
Counted ix c = (h : String) → count h c.hashes ≤ pending_count ix h

module _ (hashing : Hashing) (ix : ContentIndex) (c : BlobClaims) (u : IsMap ix.sets)
    (v : IsWhole ix) where
  pub claim-Effect : (h : String) → Effect ix c (claim ix c h).0 (claim ix c h).1
  unfolding claim
  claim-Effect h = record {
    keys = u;
    whole = unfold claim in claim-IsWhole ix c h v;
    balance = λ j. ground (
      arith,
      eq_iff h j,
      lookup-insert j h (pending_count ix h + 1) ix.pending,
      count-append j h c.hashes,
    );
    alive = λ j here wanted. here;
    kept = inr (λ j. omega (arith, count-append j h c.hashes));
  }

  module _ (e : Counted ix c) where
    pub release-Effect :
        (d : Bool) → Effect ix c (release_claims hashing d ix c).0 (release_claims hashing d ix c).1
    unfolding release_claims
    release-Effect d = record {
      keys = rw (sets-release_hashes hashing d ix c.hashes) u;
      whole = release_hashes-IsWhole hashing d ix c.hashes v;
      balance = λ j. omega (arith, e j, pending-release_hashes hashing d ix c.hashes j);
      alive = λ j here. release_hashes-Alive hashing d ix c.hashes j here;
      kept = inl refl;
    }

-- The blobs that gain a reference by a set are the set's own.
has_member : (s : List String) → is_empty s ≡ false → (r : String) × (member r s ≡ true)
unfolding member
has_member [] e = cc
has_member (r ∷ s) e = (r, ground (arith, str_eq_refl r))

nonempty-reference :
    (root : String) (ix : ContentIndex) (m : ContentMeta) (j : String)
    → is_empty (refs (reference ix root m) j) ≡ false
    → (is_empty (refs ix j) ≡ false) ⊎ (member j (set_blobs root m) ≡ true)
unfolding reference
nonempty-reference root ix m j e =
    let (r, named) = has_member (refs (reference ix root m) j) e in
    let either : (member r (refs ix j) || str_eq root r && member j (set_blobs root m)) ≡ true =
      sym (member-claim_refs root ix (set_blobs root m) j r) ∙ named in
    elim (Bool-cases (member r (refs ix j))) [
      | inl there ↦ inl (member→nonempty r (refs ix j) there)
      | inr new ↦ inr (ground arith)
    ]

refs-save : (ix : ContentIndex) (j : String) → refs (save ix) j ≡ refs ix j
unfolding save
refs-save ix j = ground arith

refs-touch :
    (ix : ContentIndex) (root : String) (now : ℕ) (j : String)
    → refs (touch ix root now) j ≡ refs ix j
unfolding touch
refs-touch ix root now j = elim (Option-cases (lookup root ix.sets)) [
  | inl e ↦ rw (e, touch) refl
  | inr (m, e) ↦ rw (e, touch) refl
]

pub nonempty-add_hosted_set :
    (ix : ContentIndex) (root : String) (size : ℕ) (chunks : List String) (from : String) (now : ℕ)
    (j : String)
    → is_empty (refs (add_hosted_set ix root size chunks from now) j) ≡ false
    → (is_empty (refs ix j) ≡ false) ⊎ (member j (root ∷ chunks) ≡ true)
unfolding add_hosted_set hosted_meta
nonempty-add_hosted_set ix root size chunks from now j e =
    let m = hosted_meta size chunks from now in
    let jx : ContentIndex = record ix { sets = insert root m ix.sets } in
    elim (Bool-cases (has_set ix root)) [
      | inl old ↦ inl (ground (arith, e, old, refs-touch ix root now j))
      | inr new ↦
          nonempty-reference root jx m j (ground (arith, e, new, refs-save (reference jx root m) j))
    ]

-- Recording a set quietly, giving the claims back and perhaps saving.
module _ (hashing : Hashing) (ix jx kx : ContentIndex) (c : BlobClaims) (u : IsMap ix.sets)
    (q : Quiet ix jx) (q' : Quiet (release_hashes hashing false jx c.hashes) kx) (w : IsWhole kx)
    (e : Counted ix c) where
  recorded-Effect : Effect ix c kx (record { hashes = [] })
  recorded-Effect =
      let (p, s, k) = q in
      let (p', s', k') = q' in
      record {
        keys = k' (rw (sets-release_hashes hashing false jx c.hashes) (k u));
        whole = w;
        balance =
            λ j. ground (arith, e j, p, p', pending-release_hashes hashing false jx c.hashes j);
        alive =
            λ j here wanted. ground (arith, here, s, s', store-release_hashes hashing jx c.hashes);
        kept = inl refl;
      }

-- The calls that record a set.
module _ (hashing : Hashing) (ix : ContentIndex) (c : BlobClaims) (u : IsMap ix.sets)
    (v : IsWhole ix) (e : Counted ix c) where
  pub add_hosted-Effect :
      (root : String) (size : ℕ) (chunks : List String) (from : String) (now : ℕ)
      → Effect ix c
          (add_hosted hashing ix root size chunks from c now).0
          (add_hosted hashing ix root size chunks from c now).1
  unfolding add_hosted release_claims
  add_hosted-Effect root size chunks from now =
      let jx = add_hosted_set ix root size chunks from now in
      recorded-Effect hashing ix jx (release_hashes hashing false jx c.hashes) c u
        (add_hosted_set-Quiet ix root size chunks from now) (refl, refl, λ k. k)
        (release_hashes-IsWhole hashing false jx c.hashes
          (add_hosted_set-IsWhole ix root size chunks from now v))
        e

  pub mark_owned-Effect :
      (root : String) (size : ℕ) (chunks : List String) (now : ℕ)
      → ((h : String) → member h (root ∷ chunks) ≡ true → on_disk ix h ≡ true)
      → Effect ix c
          (mark_owned hashing ix root size chunks c now).0
          (mark_owned hashing ix root size chunks c now).1
  unfolding mark_owned release_claims
  mark_owned-Effect root size chunks now here =
      let m = owned_meta (lookup root ix.sets) size chunks now in
      let jx = reference (record ix { sets = insert root m ix.sets }) root m in
      recorded-Effect hashing ix jx (save (release_hashes hashing false jx c.hashes)) c u
        (recorded-Quiet ix root m) (save-Quiet (release_hashes hashing false jx c.hashes))
        (mark_owned-IsWhole hashing ix root size chunks c now v here) e
