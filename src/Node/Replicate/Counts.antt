-- ===== src/Node/Replicate/Counts.antt =====
-- internal/node/replicate.go, replicate and heal: how many replicas they make, and where.
use freedom_names.Common.{
  ℕ, zero, suc, ◌+◌, ◌-◌, ◌*◌, ◌<◌, ◌≡◌, refl, sym, subst, ◌⊎◌, inl, inr, true, false, ◌||◌, List,
  [], ◌∷◌, ◌++◌, some, String, eq_iff, if◌then◌else◌, arith, length, Bool-cases,
}
use freedom_names.Common.Assoc.{member}
use freedom_names.Node.Replicate.{
  Replicator, is_replica, place, replicate, count_holders, top_up, heal_from, heal,
}

-- How many pushes to these peers made a replica, or found one.
abbrev pub made : Replicator → String → List String → ℕ
made r root [] = 0
made r root (p ∷ ps) = (if is_replica (r.push p root) then 1 else 0) + made r root ps

-- The peers that are not known, in order.
abbrev pub outsiders : List String → List String → List String
outsiders known [] = []
outsiders known (p ∷ ps) =
    let rest = outsiders known ps in if member p known then rest else p ∷ rest

-- Every push is made while replicas are missing.
abbrev pub WhileMissing : Replicator → String → ℕ → List String → Type 0
WhileMissing r root need [] = Unit
WhileMissing r root need (p ∷ ps) =
    (0 < need) × WhileMissing r root (if is_replica (r.push p root) then need - 1 else need) ps

-- A top-up of so many replicas from these peers, of which so many are left missing: it pushes to the
-- peers that are not known, from the front, each while replicas are missing, and passes the rest by
-- only where none is missing.
abbrev pub IsTopUp : Replicator → String → List String → ℕ → List String → ℕ × List String → Type 0
IsTopUp r root known need ps (left, pushed) =
    (rest : List String) × (pushed ++ rest ≡ outsiders known ps)
    × (made r root pushed + left ≡ need)
    × WhileMissing r root need pushed
    × ((left ≡ 0) ⊎ (rest ≡ []))

module _ (r : Replicator) (root : String) (known : List String) where
  top_up-met : (ps : List String) → top_up r root known 0 ps ≡ (0, [])
  unfolding top_up
  top_up-met [] = refl
  top_up-met (p ∷ ps) = ground arith

  top_up-known :
      (need : ℕ) (p : String) (ps : List String)
      → member p known ≡ true
      → top_up r root known (suc need) (p ∷ ps) ≡ top_up r root known (suc need) ps
  unfolding top_up
  top_up-known need p ps e = ground (arith, e)

  top_up-new :
      (need : ℕ) (p : String) (ps : List String)
      → member p known ≡ false
      → top_up r root known (suc need) (p ∷ ps) ≡ (
          let rest =
            top_up r root known
              (if is_replica (r.push p root) then suc need - 1 else suc need)
              ps in
          (rest.0, p ∷ rest.1))
  unfolding top_up
  top_up-new need p ps e = ground (arith, e)

  IsTopUp-known :
      (need : ℕ) (p : String) (ps : List String)
      → member p known ≡ true
      → (t : ℕ × List String) → IsTopUp r root known need ps t
      → IsTopUp r root known need (p ∷ ps) t
  IsTopUp-known need p ps e (left, pushed) (rest, a, b, w, c) = (rest, rw e a, b, w, c)

  IsTopUp-new :
      (need : ℕ) (p : String) (ps : List String)
      → member p known ≡ false
      → (t : ℕ × List String)
      → IsTopUp r root known (if is_replica (r.push p root) then suc need - 1 else suc need) ps t
      → IsTopUp r root known (suc need) (p ∷ ps) (t.0, p ∷ t.1)
  IsTopUp-new need p ps e (left, pushed) (rest, a, b, w, c) =
      (rest, rw (e, a) refl, ground (arith, b), (omega arith, w), c)

  top_up-IsTopUp :
      (ps : List String) (need : ℕ) → IsTopUp r root known need ps (top_up r root known need ps)
  unfolding top_up
  top_up-IsTopUp [] need = ([], refl, omega arith, tt, inr refl)
  top_up-IsTopUp (p ∷ ps) zero =
      subst (IsTopUp r root known 0 (p ∷ ps)) (sym (top_up-met (p ∷ ps)))
        (outsiders known (p ∷ ps), refl, refl, tt, inl refl)
  top_up-IsTopUp (p ∷ ps) (suc need) = elim (Bool-cases (member p known)) [
    | inl e ↦
        subst (IsTopUp r root known (suc need) (p ∷ ps)) (sym (top_up-known need p ps e))
          (IsTopUp-known (suc need) p ps e _ (top_up-IsTopUp ps (suc need)))
    | inr e ↦
        subst (IsTopUp r root known (suc need) (p ∷ ps)) (sym (top_up-new need p ps e))
          (IsTopUp-new need p ps e _ (top_up-IsTopUp ps _))
  ]

-- The loop of replicate tops up from no replicas and this node alone.
place-top_up :
    (r : Replicator) (root : String) (ps : List String) (placed need : ℕ)
    → need + placed ≡ r.replicas
    → place r root placed ps
      ≡ (let t = top_up r root (r.self ∷ []) need ps in (r.replicas - t.0, t.1))
unfolding place top_up member
place-top_up r root [] placed need l = ground (arith, l)
place-top_up r root (p ∷ ps) placed need l = ground (
  arith,
  l,
  eq_iff p r.self,
  eq_iff r.self p,
  place-top_up r root ps placed need,
  place-top_up r root ps (suc placed) (need - 1),
)

-- Every text stands once.
abbrev pub IsDistinct : List String → Type 0
IsDistinct [] = Unit
IsDistinct (p ∷ ps) = (member p ps ≡ false) × IsDistinct ps

abbrev pub SameMembers : List String → List String → Type 0
SameMembers ps qs = (p : String) → member p ps ≡ member p qs

member-count_holders :
    (q : String) (ps known : List String) (holders : ℕ)
    → member q (count_holders known holders ps).0 ≡ (member q known || member q ps)
unfolding count_holders member
member-count_holders q [] known holders = ground arith
member-count_holders q (p ∷ ps) known holders = ground (
  arith,
  eq_iff p q,
  member-count_holders q ps known holders,
  member-count_holders q ps (p ∷ known) (suc holders),
)

-- The known peers are distinct, and as many as the holders counted.
abbrev IsCount : List String × ℕ → Type 0
IsCount (known, holders) = IsDistinct known × (holders ≡ length known)

count_holders-IsCount :
    (ps known : List String) (holders : ℕ)
    → IsDistinct known
    → holders ≡ length known
    → IsCount (count_holders known holders ps)
unfolding count_holders
count_holders-IsCount [] known holders d e = (d, e)
count_holders-IsCount (p ∷ ps) known holders d e = elim (Bool-cases (member p known)) [
  | inl k ↦ subst IsCount (sym (rw k refl)) (count_holders-IsCount ps known holders d e)
  | inr k ↦
      subst IsCount (sym (rw k refl))
        (count_holders-IsCount ps (p ∷ known) (suc holders) (k, d) (rw e refl))
]

heal_from-top_up :
    (r : Replicator) (root : String) (known : List String) (holders : ℕ) (peers : List String)
    → r.closest root ((r.replicas + 1) * 2 + 2) ≡ some peers
    → heal_from r root known holders ≡ some (top_up r root known (r.replicas + 1 - holders) peers).1
unfolding heal_from
heal_from-top_up r root known holders peers e = ground (arith, e, top_up-met r root known peers)

-- Where the lookup answers, replicate pushes to the closest peers but this node, from the front and
-- in their order, each while fewer than the target took the set or had it, and to all of them where
-- the target is not met; and it answers how many took the set or had it.
pub replicate-IsTopUp :
    (r : Replicator) (root : String) (peers : List String)
    → r.closest root (r.replicas * 2 + 2) ≡ some peers
    → ((replicate r root).0 ≡ made r root (replicate r root).1)
      × IsTopUp r root
          (r.self ∷ [])
          r.replicas
          peers
          (r.replicas - (replicate r root).0, (replicate r root).1)
unfolding replicate
replicate-IsTopUp r root peers e =
    subst P (sym run) (placed t (top_up-IsTopUp r root (r.self ∷ []) peers r.replicas))
  where
    t : ℕ × List String
    t = top_up r root (r.self ∷ []) r.replicas peers

    P : ℕ × List String → Type 0
    P (n, pushed) =
        (n ≡ made r root pushed)
        × IsTopUp r root (r.self ∷ []) r.replicas peers (r.replicas - n, pushed)

    run : replicate r root ≡ (r.replicas - t.0, t.1)
    run = rw (e, replicate) (place-top_up r root peers 0 r.replicas (omega arith))

    placed :
        (s : ℕ × List String)
        → IsTopUp r root (r.self ∷ []) r.replicas peers s
        → P (r.replicas - s.0, s.1)
    placed (left, pushed) (rest, a, b, w, c) = (
      omega (arith, b),
      (rest, a, omega (arith, b), w, elim c [ inl z ↦ inl (omega (arith, b, z)) | inr o ↦ inr o ]),
    )

-- Heal, where both lookups answer, counts this node and the providers once each, and pushes to the
-- closest peers that are none of them, from the front and in their order, each while fewer took the
-- set or had it than the target misses, and to all of them where the target is not met.
pub heal-IsTopUp :
    (r : Replicator) (root : String) (found peers : List String)
    → r.providers root (r.replicas + 1 + 2) ≡ some found
    → r.closest root ((r.replicas + 1) * 2 + 2) ≡ some peers
    → (known pushed : List String) × (left : ℕ) × (heal r root ≡ some pushed)
      × IsDistinct known
      × SameMembers known (r.self ∷ found)
      × IsTopUp r root known (r.replicas + 1 - length known) peers (left, pushed)
unfolding heal member
heal-IsTopUp r root found peers e f = (
  c.0,
  t.1,
  t.0,
  rw (e, heal) (heal_from-top_up r root c.0 c.1 peers f),
  count.0,
  (λ p. ground (arith, member-count_holders p found (r.self ∷ []) 1)),
  subst (λ n. IsTopUp r root c.0 (r.replicas + 1 - n) peers t) count.1
      (top_up-IsTopUp r root c.0 peers (r.replicas + 1 - c.1)),
)
  where
    c : List String × ℕ
    c = count_holders (r.self ∷ []) 1 found

    t : ℕ × List String
    t = top_up r root c.0 (r.replicas + 1 - c.1) peers

    count : IsCount c
    count = count_holders-IsCount found (r.self ∷ []) 1 (refl, tt) refl
