-- ===== src/Node/Replicate/Tests.antt =====
-- Replication and healing run on a small network, as in internal/node/replicate_test.go.
use freedom_names.Common.{
  ℕ, ◌-◌, ◌≡◌, refl, List, [], ◌∷◌, none, some, String, str_eq, if◌then◌else◌, length,
}
use freedom_names.Common.Assoc.{member}
use freedom_names.Node.Replicate.{
  Replicator, is_replica, place, replicate, count_holders, top_up, heal_from, heal,
}
use freedom_names.Node.Replicate.Counts.{
  made, IsTopUp, IsDistinct, SameMembers, replicate-IsTopUp, heal-IsTopUp,
}

-- Peer b fails, d has the set, the others take it.
abbrev toy_replicator : Replicator
toy_replicator = record {
  self = "a";
  replicas = 3;
  closest = λ root n. some ("b" ∷ "a" ∷ "c" ∷ "d" ∷ "e" ∷ "f" ∷ []);
  providers = λ root n. some ("a" ∷ "c" ∷ "c" ∷ []);
  push = λ p root. if str_eq p "b" then none else if str_eq p "d" then some 2 else some 1;
}

abbrev lone_replicator : Replicator
lone_replicator = record {
  self = "a";
  replicas = 3;
  closest = λ root n. none;
  providers = λ root n. none;
  push = λ p root. none;
}

replicate_run : replicate toy_replicator "r" ≡ (3, "b" ∷ "c" ∷ "d" ∷ "e" ∷ [])
unfolding replicate place is_replica
replicate_run = refl

-- The holder c is not pushed to again.
heal_run : heal toy_replicator "r" ≡ some ("b" ∷ "d" ∷ "e" ∷ [])
unfolding heal heal_from top_up count_holders member is_replica
heal_run = refl

heal_error : heal lone_replicator "r" ≡ none
unfolding heal
heal_error = refl

replicate-IsTopUp_example :
    ((replicate toy_replicator "r").0 ≡ made toy_replicator "r" (replicate toy_replicator "r").1)
    × IsTopUp toy_replicator "r"
        ("a" ∷ [])
        3
        ("b" ∷ "a" ∷ "c" ∷ "d" ∷ "e" ∷ "f" ∷ [])
        (3 - (replicate toy_replicator "r").0, (replicate toy_replicator "r").1)
replicate-IsTopUp_example =
    replicate-IsTopUp toy_replicator "r" ("b" ∷ "a" ∷ "c" ∷ "d" ∷ "e" ∷ "f" ∷ []) refl

heal-IsTopUp_example :
    (known pushed : List String) × (left : ℕ) × (heal toy_replicator "r" ≡ some pushed)
    × IsDistinct known
    × SameMembers known ("a" ∷ "a" ∷ "c" ∷ "c" ∷ [])
    × IsTopUp toy_replicator "r" known
        (4 - length known)
        ("b" ∷ "a" ∷ "c" ∷ "d" ∷ "e" ∷ "f" ∷ [])
        (left, pushed)
heal-IsTopUp_example =
    heal-IsTopUp toy_replicator "r" ("a" ∷ "c" ∷ "c" ∷ []) ("b" ∷ "a" ∷ "c" ∷ "d" ∷ "e" ∷ "f" ∷ [])
      refl refl
