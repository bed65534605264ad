-- ===== src/Record/Names/Split.antt =====
-- strings.Split and strings.Join at a dot, and strings.ToLower, as internal/record/record.go uses
-- them on names.
use freedom_names.Common.{
  ℕ, ◌≡◌, ◌≢◌, refl, sym, ap, ◌∙◌, inl, inr, some, List, [], ◌∷◌, ◌++◌, arith, append_assoc, All,
  ◌==◌, ==_iff, Bool-cases, Option-cases, if◌then◌else◌,
}
use freedom_names.Record.Ip.{split}
use freedom_names.Record.Names.{lower_byte, to_lower, trim_dot, join, split_last}

abbrev pub dot : ℕ
dot = b'.'

abbrev pub HasNoDot : List ℕ → Type 0
HasNoDot = All (λ b. b ≢ dot)

-- A text has a first part.
pub split-nonempty :
    (sep : ℕ) (s : List ℕ) → (p : List ℕ) × (ps : List (List ℕ)) × (split sep s ≡ p ∷ ps)
unfolding split
split-nonempty sep [] = ([], [], refl)
split-nonempty sep (b ∷ bs) =
    let (p, ps, e) = split-nonempty sep bs in
    elim (Bool-cases (b == sep)) [
      | inl at ↦ ([], p ∷ ps, rw (e, at) refl)
      | inr off ↦ (b ∷ p, ps, rw (e, off) refl)
    ]

split_cons :
    (sep b : ℕ) (bs p : List ℕ) (ps : List (List ℕ))
    → split sep bs ≡ p ∷ ps
    → split sep (b ∷ bs) ≡ (if b == sep then [] ∷ p ∷ ps else (b ∷ p) ∷ ps)
unfolding split
split_cons sep b bs p ps e = rw e refl

pub split-append : (s t : List ℕ) → split dot (s ++ (dot ∷ t)) ≡ split dot s ++ split dot t
unfolding split
split-append [] t =
    let (p, ps, e) = split-nonempty dot t in
    split_cons dot dot t p ps e ∙ ap (λ (l : List (List ℕ)). [] ∷ l) (sym e)
split-append (b ∷ bs) t =
    let (p, ps, e) = split-nonempty dot bs in
    let rest : split dot (bs ++ (dot ∷ t)) ≡ p ∷ (ps ++ split dot t) =
      split-append bs t ∙ ap (λ (l : List (List ℕ)). l ++ split dot t) e in
    elim (Bool-cases (b == dot)) [
      | inl at ↦ ground (
        arith,
        at,
        split_cons dot b (bs ++ (dot ∷ t)) p (ps ++ split dot t) rest,
        split_cons dot b bs p ps e,
      )
      | inr off ↦ ground (
        arith,
        off,
        split_cons dot b (bs ++ (dot ∷ t)) p (ps ++ split dot t) rest,
        split_cons dot b bs p ps e,
      )
    ]

pub split_one : (s : List ℕ) → HasNoDot s → split dot s ≡ s ∷ []
unfolding split
split_one [] u = refl
split_one (b ∷ bs) (h, u) =
    ground (arith, h, ==_iff b dot, split_cons dot b bs bs [] (split_one bs u))

join_cons : (b : ℕ) (p : List ℕ) (ps : List (List ℕ)) → join ((b ∷ p) ∷ ps) ≡ b ∷ join (p ∷ ps)
unfolding join
join_cons b p [] = refl
join_cons b p (q ∷ ps) = refl

pub join-split : (s : List ℕ) → join (split dot s) ≡ s
unfolding join split
join-split [] = refl
join-split (b ∷ bs) =
    let (p, ps, e) = split-nonempty dot bs in
    let parts = split_cons dot b bs p ps e in
    let rest : join (p ∷ ps) ≡ bs = ap join (sym e) ∙ join-split bs in
    elim (Bool-cases (b == dot)) [
      | inl at ↦ ground (arith, at, e, rest, ==_iff b dot)
      | inr off ↦ ground (arith, off, e, rest, join_cons b p ps)
    ]

pub split_last-append :
    (front : List (List ℕ)) (p q : List ℕ)
    → split_last (front ++ (p ∷ q ∷ [])) ≡ some (front, (p, q))
unfolding split_last
split_last-append [] p q = refl
split_last-append (f ∷ []) p q = refl
split_last-append (f ∷ g ∷ []) p q = refl
split_last-append (f ∷ g ∷ h ∷ front) p q = rw (split_last-append (g ∷ h ∷ front) p q) refl

pub split_last_sound :
    (parts front : List (List ℕ)) (p q : List ℕ)
    → split_last parts ≡ some (front, (p, q))
    → parts ≡ front ++ (p ∷ q ∷ [])
unfolding split_last
split_last_sound [] front p q e = cc
split_last_sound (a ∷ []) front p q e = cc
split_last_sound (a ∷ b ∷ []) front p q e = ground (arith, e)
split_last_sound (a ∷ b ∷ d ∷ ps) front p q e = elim (Option-cases (split_last (b ∷ d ∷ ps))) [
  | inl short ↦ absurd (ground (arith, short, e))
  | inr ((front', (p', q')), found) ↦
      ground (arith, found, e, split_last_sound (b ∷ d ∷ ps) front' p' q' found)
]

pub join-append :
    (f : List ℕ) (front : List (List ℕ)) (p q : List ℕ)
    → join ((f ∷ front) ++ (p ∷ q ∷ [])) ≡ join (f ∷ front) ++ (dot ∷ (p ++ (dot ∷ q)))
unfolding join
join-append f [] p q = refl
join-append f (g ∷ front) p q = simp (join-append g front p q, append_assoc) refl

pub to_lower-append : (s t : List ℕ) → to_lower (s ++ t) ≡ to_lower s ++ to_lower t
unfolding to_lower
to_lower-append [] t = refl
to_lower-append (b ∷ bs) t = ap (◌∷◌ (lower_byte b)) (to_lower-append bs t)

pub trim_dot-append : (s : List ℕ) → trim_dot (s ++ (dot ∷ [])) ≡ s
unfolding trim_dot
trim_dot-append [] = refl
trim_dot-append (b ∷ []) = refl
trim_dot-append (b ∷ b' ∷ bs) = ap (◌∷◌ b) (trim_dot-append (b' ∷ bs))

-- A text that does not end in a dot stays.
pub trim_dot-last : (s : List ℕ) (b : ℕ) → b ≢ dot → trim_dot (s ++ (b ∷ [])) ≡ s ++ (b ∷ [])
unfolding trim_dot
trim_dot-last [] b h = ground (arith, h, ==_iff b dot)
trim_dot-last (d ∷ []) b h = ground (arith, h, ==_iff b dot)
trim_dot-last (d ∷ d' ∷ bs) b h = ap (◌∷◌ d) (trim_dot-last (d' ∷ bs) b h)
