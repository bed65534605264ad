-- ===== src/Bch/Wallet/Funding.antt =====
-- Coin selection: what selectFunding answers.
use freedom_names.Common.{
  ℕ, ◌+◌, ◌<◌, ◌≤◌, ◌≡◌, ◌↔◌, refl, ap, ◌∙◌, subst, inl, inr, true, List, [], ◌∷◌, ◌++◌, ltb, leb,
  arith, All, Bool-cases, leb→le, leb→lt,
}
use freedom_names.Bch.Wallet.{
  WalletUtxo, WalletResult, WalletError, done, refused, insufficient_funds, is_plain, balance,
  plain_coins, insert_coin, sort_coins, cover, select_funding,
}

-- The satoshis of a list of coins.
abbrev pub value_of : List WalletUtxo → ℕ
value_of [] = 0
value_of (u ∷ us) = u.value + value_of us

pub value_of-append : (us vs : List WalletUtxo) → value_of (us ++ vs) ≡ value_of us + value_of vs
value_of-append [] vs = omega arith
value_of-append (u ∷ us) vs = omega (arith, value_of-append us vs)

-- All coins are without tokens.
abbrev pub AllPlain : List WalletUtxo → Type 0
AllPlain us = All (λ u. is_plain u ≡ true) us

pub AllPlain-append : (us vs : List WalletUtxo) → AllPlain us → AllPlain vs → AllPlain (us ++ vs)
AllPlain-append [] vs h k = k
AllPlain-append (u ∷ us) vs (e, h) k = (e, AllPlain-append us vs h k)

value_of-plain_coins : (us : List WalletUtxo) → value_of (plain_coins us) ≡ balance us
unfolding plain_coins balance
value_of-plain_coins [] = refl
value_of-plain_coins (u ∷ us) = elim (Bool-cases (is_plain u)) [
  | inl e ↦ rw e (omega (arith, value_of-plain_coins us))
  | inr e ↦ rw e (omega (arith, value_of-plain_coins us))
]

plain_coins-AllPlain : (us : List WalletUtxo) → AllPlain (plain_coins us)
unfolding plain_coins
plain_coins-AllPlain [] = tt
plain_coins-AllPlain (u ∷ us) = elim (Bool-cases (is_plain u)) [
  | inl e ↦ rw e (e, plain_coins-AllPlain us)
  | inr e ↦ rw e (plain_coins-AllPlain us)
]

insert_coin_lem :
    (u : WalletUtxo) (us : List WalletUtxo)
    → AllPlain us
    → is_plain u ≡ true
    → AllPlain (insert_coin u us) × (value_of (insert_coin u us) ≡ u.value + value_of us)
unfolding insert_coin
insert_coin_lem u [] h e = ((e, tt), refl)
insert_coin_lem u (v ∷ vs) (f, h) e =
    let (plain, sum) = insert_coin_lem u vs h e in
    elim (Bool-cases (ltb u.value v.value)) [
      | inl b ↦ rw b ((f, plain), omega (arith, sum))
      | inr b ↦ rw b ((e, (f, h)), refl)
    ]

sort_coins_lem :
    (us : List WalletUtxo)
    → AllPlain us
    → AllPlain (sort_coins us) × (value_of (sort_coins us) ≡ value_of us)
unfolding sort_coins
sort_coins_lem [] h = (tt, refl)
sort_coins_lem (u ∷ us) (e, h) =
    let (plain, sum) = sort_coins_lem us h in
    let (plain', sum') = insert_coin_lem u (sort_coins us) plain e in
    (plain', omega (arith, sum, sum'))

-- What a selection answers: plain coins that add up to what was asked.
abbrev pub Covers : ℕ → List WalletUtxo × ℕ → Type 0
Covers need (selected, total) = AllPlain selected × (total ≡ value_of selected) × (need ≤ total)

cover_sound :
    (need : ℕ) (us selected : List WalletUtxo) (total : ℕ) (r : List WalletUtxo × ℕ)
    → AllPlain us
    → AllPlain selected
    → total ≡ value_of selected
    → cover need us selected total ≡ done r
    → Covers need r
unfolding cover
cover_sound need [] selected total r h k s e = cc
cover_sound need (u ∷ us) selected total r (f, h) k s e =
    let k' = AllPlain-append selected (u ∷ []) k (f, tt) in
    let s' : total + u.value ≡ value_of (selected ++ (u ∷ [])) =
      omega (arith, s, value_of-append selected (u ∷ [])) in
    elim (Bool-cases (leb need (total + u.value))) [
      | inl b ↦ subst (Covers need) (ground (arith, e, b)) (k', s', leb→le need (total + u.value) b)
      | inr b ↦
          cover_sound need us (selected ++ (u ∷ [])) (total + u.value) r h k' s'
            (ground (arith, e, b))
    ]

cover-refuses :
    (need : ℕ) (us selected : List WalletUtxo) (total : ℕ) (x : WalletError)
    → total < need
    → cover need us selected total ≡ refused x
    → (x ≡ insufficient_funds) × (total + value_of us < need)
unfolding cover
cover-refuses need [] selected total x lt e = (ground arith, omega arith)
cover-refuses need (u ∷ us) selected total x lt e = elim (Bool-cases (leb need (total + u.value))) [
  | inl b ↦ ground (arith, e, b)
  | inr b ↦
      let less : total + u.value < need = leb→lt need (total + u.value) b in
      let (same, sum) =
        cover-refuses need us (selected ++ (u ∷ [])) (total + u.value) x less
          (ground (arith, e, b)) in
      (same, omega (arith, sum))
]

cover-within :
    (need : ℕ) (us selected : List WalletUtxo) (total : ℕ) (r : List WalletUtxo × ℕ)
    → cover need us selected total ≡ done r
    → r.1 ≤ total + value_of us
unfolding cover
cover-within need [] selected total r e = cc
cover-within need (u ∷ us) selected total r e = elim (Bool-cases (leb need (total + u.value))) [
  | inl b ↦ ground (arith, e, b)
  | inr b ↦ omega (
    arith,
    cover-within need us (selected ++ (u ∷ [])) (total + u.value) r (ground (arith, e, b)),
  )
]

sorted_balance :
    (utxos : List WalletUtxo)
    → AllPlain (sort_coins (plain_coins utxos))
      × (value_of (sort_coins (plain_coins utxos)) ≡ balance utxos)
sorted_balance utxos =
    let (plain, sum) = sort_coins_lem (plain_coins utxos) (plain_coins-AllPlain utxos) in
    (plain, sum ∙ value_of-plain_coins utxos)

-- The coins that a selection answers have no tokens, their values add up to the total that it
-- answers, and the total is at least the amount asked for.
pub select_funding-Covers :
    (utxos : List WalletUtxo) (need : ℕ) (r : List WalletUtxo × ℕ)
    → select_funding utxos need ≡ done r
    → Covers need r
unfolding select_funding
select_funding-Covers utxos need r e =
    cover_sound need (sort_coins (plain_coins utxos)) [] 0 r (sorted_balance utxos).0 tt refl e

-- A selection for a positive amount is refused for insufficient funds exactly when the balance of
-- plain coins is less than the amount.
pub select_funding-refused_iff :
    (utxos : List WalletUtxo) (need : ℕ)
    → 0 < need
    → (select_funding utxos need ≡ refused insufficient_funds) ↔ (balance utxos < need)
unfolding select_funding
select_funding-refused_iff utxos need pos =
    let us = sort_coins (plain_coins utxos) in
    let (plain, sum) = sorted_balance utxos in
    (
      λ e.
          let (same, less) = cover-refuses need us [] 0 insufficient_funds pos e in
          omega (arith, less, sum),
      λ less. poor (cover need us [] 0) refl less,
    )
  where
    poor :
        (r : WalletResult (List WalletUtxo × ℕ))
        → cover need (sort_coins (plain_coins utxos)) [] 0 ≡ r
        → balance utxos < need
        → r ≡ refused insufficient_funds
    poor (done r) e less =
        let (plain, sum) = sorted_balance utxos in
        let (k, s, enough) =
          cover_sound need (sort_coins (plain_coins utxos)) [] 0 r plain tt refl e in
        absurd (
          omega
            (arith, enough, less, sum, cover-within need (sort_coins (plain_coins utxos)) [] 0 r e))
    poor (refused x) e less =
        let (same, l) = cover-refuses need (sort_coins (plain_coins utxos)) [] 0 x pos e in
        ap refused same
