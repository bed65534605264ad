-- ===== src/Bch/Wallet/Genesis.antt =====
-- Coin selection for a claim: what selectFundingGenesis answers.
use freedom_names.Common.{
  ℕ, ◌+◌, ◌≤◌, ◌≡◌, refl, subst, inl, inr, true, not, ◌&&◌, ◌||◌, List, [], ◌∷◌, ◌++◌, some, leb,
  ◌==◌, length, arith, Bool-cases, Option-cases, leb→le,
}
use freedom_names.Bch.Wallet.{
  WalletUtxo, done, is_plain, find_genesis, need, grow, same_outpoint, estimate_fee,
  select_funding_genesis,
}
use freedom_names.Bch.Wallet.Funding.{value_of, value_of-append, AllPlain, AllPlain-append}

find_genesis_lem :
    (us : List WalletUtxo) (g : WalletUtxo)
    → find_genesis us ≡ some g
    → (is_plain g ≡ true) × (g.index ≡ 0)
unfolding find_genesis
find_genesis_lem [] g e = cc
find_genesis_lem (u ∷ us) g e = elim (Bool-cases (is_plain u && u.index == 0)) [
  | inl b ↦
      let same : u ≡ g = ground (arith, e, b) in
      subst (λ (x : WalletUtxo). (is_plain x ≡ true) × (x.index ≡ 0)) same
        (ground (arith, b), ground (arith, b))
  | inr b ↦ find_genesis_lem us g (ground (arith, e, b))
]

-- The selection starts with a plain coin of output index 0, holds plain coins only, and covers the
-- outputs with the fee for as many inputs as it has.
abbrev pub Funds : ℕ → ℕ → WalletUtxo → List WalletUtxo × ℕ → Type 0
Funds out_value num_outputs g (selected, total) =
    ((more : List WalletUtxo) × (selected ≡ g ∷ more))
    × AllPlain selected
    × (total ≡ value_of selected)
    × (out_value + estimate_fee (length selected) num_outputs ≤ total)

module _ (out_value num_outputs : ℕ) (g : WalletUtxo) where
  grow-Funds :
      (us more : List WalletUtxo) (total : ℕ) (r : List WalletUtxo × ℕ)
      → AllPlain (g ∷ more)
      → total ≡ value_of (g ∷ more)
      → grow out_value num_outputs g us (g ∷ more) total ≡ done r
      → Funds out_value num_outputs g r
  unfolding grow
  grow-Funds [] more total r k s e = cc
  grow-Funds (u ∷ us) more total r k s e =
      elim (Bool-cases (not (is_plain u) || same_outpoint u g)) [
        | inl skip ↦ grow-Funds us more total r k s (rw (skip, grow) at e)
        | inr take' ↦
            let plain : is_plain u ≡ true = ground (arith, take') in
            let k' : AllPlain (g ∷ (more ++ (u ∷ []))) =
              (k.0, AllPlain-append more (u ∷ []) k.1 (plain, tt)) in
            let s' : total + u.value ≡ value_of (g ∷ (more ++ (u ∷ []))) =
              omega (arith, s, value_of-append more (u ∷ [])) in
            elim (Bool-cases (
              leb (need out_value num_outputs g (length (g ∷ (more ++ (u ∷ [])))))
                (total + u.value))) [
                  | inl b ↦
                      subst (Funds out_value num_outputs g) (ground (arith, e, take', b))
                        ((more ++ (u ∷ []), refl), k', s', leb→le _ _ b)
                  | inr b ↦
                      grow-Funds us (more ++ (u ∷ [])) (total + u.value) r k' s'
                        (ground (arith, e, take', b))
                ]
      ]

pub select_funding_genesis-Funds :
    (utxos : List WalletUtxo) (out_value num_outputs : ℕ) (r : List WalletUtxo × ℕ)
    → select_funding_genesis utxos out_value num_outputs ≡ done r
    → (g : WalletUtxo) × (is_plain g ≡ true) × (g.index ≡ 0) × Funds out_value num_outputs g r
unfolding select_funding_genesis
select_funding_genesis-Funds utxos out_value num_outputs r e =
    elim (Option-cases (find_genesis utxos)) [
      | inl none_there ↦ ground (arith, e, none_there)
      | inr (g, there) ↦
          let (plain, index) = find_genesis_lem utxos g there in
          elim (Bool-cases (leb (need out_value num_outputs g 1) g.value)) [
            | inl b ↦ (
              g,
              plain,
              index,
              subst (Funds out_value num_outputs g) (ground (arith, e, there, b))
                  (([], refl), (plain, tt), omega arith, leb→le _ _ b),
            )
            | inr b ↦ (
              g,
              plain,
              index,
              grow-Funds out_value num_outputs g utxos [] g.value r (plain, tt) (omega arith)
                  (ground (arith, e, there, b)),
            )
          ]
    ]
