-- ===== src/Reserves/Checks/Verdicts.antt =====
-- What the verdicts of checks.ts mean.
use picocash.Prelude.{ℕ, ◌+◌, ◌*◌, ◌<◌, ◌≡◌, ◌⊎◌, inl, inr, true, false, some, arith, Bool-cases}
use picocash.Reserves.Checks.{TokenFacts, within, covers, all_chains, supply_verdict, cover_verdict}

-- Two figures differ by more than so many basis points of the larger.
abbrev pub Apart : ℕ → ℕ → ℕ → Type 0
Apart a b bps = (a * 10000 + b * bps < b * 10000) ⊎ (b * 10000 + a * bps < a * 10000)

within-Apart : (a b bps : ℕ) → within a b bps ≡ false → Apart a b bps
unfolding within
within-Apart a b bps h = ground (arith, h)

covers-false : (reserves supply : ℕ) → covers reserves supply ≡ false → reserves + 10000 < supply
unfolding covers
covers-false reserves supply h = ground (arith, h)

supply_verdict-tests :
    (t : TokenFacts) (reported : ℕ)
    → supply_verdict t reported ≡ some false
    → ((reported < t.tempo_supply) × (within t.tempo_supply reported 1 ≡ false))
      ⊎ ((within (all_chains t) reported 10 ≡ false)
          × (((t.multi_chain ≡ true) × (within (all_chains t) reported 200 ≡ false))
              ⊎ ((t.multi_chain ≡ false) × (reported < all_chains t))))
unfolding supply_verdict
supply_verdict-tests t reported h = ground (arith, h)

-- The check that supply matches is red only where more exists on Tempo alone than is reported, beyond a
-- hundredth of a percent; or the chains together are off by more than a tenth of a percent: by more than
-- two percent, either way, where other chains are seen, and upwards where none is.
pub supply_verdict_red :
    (t : TokenFacts) (reported : ℕ)
    → supply_verdict t reported ≡ some false
    → ((reported < t.tempo_supply) × Apart t.tempo_supply reported 1)
      ⊎ (Apart (all_chains t) reported 10
          × (((t.multi_chain ≡ true) × Apart (all_chains t) reported 200)
              ⊎ ((t.multi_chain ≡ false) × (reported < all_chains t))))
supply_verdict_red t reported h = elim (supply_verdict-tests t reported h) [
  | inl (more, off) ↦ inl (more, within-Apart t.tempo_supply reported 1 off)
  | inr (off, inl (seen, far)) ↦ inr (
    within-Apart (all_chains t) reported 10 off,
    inl (seen, within-Apart (all_chains t) reported 200 far),
  )
  | inr (off, inr (alone, more)) ↦
      inr (within-Apart (all_chains t) reported 10 off, inr (alone, more))
]

-- The check that reserves cover the chains is red only for a shortfall of more than a cent over all the
-- chains seen; and where other chains are seen, only where Tempo alone is not covered either or the
-- figures are off by more than two percent.
cover_verdict_red :
    (t : TokenFacts) (reserves : ℕ)
    → cover_verdict t reserves ≡ some false
    → (reserves + 10000 < all_chains t)
      × ((t.multi_chain ≡ false)
          ⊎ ((reserves + 10000 < t.tempo_supply) ⊎ Apart (all_chains t) reserves 200))
unfolding cover_verdict
cover_verdict_red t reserves h = (
  covers-false reserves (all_chains t) (ground (arith, h)),
  elim (Bool-cases t.multi_chain) [
    | inr alone ↦ inl alone
    | inl seen ↦ inr (elim (Bool-cases (covers reserves t.tempo_supply)) [
      | inr short ↦ inl (covers-false reserves t.tempo_supply short)
      | inl covered ↦ elim (Bool-cases (within (all_chains t) reserves 200)) [
        | inr far ↦ inr (within-Apart (all_chains t) reserves 200 far)
        | inl near ↦ absurd (ground (arith, h, seen, covered, near))
      ]
    ])
  ],
)
