-- ===== src/Mcp/Picker.antt =====
-- wallet-service.ts, `pickExactSubset`: the picker that decides whether locked proofs can pay a price.
use picocash.Prelude.{
  ℕ, ◌-◌, ◌<◌, ◌≡◌, refl, false, Option, none, some, List, [], ◌∷◌, sort_desc, arith, ◌==◌, leb,
  if◌then◌else◌, inl, inr, Bool-cases,
}
use picocash.Acceptor.Agent.{Indexed, weight, greedy, pick_exact}

abbrev pub prepend : Indexed → Option (List Indexed) → Option (List Indexed)
prepend p none = none
prepend p (some ps) = some (p ∷ ps)

unfoldable pub subset_loop : ℕ → List Indexed → Option (List Indexed)
subset_loop remaining [] = none
subset_loop remaining (p ∷ ps) =
    let fits = leb (weight p) remaining in
    let next = if fits then remaining - weight p else remaining in
    let others = subset_loop next ps in
    if fits then (if next == 0 then some (p ∷ []) else prepend p others) else others

unfoldable pub pick_exact_subset : List Indexed → ℕ → Option (List Indexed)
pick_exact_subset proofs amount = subset_loop amount (sort_desc weight proofs)

abbrev done : List Indexed × ℕ → Option (List Indexed)
done (picked, left) = if left == 0 then some picked else none

subset_loop-greedy :
    (ps : List Indexed) (left : ℕ) → 0 < left → subset_loop left ps ≡ done (greedy left ps)
unfolding subset_loop greedy
subset_loop-greedy [] left h = ground arith
subset_loop-greedy (p ∷ ps) left h = elim (Bool-cases (leb (weight p) left)) [
  | inl fits ↦ elim (Bool-cases (left - weight p == 0)) [
    | inl last ↦ rw (subset_loop, greedy, fits, last) refl
    | inr more ↦
        let rest = subset_loop-greedy ps (left - weight p) (ground (arith, more)) in
        elim (Bool-cases ((greedy (left - weight p) ps).1 == 0)) [
          | inl exact ↦ rw (subset_loop, greedy, fits, more, rest, exact) refl
          | inr short ↦ rw (subset_loop, greedy, fits, more, rest, short) refl
        ]
  ]
  | inr large ↦
      let more : (left == 0) ≡ false = ground arith in
      rw (subset_loop, greedy, large, more) (subset_loop-greedy ps left h)
]

-- For a positive amount it picks what the picker of `payChallenge` picks.
pub pick_exact_subset-pick_exact :
    (proofs : List Indexed) (amount : ℕ)
    → 0 < amount
    → pick_exact_subset proofs amount ≡ pick_exact proofs amount
unfolding pick_exact_subset pick_exact
pick_exact_subset-pick_exact proofs amount h = subset_loop-greedy (sort_desc weight proofs) amount h
