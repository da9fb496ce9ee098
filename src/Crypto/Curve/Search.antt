-- ===== src/Crypto/Curve/Search.antt =====
-- hashToCurve.ts: the point found is the first that parses.
use picocash.Prelude.{
  ℕ, zero, suc, ◌+◌, ◌<◌, ◌≡◌, refl, ap, ◌∙◌, ◌⊎◌, none, some, ◌++◌, arith, Option-cases, inl, inr,
}
use native.Mathlib.Nat.{add-zero}
use picocash.Result.{ok, err}
use picocash.Crypto.Curve.{
  Bytes, Curve, no_valid_point, candidate, domain_separator, search_point, hash_to_curve,
}

module _ {P : Type 0} (curve : Curve P) where
  -- The candidates of the counters below a bound, none of which parses.
  abbrev pub NoneBelow : Bytes → ℕ → ℕ → Type 0
  NoneBelow h start n = (m : ℕ) → m < n → curve.from_hex (candidate curve h (start + m)) ≡ none

  NoneBelow-suc :
      (h : Bytes) (start n : ℕ)
      → curve.from_hex (candidate curve h start) ≡ none
      → NoneBelow h (suc start) n
      → NoneBelow h start (suc n)
  NoneBelow-suc h start n failed before zero lt = rw (add-zero start) failed
  NoneBelow-suc h start n failed before (suc m) lt =
      ap (λ i. curve.from_hex (candidate curve h i)) (omega arith) ∙ before m (omega (arith, lt))

  search_point-cases :
      (h : Bytes) (left counter : ℕ)
      → ((p : P) × (n : ℕ) × (search_point curve h left counter ≡ ok p)
          × (n < left)
          × (curve.from_hex (candidate curve h (counter + n)) ≡ some p)
          × NoneBelow h counter n)
        ⊎ ((search_point curve h left counter ≡ err no_valid_point) × NoneBelow h counter left)
  unfolding search_point
  search_point-cases h zero counter = inr (refl, λ m lt. absurd (omega (arith, lt)))
  search_point-cases h (suc left) counter =
      elim (Option-cases (curve.from_hex (candidate curve h counter))) [
        | inr (p, parsed) ↦ inl (
          p,
          0,
          rw (search_point, parsed) refl,
          omega arith,
          rw (add-zero counter) parsed,
          λ m lt. absurd (omega (arith, lt)),
        )
        | inl failed ↦ elim (search_point-cases h left (suc counter)) [
          | inl (p, n, found, lt, parsed, before) ↦ inl (
            p,
            suc n,
            rw (search_point, failed) found,
            omega (arith, lt),
            ap (λ m. curve.from_hex (candidate curve h m)) (omega arith) ∙ parsed,
            NoneBelow-suc h counter n failed before,
          )
          | inr (lost, before) ↦
              inr (rw (search_point, failed) lost, NoneBelow-suc h counter left failed before)
        ]
      ]

  -- `hashToCurve` tries the counters from 0 on and gives the first candidate that is a point; it fails
  -- only where none of the 65536 candidates is one.
  pub hash_to_curve-first :
      (message : Bytes)
      → ((p : P) × (n : ℕ) × (hash_to_curve curve message ≡ ok p)
          × (n < 65536)
          × (curve.from_hex (candidate curve (curve.sha256 (domain_separator ++ message)) n)
              ≡ some p)
          × NoneBelow (curve.sha256 (domain_separator ++ message)) 0 n)
        ⊎ ((hash_to_curve curve message ≡ err no_valid_point)
            × NoneBelow (curve.sha256 (domain_separator ++ message)) 0 65536)
  unfolding hash_to_curve
  hash_to_curve-first message =
      elim (search_point-cases (curve.sha256 (domain_separator ++ message)) 65536 0) [
        | inl (p, n, found, lt, parsed, before) ↦ inl (
          p,
          n,
          found,
          lt,
          ap (λ m. curve.from_hex (candidate curve (curve.sha256 (domain_separator ++ message)) m))
                (omega arith)
              ∙ parsed,
          before,
        )
        | inr lost ↦ inr lost
      ]
