-- ===== src/Sdk/Wallet/Slices.antt =====
-- packages/sdk/src/wallet.ts: the proofs of a swap, cut where the bundle ends.
use picocash.Prelude.{
  ℕ, zero, suc, ◌+◌, ◌≡◌, refl, ap, ap₂, Text, Bool, true, List, [], ◌∷◌, ◌++◌, map, length, sum_by,
  arith, inl, inr, Bool-cases,
}
use picocash.Acceptor.{all_of}
use picocash.Crypto.Curve.{Bytes}
use picocash.Sdk.Blinding.Decompose.{sum}
use picocash.Sdk.Store.{Proof}
use picocash.Sdk.Outputs.{OutputSpec}
use picocash.Sdk.Outputs.Kept.{face_of, face_asked}
use picocash.Sdk.Wallet.{specs_of, slice_at, rest}

∷_head : {A : Type 0} {x y : A} {xs ys : List A} → (x ∷ xs) ≡ (y ∷ ys) → x ≡ y
∷_head h = cc

∷_tail : {A : Type 0} {x y : A} {xs ys : List A} → (x ∷ xs) ≡ (y ∷ ys) → xs ≡ ys
∷_tail h = cc

module _ {A B C : Type 0} (f : A → C) (g : B → C) where
  pub slice_at-faces :
      (ys zs : List B) (xs : List A)
      → map f xs ≡ map g (ys ++ zs)
      → (map f ((slice_at (length ys) xs).0) ≡ map g ys)
        × (map f ((slice_at (length ys) xs).1) ≡ map g zs)
  slice_at-faces [] zs xs h = (refl, h)
  slice_at-faces (y ∷ ys) zs [] h = absurd (cc h)
  slice_at-faces (y ∷ ys) zs (x ∷ xs) h =
      let (left, right) = slice_at-faces ys zs xs (∷_tail h) in
      (ap₂ (λ a bs. a ∷ bs) (∷_head h) left, right)

pub all_of-slice_at :
    {A : Type 0} (test : A → Bool) (n : ℕ) (xs : List A)
    → all_of test xs ≡ true
    → (all_of test ((slice_at n xs).0) ≡ true) × (all_of test ((slice_at n xs).1) ≡ true)
all_of-slice_at test zero xs h = (refl, h)
all_of-slice_at test (suc n) [] h = (refl, refl)
all_of-slice_at test (suc n) (x ∷ xs) h = elim (Bool-cases (test x)) [
  | inl good ↦
      let (left, right) = all_of-slice_at test n xs (rw good at h) in (rw (good, left) refl, right)
  | inr bad ↦ absurd (cc (rw bad at h))
]

-- The amounts and the secrets of specs, and of the proofs that were made for them.
pub total_of_faces :
    (specs : List (OutputSpec × Bytes)) (proofs : List Proof)
    → map face_of proofs ≡ map face_asked specs
    → sum_by Proof.amount proofs ≡ sum_by (λ (s : OutputSpec × Bytes). s.0.amount) specs
total_of_faces [] [] h = refl
total_of_faces [] (p ∷ ps) h = absurd (cc h)
total_of_faces (s ∷ specs) [] h = absurd (cc h)
total_of_faces ((spec, factor) ∷ specs) (p ∷ ps) h =
    ap₂ (λ a b. a + b) (ap (λ x. x.0) (∷_head h)) (total_of_faces specs ps (∷_tail h))

pub secrets_of_faces :
    (specs : List (OutputSpec × Bytes)) (proofs : List Proof)
    → map face_of proofs ≡ map face_asked specs
    → map Proof.secret proofs ≡ map (λ (s : OutputSpec × Bytes). s.0.secret) specs
secrets_of_faces [] [] h = refl
secrets_of_faces [] (p ∷ ps) h = absurd (cc h)
secrets_of_faces (s ∷ specs) [] h = absurd (cc h)
secrets_of_faces ((spec, factor) ∷ specs) (p ∷ ps) h =
    ap₂ (λ a b. a ∷ b) (ap (λ x. x.1) (∷_head h)) (secrets_of_faces specs ps (∷_tail h))

module _ (draw : ℕ → Text × Bytes) where
  pub length-specs_of :
      (i : ℕ) (amounts : List ℕ) (secrets : List Text)
      → length (specs_of draw i amounts secrets) ≡ length amounts
  unfolding specs_of
  length-specs_of i [] secrets = refl
  length-specs_of i (a ∷ amounts) secrets = ap suc (length-specs_of (suc i) amounts (rest secrets))

  pub total_specs_of :
      (i : ℕ) (amounts : List ℕ) (secrets : List Text)
      → sum_by (λ (s : OutputSpec × Bytes). s.0.amount) (specs_of draw i amounts secrets)
        ≡ sum amounts
  unfolding specs_of
  total_specs_of i [] secrets = refl
  total_specs_of i (a ∷ amounts) secrets =
      ap (λ b. a + b) (total_specs_of (suc i) amounts (rest secrets))

  pub secrets_specs_of :
      (i : ℕ) (amounts : List ℕ) (secrets : List Text)
      → length secrets ≡ length amounts
      → map (λ (s : OutputSpec × Bytes). s.0.secret) (specs_of draw i amounts secrets) ≡ secrets
  unfolding specs_of
  secrets_specs_of i [] [] h = refl
  secrets_specs_of i [] (s ∷ secrets) h = absurd (omega (arith, h))
  secrets_specs_of i (a ∷ amounts) [] h = absurd (omega (arith, h))
  secrets_specs_of i (a ∷ amounts) (s ∷ secrets) h =
      ap (λ ss. s ∷ ss) (secrets_specs_of (suc i) amounts secrets (omega (arith, h)))
