-- ===== src/Mint/Tempo/Chain.antt =====
-- vault-tempo.ts: the logs of a range of blocks, and clients that answer with them.
use picocash.Prelude.{
  ℕ, zero, suc, ◌+◌, ◌-◌, ◌≤◌, ◌<◌, ◌≡◌, refl, sym, subst, ◌∙◌, Bool, List, [], ◌∷◌, ◌++◌, arith,
  ◌==◌, All, inl, inr, Bool-cases, ==→≡,
}
use picocash.Result.{Result, ok, Result-cases}
use picocash.Mint.Tempo.{TransferLog, ChainReader, retry, with_retry}

-- The logs of so many blocks from one on.
unfoldable pub blocks : (ℕ → List TransferLog) → ℕ → ℕ → List TransferLog
blocks chain from zero = []
blocks chain from (suc n) = chain from ++ blocks chain (suc from) n

-- What a client answers for a range are the logs of its blocks, whenever it answers.
abbrev pub Agrees : {E : Type 0} → (ℕ → List TransferLog) → ChainReader E → Type 0
Agrees chain client =
    (from to attempt : ℕ) (logs : List TransferLog)
    → client.get_logs from to attempt ≡ ok logs
    → logs ≡ blocks chain from (to + 1 - from)

module _ {E A : Type 0} (limited : E → Bool) (fn : ℕ → Result E A) {a : A} where
  retry-eq-ok : (i left : ℕ) → retry limited fn i left ≡ ok a → (j : ℕ) × (fn j ≡ ok a)
  unfolding retry
  retry-eq-ok i zero h = (i, h)
  retry-eq-ok i (suc left) h = elim (Result-cases (fn i)) [
    | inl (b, e) ↦ (i, e ∙ sym (rw (retry, e) refl) ∙ h)
    | inr (x, e) ↦ elim (Bool-cases (limited x)) [
      | inl again ↦ retry-eq-ok (suc i) left (sym (rw (retry, e, again) refl) ∙ h)
      | inr halt ↦ (i, e ∙ sym (rw (retry, e, halt) refl) ∙ h)
    ]
  ]

  pub with_retry-eq-ok : with_retry limited fn ≡ ok a → (j : ℕ) × (fn j ≡ ok a)
  unfolding with_retry
  with_retry-eq-ok h = retry-eq-ok 0 4 h

module _ {ℓ} {A : Type ℓ} (P : A → Type 0) where
  pub All-append : (xs ys : List A) → All P xs → All P ys → All P (xs ++ ys)
  All-append [] ys p q = q
  All-append (x ∷ xs) ys p q = (p.0, All-append xs ys p.1 q)

  All_left : (xs ys : List A) → All P (xs ++ ys) → All P xs
  All_left [] ys p = tt
  All_left (x ∷ xs) ys p = (p.0, All_left xs ys p.1)

  All_right : (xs ys : List A) → All P (xs ++ ys) → All P ys
  All_right [] ys p = p
  All_right (x ∷ xs) ys p = All_right xs ys p.1

  pub All_weaken : (Q : A → Type 0) (xs : List A) → ((x : A) → P x → Q x) → All P xs → All Q xs
  All_weaken Q [] f p = tt
  All_weaken Q (x ∷ xs) f p = (f x p.0, All_weaken Q xs f p.1)

module _ (P : TransferLog → Type 0) (chain : ℕ → List TransferLog) where
  pub blocks-All :
      (from n : ℕ) → ((b : ℕ) → b < from + n → All P (chain b)) → All P (blocks chain from n)
  unfolding blocks
  blocks-All from zero h = tt
  blocks-All from (suc n) h =
      All-append P (chain from) (blocks chain (suc from) n) (h from (omega arith))
        (blocks-All (suc from) n (λ b m. h b (omega arith)))

  pub All-blocks :
      (from n b : ℕ) → All P (blocks chain from n) → from ≤ b → b < from + n → All P (chain b)
  unfolding blocks
  All-blocks from zero b h low high = absurd (omega arith)
  All-blocks from (suc n) b h low high = elim (Bool-cases (from == b)) [
    | inl same ↦
        subst (λ c. All P (chain c)) (==→≡ from b same)
          (All_left P (chain from) (blocks chain (suc from) n) h)
    | inr other ↦
        All-blocks (suc from) n b (All_right P (chain from) (blocks chain (suc from) n) h)
          (ground (arith, other)) (omega arith)
  ]
