-- ===== src/Mint/Signing/Inputs.antt =====
-- What `verifyInputs` of signing.ts has established when it returns.
use picocash.Prelude.{
  ℕ, Text, ◌≡◌, refl, ap₂, subst, true, false, some, List, [], ◌∷◌, map, arith, ◌==◌, if◌then◌else◌,
  contains, All, sum_by, Option-cases, inl, inr,
}
use picocash.Result.{ok, >>=-eq-ok, ok-eq-ok}
use picocash.Mint.Data.{Crypto, Keyset, DenominationKey, get_key, ProofInput, VerifiedInput}
use picocash.Mint.Signing.{verify_input, verify_inputs_from, verify_inputs, sum_inputs}

-- An input that carries a valid token of the keyset, may be spent now, and has its ledger key.
pub record IsVerified (c : Crypto) (keyset : Keyset) (now : ℕ) (v : VerifiedInput) : Type 0 where
  pub of_keyset : v.keyset_id ≡ keyset.id
  pub key : DenominationKey
  pub denomination : get_key v.amount keyset.keys ≡ some key
  pub signed : c.verify_proof v.secret v.c key.privkey ≡ true
  pub spendable : c.verify_p2pk_spend v.secret v.witness now ≡ true
  pub keyed : v.y ≡ c.hash_to_curve v.secret

-- No ledger key stands twice, nor among those in `seen`.
abbrev pub FreshKeys : List Text → List VerifiedInput → Type 0
FreshKeys seen [] = Unit
FreshKeys seen (v ∷ vs) = (contains v.y seen ≡ false) × FreshKeys (v.y ∷ seen) vs

-- How much of the inputs counts for a keyset in the ledger.
abbrev pub input_amount : Text → VerifiedInput → ℕ
input_amount keyset v = if v.keyset_id == keyset then v.amount else 0

module _ (c : Crypto) (keyset : Keyset) (now : ℕ) where
  verify_input-IsVerified :
      (seen : List Text) (input : ProofInput) (v : VerifiedInput)
      → verify_input c keyset now seen input ≡ ok v
      → IsVerified c keyset now v × (v.input ≡ input) × (contains v.y seen ≡ false)
  unfolding verify_input
  verify_input-IsVerified seen input v h = elim (Option-cases (get_key input.amount keyset.keys)) [
    | inl e ↦ ground arith
    | inr (key, e) ↦ (
      record {
        of_keyset = ground arith;
        key = key;
        denomination = ground arith;
        signed = ground arith;
        spendable = ground arith;
        keyed = ground arith;
      },
      ground arith,
      ground arith,
    )
  ]

  -- What is established of the list of inputs, one by one and together.
  pub record AreVerified (seen : List Text) (inputs : List ProofInput) (vs : List VerifiedInput)
      : Type 0 where
    pub each : All (IsVerified c keyset now) vs
    pub same : map (λ v. v.input) vs ≡ inputs
    pub fresh : FreshKeys seen vs
    pub counted : sum_by (input_amount keyset.id) vs ≡ sum_inputs vs

  AreVerified-cons :
      (seen : List Text) (input : ProofInput) (rest : List ProofInput) (v : VerifiedInput)
      (vs : List VerifiedInput)
      → IsVerified c keyset now v
      → v.input ≡ input
      → contains v.y seen ≡ false
      → AreVerified (v.y ∷ seen) rest vs
      → AreVerified seen (input ∷ rest) (v ∷ vs)
  unfolding sum_inputs
  AreVerified-cons seen input rest v vs valid same fresh others = record {
    each = (valid, others.each);
    same = ap₂ ◌∷◌ same others.same;
    fresh = (fresh, others.fresh);
    counted = ground (arith, valid.of_keyset, others.counted);
  }

  verify_inputs_from-AreVerified :
      (seen : List Text) (inputs : List ProofInput) (vs : List VerifiedInput)
      → verify_inputs_from c keyset now seen inputs ≡ ok vs
      → AreVerified seen inputs vs
  unfolding verify_inputs_from
  verify_inputs_from-AreVerified seen [] vs h =
      subst (AreVerified seen []) (ok-eq-ok h)
        (record { each = tt; same = refl; fresh = tt; counted = unfold sum_inputs in refl })
  verify_inputs_from-AreVerified seen (input ∷ rest) vs h =
      let (v, e, h₁) = >>=-eq-ok (verify_input c keyset now seen input) _ h in
      let (ws, e₁, h₂) = >>=-eq-ok (verify_inputs_from c keyset now (v.y ∷ seen) rest) _ h₁ in
      let (valid, same, fresh) = verify_input-IsVerified seen input v e in
      subst (AreVerified seen (input ∷ rest)) (ok-eq-ok h₂) (
        AreVerified-cons seen input rest v ws valid same fresh
          (verify_inputs_from-AreVerified (v.y ∷ seen) rest ws e₁))

  -- The inputs that `verifyInputs` returns are those of the request, each one valid, and no two of
  -- them have one ledger key.
  pub verify_inputs-AreVerified :
      (inputs : List ProofInput) (vs : List VerifiedInput)
      → verify_inputs c keyset inputs now ≡ ok vs
      → AreVerified [] inputs vs
  unfolding verify_inputs
  verify_inputs-AreVerified inputs vs = verify_inputs_from-AreVerified [] inputs vs

  keys-each :
      (vs : List VerifiedInput)
      → All (IsVerified c keyset now) vs
      → map (λ v. v.y) vs ≡ map (λ p. c.hash_to_curve p.secret) (map (λ v. v.input) vs)
  keys-each [] h = refl
  keys-each (v ∷ vs) h = ap₂ ◌∷◌ (h.0).keyed (keys-each vs h.1)

  -- The ledger keys are the curve points of the secrets, in order.
  pub keys-AreVerified :
      (seen : List Text) (inputs : List ProofInput) (vs : List VerifiedInput)
      → AreVerified seen inputs vs
      → map (λ v. v.y) vs ≡ map (λ p. c.hash_to_curve p.secret) inputs
  keys-AreVerified seen inputs vs h = rw (← h.same) (keys-each vs h.each)
