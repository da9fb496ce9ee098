-- ===== src/Mint/Swap/Outcome.antt =====
-- What a swap of routes/swap.ts has done, whichever way it ended.
use picocash.Prelude.{
  ℕ, [], ◌≡◌, ◌⊎◌, inl, inr, Bool-cases, none, List, arith, ◌==◌, ==→≡, subst, sym,
}
use picocash.Result.{ok, err, Result-cases, >>=-eq-ok}
use picocash.Mint.Data.{
  Crypto, Keyset, VerifiedInput, BlindedMessage, SignatureResponse, Db, Failure, api_error,
  amount_mismatch, transact,
}
use picocash.Mint.Signing.{sum_inputs, sum_outputs, verify_inputs, validate_outputs, spend_inputs}
use picocash.Mint.Signing.Inputs.{AreVerified, verify_inputs-AreVerified}
use picocash.Mint.Signing.Spending.{NoneSpent, with_rows, spend_inputs-eq-ok}
use picocash.Mint.Signing.Signatures.{
  AreValid, validate_outputs-AreValid, Records, sign_all-Records,
}
use picocash.Mint.Swap.{SwapRequest, swap_tx, swap}

module _ (c : Crypto) (keyset : Keyset) where
  -- The transaction spends every input and signs every output, and touches nothing else.
  pub record Exchanges (inputs : List VerifiedInput) (outputs : List BlindedMessage) (db : Db)
      (r : List SignatureResponse × Db) : Type 0 where
    pub unspent : NoneSpent inputs db.spent_secrets
    pub signed :
        Records c keyset outputs none
          (record db { spent_secrets = with_rows inputs db.spent_secrets })
          r

  pub swap_tx-Exchanges :
      (inputs : List VerifiedInput) (outputs : List BlindedMessage) (db : Db)
      (r : List SignatureResponse × Db)
      → swap_tx c keyset inputs outputs db ≡ ok r
      → Exchanges inputs outputs db r
  unfolding swap_tx
  swap_tx-Exchanges inputs outputs db r h =
      let (s, e, h₁) = >>=-eq-ok (spend_inputs inputs db) _ h in
      let (unspent, after) = spend_inputs-eq-ok inputs db s e in
      record {
        unspent = unspent;
        signed =
            subst (λ (d : Db). Records c keyset outputs none d r) (sym after)
              (sign_all-Records c keyset outputs none s.1 r h₁);
      }

  -- A successful swap: the request was checked, its sums agree, and the tables moved with it.
  pub record Swapped (now : ℕ) (body : SwapRequest) (db : Db) (r : List SignatureResponse × Db)
      : Type 0 where
    pub inputs : List VerifiedInput
    pub verified : AreVerified c keyset now [] body.inputs inputs
    pub valid : AreValid keyset [] body.outputs
    pub conserved : sum_inputs inputs ≡ sum_outputs body.outputs
    pub exchanged : Exchanges inputs body.outputs db r

  pub swap-cases :
      (now : ℕ) (body : SwapRequest) (db : Db)
      → ((e : Failure) × (swap c keyset now body db ≡ (err e, db)))
        ⊎ ((signatures : List SignatureResponse) × (db' : Db) × (swap c keyset now body db
              ≡ (ok signatures, db'))
            × Swapped now body db (signatures, db'))
  unfolding swap transact
  swap-cases now body db = elim (Result-cases (verify_inputs c keyset body.inputs now)) [
    | inr (e, p) ↦ inl (e, rw p)
    | inl (vs, p) ↦ elim (Result-cases (validate_outputs body.outputs keyset)) [
      | inr (e, q) ↦ inl (e, rw (p, q))
      | inl (u, q) ↦ elim (Bool-cases (sum_inputs vs == sum_outputs body.outputs)) [
        | inr w ↦ inl (api_error 400 amount_mismatch, ground arith)
        | inl w ↦ elim (Result-cases (swap_tx c keyset vs body.outputs db)) [
          | inr (e, t) ↦ inl (e, ground arith)
          | inl ((signatures, db'), t) ↦ inr (
            signatures,
            db',
            ground arith,
            record {
              inputs = vs;
              verified = verify_inputs-AreVerified c keyset now body.inputs vs p;
              valid = validate_outputs-AreValid body.outputs keyset q;
              conserved = ==→≡ _ _ w;
              exchanged = swap_tx-Exchanges vs body.outputs db (signatures, db') t;
            },
          )
        ]
      ]
    ]
  ]
