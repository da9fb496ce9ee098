-- ===== src/Mint/Melt/Outcome.antt =====
-- What `POST /v1/melt` of routes/melt.ts has done before the payout.
use picocash.Prelude.{
  ℕ, ◌+◌, Text, ◌≡◌, refl, ◌⊎◌, inl, inr, Bool-cases, Option-cases, true, some, List, [], arith,
  ◌==◌, ==→≡, ltb, subst, sym, ap, ◌∙◌,
}
use picocash.Result.{Result, ok, err, Result-cases}
use picocash.Table.{find, find-key, key-find}
use picocash.Mint.Data.{
  Crypto, Keyset, VerifiedInput, MeltQuote, MeltState, Db, Failure, api_error, amount_mismatch,
  quote_not_found, melt_already_paid, quote_expired, transact,
}
use picocash.Mint.Signing.{sum_inputs, verify_inputs, spend_inputs}
use picocash.Mint.Signing.Inputs.{AreVerified, verify_inputs-AreVerified}
use picocash.Mint.Signing.Spending.{NoneSpent, with_rows, spend_inputs-eq-ok}
use picocash.Mint.Melt.{
  MeltRequest, Prepared, to_pay, replied, inputs_hash, matches, update_melt, marked_pending,
  fetch_melt, spend_tx, by_state, prepare,
}

-- The transaction found the melt unpaid, spent every input and marked the melt pending.
pub record Consumes (melt : MeltQuote) (hash : Text) (inputs : List VerifiedInput) (db db' : Db)
    : Type 0 where
  pub locked : MeltQuote
  pub stored : find MeltQuote.id melt.id db.melt_quotes ≡ some locked
  pub unpaid : locked.state ≡ MeltState.unpaid
  pub unspent : NoneSpent inputs db.spent_secrets
  pub after :
      update_melt melt.id
        (marked_pending hash)
        (record db { spent_secrets = with_rows inputs db.spent_secrets })
      ≡ db'

spend_tx-Consumes :
    (melt : MeltQuote) (hash : Text) (inputs : List VerifiedInput) (db : Db) (r : Unit {0} × Db)
    → spend_tx melt hash inputs db ≡ ok r
    → Consumes melt hash inputs db r.1
unfolding spend_tx
spend_tx-Consumes melt hash inputs db r h =
    elim (Option-cases (find MeltQuote.id melt.id db.melt_quotes)) [
      | inl missing ↦ ground arith
      | inr (locked, e) ↦ elim (Result-cases (spend_inputs inputs db)) [
        | inr (failed, p) ↦ ground arith
        | inl (s, p) ↦
            let (free, after) = spend_inputs-eq-ok inputs db s p in
            record {
              locked = locked;
              stored = e;
              unpaid = ground arith;
              unspent = free;
              after = ap (update_melt melt.id (marked_pending hash)) after ∙ ground arith;
            }
      ]
    ]

module _ (c : Crypto) (keyset : Keyset) where
  -- The request was checked against the melt as it was read: its inputs are valid and total the
  -- payout and the fee.
  pub record Checked (now : ℕ) (body : MeltRequest) (melt : MeltQuote) (inputs : List VerifiedInput)
      : Type 0 where
    pub named : melt.id ≡ body.melt_id
    pub verified : AreVerified c keyset now [] body.inputs inputs
    pub total : sum_inputs inputs ≡ melt.amount + melt.fee

  -- Nothing is written (and a payout follows only for a melt that was pending or owed, with the
  -- recorded inputs), or the inputs of an unpaid melt are consumed and its payout follows.
  pub data PrepareCases (now : ℕ) (body : MeltRequest) (db : Db) (r : Result Failure Prepared × Db)
      : Type 0 where
    refused : (e : Failure) → r ≡ (err e, db) → PrepareCases now body db r
    replays :
        (melt : MeltQuote)
        → r ≡ (ok (replied melt), db)
        → melt.state ≡ MeltState.paid
        → PrepareCases now body db r
    retries :
        (melt : MeltQuote) (inputs : List VerifiedInput)
        → r ≡ (ok (to_pay melt), db)
        → Checked now body melt inputs
        → find MeltQuote.id melt.id db.melt_quotes ≡ some melt
        → (melt.state ≡ MeltState.pending) ⊎ (melt.state ≡ MeltState.owed)
        → matches melt.inputs_hash (inputs_hash c inputs) ≡ true
        → PrepareCases now body db r
    consumes :
        (melt : MeltQuote) (inputs : List VerifiedInput) (db' : Db)
        → r ≡ (ok (to_pay melt), db')
        → Checked now body melt inputs
        → find MeltQuote.id melt.id db.melt_quotes ≡ some melt
        → Consumes melt (inputs_hash c inputs) inputs db db'
        → PrepareCases now body db r

  by_state-cases :
      (now : ℕ) (body : MeltRequest) (melt : MeltQuote) (inputs : List VerifiedInput) (db : Db)
      → Checked now body melt inputs
      → find MeltQuote.id melt.id db.melt_quotes ≡ some melt
      → (s : MeltState) → melt.state ≡ s
      → PrepareCases now body db (by_state now melt (inputs_hash c inputs) inputs db)
  unfolding by_state transact
  by_state-cases now body melt inputs db checked stored MeltState.paid p =
      elim (Bool-cases (matches melt.inputs_hash (inputs_hash c inputs))) [
        | inl same ↦ replays melt (ground arith) p
        | inr differ ↦ refused (api_error 409 melt_already_paid) (ground arith)
      ]
  by_state-cases now body melt inputs db checked stored MeltState.unpaid p =
      elim (Bool-cases (ltb melt.expires_at now)) [
        | inl expired ↦ refused (api_error 400 quote_expired) (ground arith)
        | inr live ↦ elim (Result-cases (spend_tx melt (inputs_hash c inputs) inputs db)) [
          | inr (e, t) ↦ refused e (ground arith)
          | inl (r, t) ↦
              consumes melt inputs r.1 (ground arith) checked stored
                (spend_tx-Consumes melt (inputs_hash c inputs) inputs db r t)
        ]
      ]
  by_state-cases now body melt inputs db checked stored _ p =
      elim (Bool-cases (matches melt.inputs_hash (inputs_hash c inputs))) [
        | inl same ↦ retries melt inputs (ground arith) checked stored (ground arith) same
        | inr differ ↦ refused (api_error 409 melt_already_paid) (ground arith)
      ]

  pub prepare-cases :
      (now : ℕ) (body : MeltRequest) (db : Db)
      → PrepareCases now body db (prepare c keyset now body db)
  unfolding prepare fetch_melt
  prepare-cases now body db = elim (Option-cases (find MeltQuote.id body.melt_id db.melt_quotes)) [
    | inl missing ↦ refused (api_error 404 quote_not_found) (ground arith)
    | inr (melt, e) ↦ elim (Result-cases (verify_inputs c keyset body.inputs now)) [
      | inr (f, p) ↦ refused f (ground arith)
      | inl (inputs, p) ↦ elim (Bool-cases (sum_inputs inputs == melt.amount + melt.fee)) [
        | inr differ ↦ refused (api_error 400 amount_mismatch) (ground arith)
        | inl agree ↦ subst (PrepareCases now body db) (sym (ground arith)) (
            by_state-cases now body melt inputs db
              (record {
                named = key-find MeltQuote.id body.melt_id melt db.melt_quotes e;
                verified = verify_inputs-AreVerified c keyset now body.inputs inputs p;
                total = ==→≡ _ _ agree;
              })
              (find-key MeltQuote.id body.melt_id melt db.melt_quotes e) melt.state refl)
      ]
    ]
  ]
