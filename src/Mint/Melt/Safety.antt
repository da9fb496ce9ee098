-- ===== src/Mint/Melt/Safety.antt =====
-- Melting keeps the books and the cap, pays only for consumed proofs, and never pays twice what
-- the mint or the chain knows as paid.
use picocash.Prelude.{
  ℕ, ◌+◌, Text, ◌≡◌, refl, ◌⊎◌, ◌∙◌, ◌∷◌, inl, inr, true, false, some, List, [], All, arith, subst,
  sym, ap,
}
use picocash.Result.{Result}
use picocash.Table.{find, update-Distinct, find-update_self}
use picocash.Mint.Data.{
  Crypto, Keyset, VerifiedInput, MeltQuote, MeltState, SpentSecret, Db, Failure,
}
use picocash.Mint.Signing.Spending.{
  IsSpent, with_rows, sum_by-with_rows, with_rows-Distinct, AllSpent-with_rows, spent_row,
}
use picocash.Mint.Solvency.{issued, spent}
use picocash.Mint.Invariant.{IsSolvent, IsCapped, minted, melted, melted-update}
use picocash.Mint.Melt.{
  MeltRequest, Executor, is_unpaid, inputs_hash, matches, marked_pending, pay_out, melt_with,
}
use picocash.Mint.Melt.Outcome.{
  Consumes, Checked, refused, replays, retries, consumes, prepare-cases,
}
use picocash.Mint.Melt.Payout.{
  recovers, pays, fails, pay_out-cases, pay_out-IsSolvent, pay_out-keeps, pay_out-recovers,
}

module _ (c : Crypto) (keyset : Keyset) where
  -- Consuming adds the payout and the fee to what was spent.
  pub Consumes-moves :
      (now : ℕ) (body : MeltRequest) (melt : MeltQuote) (hash : Text) (inputs : List VerifiedInput)
      (db db' : Db)
      → Checked c keyset now body melt inputs
      → Consumes melt hash inputs db db'
      → (spent keyset.id db' ≡ spent keyset.id db + (melt.amount + melt.fee))
        × (issued keyset.id db' ≡ issued keyset.id db)
  unfolding issued spent
  Consumes-moves now body melt hash inputs db db' checked s =
      subst
        (λ (d : Db).
          (spent keyset.id d ≡ spent keyset.id db + (melt.amount + melt.fee))
          × (issued keyset.id d ≡ issued keyset.id db))
        s.after
        (
          omega (
            arith,
            checked.total,
            checked.verified.counted,
            sum_by-with_rows keyset.id inputs db.spent_secrets,
          ),
          refl,
        )

  Consumes-IsSolvent :
      (now : ℕ) (body : MeltRequest) (melt : MeltQuote) (hash : Text) (inputs : List VerifiedInput)
      (db db' : Db)
      → Checked c keyset now body melt inputs
      → find MeltQuote.id melt.id db.melt_quotes ≡ some melt
      → Consumes melt hash inputs db db'
      → IsSolvent keyset db
      → IsSolvent keyset db'
  unfolding minted melted
  Consumes-IsSolvent now body melt hash inputs db db' checked stored s v =
      let unpaid : melt.state ≡ MeltState.unpaid = ground (arith, s.stored, s.unpaid, stored) in
      let moves = rw (← s.after) at (Consumes-moves now body melt hash inputs db db' checked s) in
      subst (IsSolvent keyset) s.after (record {
        quotes = v.quotes;
        spent_once = with_rows-Distinct inputs db.spent_secrets s.unspent v.spent_once;
        melts =
            update-Distinct MeltQuote.id melt.id (marked_pending hash) db.melt_quotes (λ r. refl)
              v.melts;
        signed_once = v.signed_once;
        balanced = ground (
          arith,
          unpaid,
          moves,
          v.balanced,
          melted-update melt.id (marked_pending hash) melt db v.melts stored,
        );
      })

  -- The row of a melt whose proofs were just consumed.
  Consumes-stored :
      (melt : MeltQuote) (hash : Text) (inputs : List VerifiedInput) (db db' : Db)
      → find MeltQuote.id melt.id db.melt_quotes ≡ some melt
      → Consumes melt hash inputs db db'
      → find MeltQuote.id melt.id db'.melt_quotes ≡ some (marked_pending hash melt)
  Consumes-stored melt hash inputs db db' stored s =
      subst (λ (d : Db). find MeltQuote.id melt.id d.melt_quotes ≡ some (marked_pending hash melt))
        s.after
        (find-update_self MeltQuote.id melt.id (marked_pending hash) melt db.melt_quotes (λ r. refl)
          stored)

module _ {S : Type 0} (executor : Executor S) (c : Crypto) (keyset : Keyset) (now : ℕ)
    (body : MeltRequest) (db : Db) (s : S) where
  -- Whatever its outcome, a request to melt keeps the books of the mint.
  pub melt_with-IsSolvent :
      IsSolvent keyset db → IsSolvent keyset (melt_with executor c keyset now body db s).1
  unfolding melt_with
  melt_with-IsSolvent v = elim (prepare-cases c keyset now body db) [
    | refused e p ↦ rw p v
    | replays melt p _ ↦ rw p v
    | retries melt inputs p checked stored settled _ ↦
        rw p (pay_out-IsSolvent executor keyset melt melt db s stored (ground (arith, settled)) v)
    | consumes melt inputs db' p checked stored t ↦ rw p (
        pay_out-IsSolvent executor keyset melt (marked_pending (inputs_hash c inputs) melt) db' s
          (Consumes-stored c keyset melt (inputs_hash c inputs) inputs db db' stored t) refl
          (Consumes-IsSolvent c keyset now body melt (inputs_hash c inputs) inputs db db' checked
            stored t v))
  ]

  -- Nor does it take the outstanding supply over the cap.
  pub melt_with-IsCapped :
      (cap : ℕ)
      → IsCapped cap keyset db
      → IsCapped cap keyset (melt_with executor c keyset now body db s).1
  unfolding melt_with issued spent
  melt_with-IsCapped cap v = elim (prepare-cases c keyset now body db) [
    | refused e p ↦ rw p v
    | replays melt p _ ↦ rw p v
    | retries melt inputs p checked stored settled _ ↦
        let (same, kept, _) = pay_out-keeps executor melt db s in
        rw p (record { within = λ w. rw (same, kept) (v.within w) })
    | consumes melt inputs db' p checked stored t ↦
        let (same, kept, _) = pay_out-keeps executor melt db' s in
        let moves =
          Consumes-moves c keyset now body melt (inputs_hash c inputs) inputs db db' checked t in
        rw p (record { within = λ w. rw (same, kept) (omega (arith, v.within w, moves)) })
  ]

  -- What stands behind the one call of the executor.
  pub record PaidFor (melt : MeltQuote) (inputs : List VerifiedInput)
      (r : Result Failure MeltQuote × Db × S) : Type 0 where
    pub checked : Checked c keyset now body melt inputs
    pub covered :
        All (λ v. IsSpent v.y r.1) inputs ⊎ (matches melt.inputs_hash (inputs_hash c inputs) ≡ true)
    pub called : r.2 ≡ (executor.execute melt.to_address melt.amount melt.id s).1

  All-IsSpent :
      (inputs : List VerifiedInput) (ledger : List SpentSecret) (d : Db)
      → d.spent_secrets ≡ ledger
      → All (λ v. find SpentSecret.y v.y ledger ≡ some (spent_row v)) inputs
      → All (λ v. IsSpent v.y d) inputs
  All-IsSpent [] ledger d e h = tt
  All-IsSpent (v ∷ vs) ledger d e h = ((spent_row v, rw e h.0), All-IsSpent vs ledger d e h.1)

  pay_out-called :
      (melt : MeltQuote) (d : Db)
      → ((pay_out executor melt d s).2 ≡ s)
        ⊎ ((pay_out executor melt d s).2
            ≡ (executor.execute melt.to_address melt.amount melt.id s).1)
  pay_out-called melt d = elim (pay_out-cases executor melt d s) [
    | recovers _ _ e ↦ inl (rw e)
    | pays hash s' called e ↦ inr (rw (e, called))
    | fails s' called e ↦ inr (rw (e, called))
  ]

  -- A request leaves the chain as it was, or the executor is called once, for a melt whose stored
  -- amount and fee the verified inputs total: these are all recorded as spent afterwards, or their
  -- hash is the one recorded with the melt.
  pub melt_with-PaidFor :
      ((melt_with executor c keyset now body db s).2 ≡ s)
      ⊎ ((melt : MeltQuote) × (inputs : List VerifiedInput) × PaidFor melt inputs
            (melt_with executor c keyset now body db s))
  unfolding melt_with
  melt_with-PaidFor = elim (prepare-cases c keyset now body db) [
    | refused e p ↦ inl (rw p)
    | replays melt p _ ↦ inl (rw p)
    | retries melt inputs p checked stored settled same ↦ rw p (elim (pay_out-called melt db) [
      | inl idle ↦ inl idle
      | inr called ↦
          inr (melt, inputs, record { checked = checked; covered = inr same; called = called })
    ])
    | consumes melt inputs db' p checked stored t ↦ rw p (elim (pay_out-called melt db') [
      | inl idle ↦ inl idle
      | inr called ↦ inr (
        melt,
        inputs,
        record {
          checked = checked;
          covered = inl (
              All-IsSpent inputs (with_rows inputs db.spent_secrets) (pay_out executor melt db' s).1
                ((pay_out-keeps executor melt db' s).0 ∙ sym (ap Db.spent_secrets t.after))
                (AllSpent-with_rows inputs db.spent_secrets t.unspent));
          called = called;
        },
      )
    ])
  ]

  -- A melt that is marked paid, or that the chain reports as paid once its proofs are consumed, is
  -- not paid again.
  pub melt_with-paid_once :
      (stored : MeltQuote)
      → find MeltQuote.id body.melt_id db.melt_quotes ≡ some stored
      → (stored.state ≡ MeltState.paid)
        ⊎ ((is_unpaid stored.state ≡ false) × (executor.is_paid body.melt_id s ≡ some true))
      → (melt_with executor c keyset now body db s).2 ≡ s
  unfolding melt_with
  melt_with-paid_once stored h known = elim (prepare-cases c keyset now body db) [
    | refused e p ↦ rw p
    | replays melt p _ ↦ rw p
    | retries melt inputs p checked found settled _ ↦
        let same : stored ≡ melt = cc (h, found, checked.named) in
        rw p (elim known [
          | inl paid ↦ absurd (ground (arith, paid, settled, same))
          | inr (_, seen) ↦
              pay_out-recovers executor melt db s (ground (arith, settled)) (rw checked.named seen)
        ])
    | consumes melt inputs db' p checked found t ↦
        let same : stored ≡ melt = cc (h, found, checked.named) in
        absurd (ground (arith, known, same, found, t.stored, t.unpaid))
  ]
