-- ===== src/Mint/Melt/Payout.antt =====
-- The payout of routes/melt.ts: paid, recovered from the chain, or owed; and nothing else.
use picocash.Prelude.{
  Text, ◌≡◌, refl, inl, inr, Bool-cases, Option-cases, true, false, none, some, arith,
}
use picocash.Result.{Result, err}
use picocash.Table.{find, update-Distinct}
use picocash.Mint.Data.{Keyset, MeltQuote, Db, Failure, api_error, payout_failed}
use picocash.Mint.Solvency.{issued, spent}
use picocash.Mint.Invariant.{IsSolvent, minted, melted_amount, melted-update}
use picocash.Mint.Melt.{
  Executor, is_unpaid, update_melt, marked_recovered, marked_paid, marked_owed, fetch_melt,
  recovered, pay_out,
}

-- A change of one row that keeps its key and what it counts for keeps the books.
update_melt-IsSolvent :
    (keyset : Keyset) (id : Text) (f : MeltQuote → MeltQuote) (row : MeltQuote) (db : Db)
    → ((r : MeltQuote) → (f r).id ≡ r.id)
    → find MeltQuote.id id db.melt_quotes ≡ some row
    → melted_amount (f row) ≡ melted_amount row
    → IsSolvent keyset db
    → IsSolvent keyset (update_melt id f db)
unfolding issued spent minted
update_melt-IsSolvent keyset id f row db hf stored same v = record {
  quotes = v.quotes;
  spent_once = v.spent_once;
  melts = update-Distinct MeltQuote.id id f db.melt_quotes hf v.melts;
  signed_once = v.signed_once;
  balanced = omega (arith, melted-update id f row db v.melts stored, same, v.balanced);
}

module _ {S : Type 0} (executor : Executor S) where
  -- How a payout can end.
  pub data PayoutCases (melt : MeltQuote) (db : Db) (s : S) (r : Result Failure MeltQuote × Db × S)
      : Type 0 where
    recovers :
        is_unpaid melt.state ≡ false
        → executor.is_paid melt.id s ≡ some true
        → r ≡ (
            let (a, db') = fetch_melt melt.id (update_melt melt.id marked_recovered db) in
            (a, db', s))
        → PayoutCases melt db s r
    pays :
        (hash : Text) (s' : S)
        → executor.execute melt.to_address melt.amount melt.id s ≡ (some hash, s')
        → r ≡ (
            let (a, db') = fetch_melt melt.id (update_melt melt.id (marked_paid hash) db) in
            (a, db', s'))
        → PayoutCases melt db s r
    fails :
        (s' : S)
        → executor.execute melt.to_address melt.amount melt.id s ≡ (none, s')
        → r ≡ (err (api_error 502 payout_failed), update_melt melt.id marked_owed db, s')
        → PayoutCases melt db s r

  recovered-true :
      (melt : MeltQuote) (s : S)
      → recovered executor melt s ≡ true
      → (is_unpaid melt.state ≡ false) × (executor.is_paid melt.id s ≡ some true)
  unfolding recovered
  recovered-true melt s h = elim (Option-cases (executor.is_paid melt.id s)) [
    | inl e ↦ ground arith
    | inr (paid, e) ↦ ground arith
  ]

  pub pay_out-cases :
      (melt : MeltQuote) (db : Db) (s : S) → PayoutCases melt db s (pay_out executor melt db s)
  unfolding pay_out
  pay_out-cases melt db s = elim (Bool-cases (recovered executor melt s)) [
    | inl landed ↦
        let (settled, seen) = recovered-true melt s landed in recovers settled seen (ground arith)
    | inr fresh ↦ elim (Option-cases (executor.execute melt.to_address melt.amount melt.id s).0) [
      | inl failed ↦
          fails (executor.execute melt.to_address melt.amount melt.id s).1 (ground arith)
            (ground arith)
      | inr (hash, landed) ↦
          pays hash (executor.execute melt.to_address melt.amount melt.id s).1 (ground arith)
            (ground arith)
    ]
  ]

  -- The payout of a melt whose proofs are consumed keeps the books, landed or not.
  pub pay_out-IsSolvent :
      (keyset : Keyset) (melt row : MeltQuote) (db : Db) (s : S)
      → find MeltQuote.id melt.id db.melt_quotes ≡ some row
      → is_unpaid row.state ≡ false
      → IsSolvent keyset db
      → IsSolvent keyset (pay_out executor melt db s).1
  unfolding fetch_melt
  pay_out-IsSolvent keyset melt row db s stored settled v = elim (pay_out-cases melt db s) [
    | recovers _ _ e ↦ rw e (
        update_melt-IsSolvent keyset melt.id marked_recovered row db (λ r. refl) stored
          (ground arith) v)
    | pays hash _ _ e ↦ rw e (
        update_melt-IsSolvent keyset melt.id (marked_paid hash) row db (λ r. refl) stored
          (ground arith) v)
    | fails _ _ e ↦ rw e (
        update_melt-IsSolvent keyset melt.id marked_owed row db (λ r. refl) stored (ground arith) v)
  ]

  -- The ledgers of signatures and of spent secrets are as they were.
  pub pay_out-keeps :
      (melt : MeltQuote) (db : Db) (s : S)
      → ((pay_out executor melt db s).1.spent_secrets ≡ db.spent_secrets)
        × ((pay_out executor melt db s).1.blind_signatures ≡ db.blind_signatures)
        × ((pay_out executor melt db s).1.mint_quotes ≡ db.mint_quotes)
  unfolding fetch_melt
  pay_out-keeps melt db s = elim (pay_out-cases melt db s) [
    | recovers _ _ e ↦ rw e (refl, refl, refl)
    | pays hash _ _ e ↦ rw e (refl, refl, refl)
    | fails _ _ e ↦ rw e (refl, refl, refl)
  ]

  -- A payout that the chain already reports is not made again.
  pub pay_out-recovers :
      (melt : MeltQuote) (db : Db) (s : S)
      → is_unpaid melt.state ≡ false
      → executor.is_paid melt.id s ≡ some true
      → (pay_out executor melt db s).2 ≡ s
  unfolding pay_out recovered
  pay_out-recovers melt db s settled seen = ground arith
