-- ===== src/Mint/Swap/Safety.antt =====
-- A swap keeps the books, moves no value, and spends each token once.
use picocash.Prelude.{
  ℕ, ◌+◌, Text, ◌≡◌, inl, inr, true, contains, map, some, none, List, [], arith, subst,
}
use picocash.Result.{err}
use picocash.Table.{find}
use picocash.Mint.Data.{Crypto, Keyset, SignatureResponse, SpentSecret, Db, Failure}
use picocash.Mint.Signing.{sum_outputs}
use picocash.Mint.Signing.Inputs.{keys-AreVerified}
use picocash.Mint.Signing.Spending.{sum_by-with_rows, with_rows-Distinct, NoneSpent-spent}
use picocash.Mint.Signing.Signatures.{sum_by-with_signatures, with_signatures-Distinct}
use picocash.Mint.Solvency.{issued, spent, compute_outstanding}
use picocash.Mint.Invariant.{IsSolvent, IsCapped, minted, melted}
use picocash.Mint.Swap.{SwapRequest, swap}
use picocash.Mint.Swap.Outcome.{Swapped, swap-cases}

module _ (c : Crypto) (keyset : Keyset) (now : ℕ) (body : SwapRequest) (db : Db) where
  -- The same amount is added to what the keyset issued and to what it saw spent.
  pub Swapped-moves :
      (r : List SignatureResponse × Db)
      → Swapped c keyset now body db r
      → (issued keyset.id r.1 ≡ issued keyset.id db + sum_outputs body.outputs)
        × (spent keyset.id r.1 ≡ spent keyset.id db + sum_outputs body.outputs)
  unfolding issued spent
  Swapped-moves r s =
      let records = s.exchanged.signed in
      subst
        (λ (d : Db).
          (issued keyset.id d ≡ issued keyset.id db + sum_outputs body.outputs)
          × (spent keyset.id d ≡ spent keyset.id db + sum_outputs body.outputs))
        records.recorded
        (
          omega (
            arith,
            s.valid.counted,
            sum_by-with_signatures c keyset keyset.id body.outputs r.0 none db.blind_signatures
                records.signed,
          ),
          omega (
            arith,
            s.verified.counted,
            s.conserved,
            sum_by-with_rows keyset.id s.inputs db.spent_secrets,
          ),
        )

  Swapped-IsSolvent :
      (r : List SignatureResponse × Db)
      → Swapped c keyset now body db r
      → IsSolvent keyset db
      → IsSolvent keyset r.1
  unfolding minted melted
  Swapped-IsSolvent r s v =
      let records = s.exchanged.signed in
      let moves = rw (← records.recorded) at (Swapped-moves r s) in
      subst (IsSolvent keyset) records.recorded (record {
        quotes = v.quotes;
        spent_once = with_rows-Distinct s.inputs db.spent_secrets s.exchanged.unspent v.spent_once;
        melts = v.melts;
        signed_once =
            with_signatures-Distinct body.outputs r.0 none db.blind_signatures records.unsigned
              v.signed_once;
        balanced = omega (arith, moves.0, moves.1, v.balanced);
      })

  -- Whether it succeeds or fails, a swap keeps the books of the mint.
  pub swap-IsSolvent : IsSolvent keyset db → IsSolvent keyset (swap c keyset now body db).1
  swap-IsSolvent v = elim (swap-cases c keyset now body db) [
    | inl (e, p) ↦ rw p v
    | inr (signatures, db', p, s) ↦ rw p (Swapped-IsSolvent (signatures, db') s v)
  ]

  -- A swap leaves the outstanding supply as it was.
  pub outstanding-swap :
      compute_outstanding (swap c keyset now body db).1 keyset.id ≡ compute_outstanding db keyset.id
  unfolding compute_outstanding
  outstanding-swap = elim (swap-cases c keyset now body db) [
    | inl (e, p) ↦ rw p
    | inr (signatures, db', p, s) ↦ rw p (
        ground
          (arith, (Swapped-moves (signatures, db') s).0, (Swapped-moves (signatures, db') s).1))
  ]

  -- So it stays within any cap that it was within.
  pub swap-IsCapped :
      (cap : ℕ) → IsCapped cap keyset db → IsCapped cap keyset (swap c keyset now body db).1
  swap-IsCapped cap v = elim (swap-cases c keyset now body db) [
    | inl (e, p) ↦ rw p v
    | inr (signatures, db', p, s) ↦
        rw p (record { within = λ w. omega (arith, v.within w, Swapped-moves (signatures, db') s) })
  ]

  -- A key that was spent before cannot be swapped again: the request fails and writes nothing.
  pub swap-double_spend :
      (y : Text) (row : SpentSecret)
      → find SpentSecret.y y db.spent_secrets ≡ some row
      → contains y (map (λ p. c.hash_to_curve p.secret) body.inputs) ≡ true
      → (e : Failure) × (swap c keyset now body db ≡ (err e, db))
  swap-double_spend y row h m = elim (swap-cases c keyset now body db) [
    | inl failed ↦ failed
    | inr (signatures, db', p, s) ↦ absurd (
        NoneSpent-spent y row s.inputs db.spent_secrets
          (rw (keys-AreVerified c keyset now [] body.inputs s.inputs s.verified) m)
          s.exchanged.unspent h)
  ]
