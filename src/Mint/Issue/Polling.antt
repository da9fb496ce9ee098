-- ===== src/Mint/Issue/Polling.antt =====
-- The deposit check of routes/mint.ts: a quote turns PAID on a covering deposit, and on nothing else.
use picocash.Prelude.{
  ◌≤◌, Text, ◌≡◌, refl, ◌⊎◌, inl, inr, Bool-cases, leb, leb→le, Option-cases, some, arith,
}
use picocash.Result.{ok}
use picocash.Table.{find, find-update_self, update-Distinct}
use picocash.Mint.Data.{Keyset, MintQuote, QuoteState, Db}
use picocash.Mint.Solvency.{issued, spent}
use picocash.Mint.Invariant.{IsSolvent, minted-update, melted}
use picocash.Mint.Attribution.{IsAttributed, IsAttributed-update}
use picocash.Mint.Issue.{Oracle, Deposit, is_unpaid, marked_paid, update_quote, poll_deposit}

pub id-marked_paid : (ref : Text) (q : MintQuote) → (marked_paid ref q).id ≡ q.id
id-marked_paid ref q = ground arith

-- A deposit for the quote, of its amount at least.
pub record Covers (oracle : Oracle) (quote : MintQuote) (ref : Text) : Type 0 where
  pub deposit : Deposit
  pub seen : oracle.get_deposit quote.id ≡ some deposit
  pub enough : quote.amount ≤ deposit.amount
  pub named : deposit.tx_ref ≡ ref

-- Either nothing changes, or an unpaid quote is covered by a deposit and is marked so.
pub poll_deposit-cases :
    (oracle : Oracle) (quote : MintQuote) (db : Db)
    → (poll_deposit oracle quote db ≡ (ok quote, db))
      ⊎ ((ref : Text) × Covers oracle quote ref
          × (quote.state ≡ QuoteState.unpaid)
          × (poll_deposit oracle quote db
              ≡ (ok (marked_paid ref quote), update_quote quote.id (marked_paid ref) db)))
unfolding poll_deposit
poll_deposit-cases oracle quote db = elim (Option-cases (oracle.get_deposit quote.id)) [
  | inl e ↦ inl (ground arith)
  | inr (deposit, e) ↦ elim (Bool-cases (is_unpaid quote.state)) [
    | inr settled ↦ inl (ground arith)
    | inl open_quote ↦ elim (Bool-cases (leb quote.amount deposit.amount)) [
      | inr short ↦ inl (ground arith)
      | inl enough ↦ inr (
        deposit.tx_ref,
        record { deposit = deposit; seen = e; enough = leb→le _ _ enough; named = refl },
        ground arith,
        ground arith,
      )
    ]
  ]
]

-- What polling a stored quote leaves to its caller.
pub record Polled (keyset : Keyset) (quote : MintQuote) (db : Db) (q : MintQuote) (d : Db)
    : Type 0 where
  pub same_id : q.id ≡ quote.id
  pub same_amount : q.amount ≡ quote.amount
  pub stored : find MintQuote.id q.id d.mint_quotes ≡ some q
  pub solvent : IsSolvent keyset db → IsSolvent keyset d
  pub issued_kept : issued keyset.id d ≡ issued keyset.id db
  pub spent_kept : spent keyset.id d ≡ spent keyset.id db
  pub signatures_kept : d.blind_signatures ≡ db.blind_signatures
  pub attributed : IsAttributed db → IsAttributed d

marked_paid-IsSolvent :
    (keyset : Keyset) (ref : Text) (quote : MintQuote) (db : Db)
    → find MintQuote.id quote.id db.mint_quotes ≡ some quote
    → IsSolvent keyset db
    → IsSolvent keyset (update_quote quote.id (marked_paid ref) db)
unfolding issued spent melted
marked_paid-IsSolvent keyset ref quote db h v = record {
  quotes =
      update-Distinct MintQuote.id quote.id (marked_paid ref) db.mint_quotes (id-marked_paid ref)
        v.quotes;
  spent_once = v.spent_once;
  melts = v.melts;
  signed_once = v.signed_once;
  balanced =
      ground (arith, minted-update quote.id (marked_paid ref) quote db v.quotes h, v.balanced);
}

pub poll_deposit-Polled :
    (keyset : Keyset) (oracle : Oracle) (quote : MintQuote) (db : Db)
    → find MintQuote.id quote.id db.mint_quotes ≡ some quote
    → (q : MintQuote) × (d : Db) × (poll_deposit oracle quote db ≡ (ok q, d))
      × Polled keyset quote db q d
unfolding issued spent
poll_deposit-Polled keyset oracle quote db h = elim (poll_deposit-cases oracle quote db) [
  | inl e ↦ (
    quote,
    db,
    e,
    record {
      same_id = refl;
      same_amount = refl;
      stored = h;
      solvent = λ v. v;
      attributed = λ v. v;
      issued_kept = refl;
      spent_kept = refl;
      signatures_kept = refl;
    },
  )
  | inr (ref, covers, unpaid, e) ↦ (
    marked_paid ref quote,
    update_quote quote.id (marked_paid ref) db,
    e,
    record {
      same_id = id-marked_paid ref quote;
      same_amount = ground arith;
      stored = rw id-marked_paid (
          find-update_self MintQuote.id quote.id (marked_paid ref) quote db.mint_quotes
            (id-marked_paid ref) h);
      solvent = marked_paid-IsSolvent keyset ref quote db h;
      attributed =
          IsAttributed-update quote.id (marked_paid ref) quote db (id-marked_paid ref) h
            (ground (arith, unpaid));
      issued_kept = refl;
      spent_kept = refl;
      signatures_kept = refl;
    },
  )
]
