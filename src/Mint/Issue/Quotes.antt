-- ===== src/Mint/Issue/Quotes.antt =====
-- Requests for quotes in routes/mint.ts and routes/melt.ts write one unpaid row, or nothing.
use picocash.Prelude.{
  ℕ, ◌+◌, Text, ◌≡◌, refl, ◌⊎◌, inl, inr, Bool-cases, Option-cases, none, ◌∷◌, arith, ◌==◌, subst,
  sym,
}
use picocash.Table.{find, insert, insert-eq-some, find-key}
use picocash.Mint.Data.{Keyset, MintQuote, QuoteState, Db}
use picocash.Mint.Solvency.{issued, spent}
use picocash.Mint.Invariant.{IsSolvent, IsCapped, minted, melted}
use picocash.Mint.Attribution.{IsAttributed, IsAttributed-insert}
use picocash.Mint.Issue.{
  Config, Oracle, QuoteRequest, fetch_quote, insert_quote, request_quote, get_quote,
}
use picocash.Mint.Issue.Polling.{poll_deposit-Polled}

-- A handler that leaves both ledgers alone and keeps the books.
pub record Keeps (keyset : Keyset) (db db' : Db) : Type 0 where
  pub solvent : IsSolvent keyset db → IsSolvent keyset db'
  pub issued_kept : issued keyset.id db' ≡ issued keyset.id db
  pub spent_kept : spent keyset.id db' ≡ spent keyset.id db
  pub attributed : IsAttributed db → IsAttributed db'

pub Keeps-refl : (keyset : Keyset) (db : Db) → Keeps keyset db db
Keeps-refl keyset db = record {
  solvent = λ v. v;
  issued_kept = refl;
  spent_kept = refl;
  attributed = λ v. v;
}

pub Keeps-IsCapped :
    (cap : ℕ) (keyset : Keyset) (db db' : Db)
    → Keeps keyset db db'
    → IsCapped cap keyset db
    → IsCapped cap keyset db'
Keeps-IsCapped cap keyset db db' k v = record {
  within = λ w. omega (arith, v.within w, k.issued_kept, k.spent_kept);
}

insert_quote-Keeps :
    (keyset : Keyset) (quote : MintQuote) (db : Db)
    → quote.state ≡ QuoteState.unpaid
    → Keeps keyset db (insert_quote quote db).1
unfolding insert_quote issued spent minted melted
insert_quote-Keeps keyset quote db unpaid = elim (Bool-cases (quote.amount == 0)) [
  | inl zero_amount ↦ subst (Keeps keyset db) (ground arith) (Keeps-refl keyset db)
  | inr positive ↦ elim (Option-cases (insert MintQuote.id quote db.mint_quotes)) [
    | inl taken ↦ subst (Keeps keyset db) (ground arith) (Keeps-refl keyset db)
    | inr (rows, e) ↦
        let (grown, free) = insert-eq-some MintQuote.id quote db.mint_quotes e in
        subst (Keeps keyset db) {x = record db { mint_quotes = quote ∷ db.mint_quotes }}
          (ground (arith, grown))
          (record {
            solvent = λ v. record {
              quotes = (free, v.quotes);
              spent_once = v.spent_once;
              melts = v.melts;
              signed_once = v.signed_once;
              balanced = ground (arith, unpaid, v.balanced);
            };
            issued_kept = refl;
            spent_kept = refl;
            attributed = IsAttributed-insert quote db (ground (arith, unpaid)) free;
          })
  ]
]

abbrev new_quote : Config → Oracle → Text → QuoteRequest → MintQuote
new_quote config oracle id body = record {
  id = id;
  amount = body.amount;
  unit = body.unit;
  state = QuoteState.unpaid;
  deposit_ref = none;
  expires_at = oracle.now + config.quote_ttl_seconds;
}

request_quote-cases :
    (config : Config) (keyset : Keyset) (oracle : Oracle) (id : Text) (body : QuoteRequest)
    (db : Db)
    → ((request_quote config keyset oracle id body db).1 ≡ db)
      ⊎ ((request_quote config keyset oracle id body db).1
          ≡ (insert_quote (new_quote config oracle id body) db).1)
unfolding request_quote fetch_quote
request_quote-cases config keyset oracle id body db = ground arith

pub request_quote-Keeps :
    (config : Config) (keyset : Keyset) (oracle : Oracle) (id : Text) (body : QuoteRequest)
    (db : Db)
    → Keeps keyset db (request_quote config keyset oracle id body db).1
request_quote-Keeps config keyset oracle id body db =
    elim (request_quote-cases config keyset oracle id body db) [
      | inl same ↦ subst (Keeps keyset db) (sym same) (Keeps-refl keyset db)
      | inr written ↦
          subst (Keeps keyset db) (sym written)
            (insert_quote-Keeps keyset (new_quote config oracle id body) db refl)
    ]

pub get_quote-Keeps :
    (keyset : Keyset) (oracle : Oracle) (id : Text) (db : Db)
    → Keeps keyset db (get_quote oracle id db).1
unfolding get_quote fetch_quote
get_quote-Keeps keyset oracle id db = elim (Option-cases (find MintQuote.id id db.mint_quotes)) [
  | inl missing ↦ subst (Keeps keyset db) (ground arith) (Keeps-refl keyset db)
  | inr (quote, e) ↦
      let (q, d, polled, p) =
        poll_deposit-Polled keyset oracle quote db
          (find-key MintQuote.id id quote db.mint_quotes e) in
      subst (Keeps keyset db) (ground arith) (
        let kept : Keeps keyset db d = record {
          solvent = p.solvent;
          issued_kept = p.issued_kept;
          spent_kept = p.spent_kept;
          attributed = p.attributed;
        } in
        kept)
]
