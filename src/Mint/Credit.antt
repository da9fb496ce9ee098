-- ===== src/Mint/Credit.antt =====
-- packages/mint/src/vault-credit.ts: closed-loop credit. The body is as its schema lets it through, and
-- the table of issuances has two keys, the reference and the quote.
pub mod Idempotent
mod Tests
use picocash.Prelude.{
  ℕ, Text, Bool, true, false, not, Option, none, some, List, [], ◌∷◌, sum_by, ◌==◌, ◌&&◌, ◌||◌, ltb,
  if◌then◌else◌,
}
use picocash.Result.{Result, ok, err}
use picocash.Table.{find}
use picocash.Mint.Data.{
  Failure, api_error, unauthorized, ref_already_issued, quote_not_found, quote_not_open,
  quote_already_funded, MintQuote,
}
use picocash.Mint.Issue.{Deposit, is_unpaid}

pub record CreditIssuance : Type 0 where
  pub ref : Text
  pub quote_id : Text
  pub amount : ℕ

pub record IssueBody : Type 0 where
  pub quote_id : Text
  pub ref : Text

pub record Issued : Type 0 where
  pub quote_id : Text
  pub ref : Text
  pub amount : ℕ
  pub replay : Bool

-- `credit:${ref}` for a reference.
unfoldable pub get_deposit : (Text → Text) → Text → List CreditIssuance → Option Deposit
get_deposit credit_ref quote_id rows = elim (find CreditIssuance.quote_id quote_id rows) [
  | none ↦ none
  | some row ↦ some (record { amount = row.amount; tx_ref = credit_ref row.ref })
]

unfoldable pub total_issued : List CreditIssuance → ℕ
total_issued rows = sum_by CreditIssuance.amount rows

abbrev pub has_row {ℓ} : {A : Type ℓ} → Option A → Bool
has_row none = false
has_row (some row) = true

-- `INSERT INTO credit_issuances …`; `none` where a key is taken or the amount is not positive.
unfoldable pub insert_issuance : CreditIssuance → List CreditIssuance → Option (List CreditIssuance)
insert_issuance row rows =
    if has_row (find CreditIssuance.ref row.ref rows)
      || has_row (find CreditIssuance.quote_id row.quote_id rows)
      || row.amount == 0
    then none
    else some (row ∷ rows)

abbrev pub is_open : MintQuote → ℕ → Bool
is_open quote now = is_unpaid quote.state && not (ltb quote.expires_at now)

unfoldable pub fund_quote :
    ℕ
    → IssueBody
    → Option MintQuote
    → List CreditIssuance
    → Result Failure Issued × List CreditIssuance
fund_quote now body none rows = (err (api_error 404 quote_not_found), rows)
fund_quote now body (some quote) rows =
    if is_open quote now
    then elim (insert_issuance
        (record { ref = body.ref; quote_id = body.quote_id; amount = quote.amount }) rows) [
          | none ↦ (err (api_error 409 quote_already_funded), rows)
          | some rows' ↦ (
            ok (record {
              quote_id = body.quote_id;
              ref = body.ref;
              amount = quote.amount;
              replay = false;
            }),
            rows',
          )
        ]
    else (err (api_error 409 quote_not_open), rows)

-- POST /v1/credit/issue, with whether the bearer token is the issuer's.
unfoldable pub issue_credit :
    Bool
    → ℕ
    → IssueBody
    → List MintQuote
    → List CreditIssuance
    → Result Failure Issued × List CreditIssuance
issue_credit authorized now body quotes rows =
    if not authorized
    then (err (api_error 401 unauthorized), rows)
    else elim (find CreditIssuance.ref body.ref rows) [
      | some row ↦
          if row.quote_id == body.quote_id
          then (
            ok (record {
              quote_id = body.quote_id;
              ref = body.ref;
              amount = row.amount;
              replay = true;
            }),
            rows,
          )
          else (err (api_error 409 ref_already_issued), rows)
      | none ↦ fund_quote now body (find MintQuote.id body.quote_id quotes) rows
    ]

-- A request with what it finds.
pub record CreditRequest : Type 0 where
  pub authorized : Bool
  pub now : ℕ
  pub body : IssueBody
  pub quotes : List MintQuote

unfoldable pub serve_credit : List CreditRequest → List CreditIssuance → List CreditIssuance
serve_credit [] rows = rows
serve_credit (r ∷ rs) rows =
    serve_credit rs (issue_credit r.authorized r.now r.body r.quotes rows).1
