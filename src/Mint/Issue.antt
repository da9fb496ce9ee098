-- ===== src/Mint/Issue.antt =====
-- routes/mint.ts: quotes for deposits, and the tokens issued for a paid quote.
pub mod Polling
pub mod Outcome
pub mod Safety
pub mod Quotes
pub mod Replay
mod Tests
use picocash.Prelude.{
  ℕ, ◌+◌, Text, Bool, true, false, not, Option, none, some, List, ◌==◌, ◌&&◌, ltb, leb,
  if◌then◌else◌,
}
use picocash.Prelude.Int.{pos, ◌+ℤ◌, ltb_ℤ}
use picocash.Result
use picocash.Result.{Result, ok, err, ensure}
use picocash.Table.{find, update, insert}
use picocash.Mint.Data.{
  Crypto, Keyset, BlindedMessage, SignatureResponse, MintQuote, QuoteState, Db, Tx, Action, Failure,
  api_error, internal, quote_not_found, quote_already_issued, quote_expired, payment_required,
  amount_mismatch, amount_limit, invalid_request, attestation_overdue, transact, or_throw, lift,
  ◌>>=◌, ◌>>◌,
}
use picocash.Mint.Signing.{sum_outputs, validate_outputs, sign_all, load_issued_signatures}
use picocash.Mint.Solvency.{compute_outstanding, compute_reserved}

pub record Deposit : Type 0 where
  pub amount : ℕ
  pub tx_ref : Text

-- The settings of config.ts that the handlers read.
pub record Config : Type 0 where
  pub unit : Text
  pub max_mint_amount : ℕ
  pub max_outstanding : ℕ
  pub melt_fee : ℕ
  pub quote_ttl_seconds : ℕ

-- What a request sees of the deposit oracle and of the clock.
pub record Oracle : Type 0 where
  pub get_deposit : Text → Option Deposit
  pub is_publication_overdue : Bool
  pub now : ℕ

pub record QuoteRequest : Type 0 where
  pub amount : ℕ
  pub unit : Text

pub record MintRequest : Type 0 where
  pub quote_id : Text
  pub outputs : List BlindedMessage

abbrev pub is_unpaid : QuoteState → Bool
is_unpaid QuoteState.unpaid = true
is_unpaid _ = false

abbrev pub is_paid : QuoteState → Bool
is_paid QuoteState.paid = true
is_paid _ = false

abbrev pub is_issued : QuoteState → Bool
is_issued QuoteState.issued = true
is_issued _ = false

unfoldable pub fetch_quote : Text → Action MintQuote
fetch_quote id db =
    (or_throw (api_error 404 quote_not_found) (find MintQuote.id id db.mint_quotes), db)

-- `SET state = 'PAID', deposit_ref = $2 WHERE … AND state = 'UNPAID'`
abbrev pub marked_paid : Text → MintQuote → MintQuote
marked_paid ref quote =
    if is_unpaid quote.state
    then record quote { state = QuoteState.paid; deposit_ref = some ref }
    else quote

abbrev pub marked_issued : MintQuote → MintQuote
marked_issued quote = record quote { state = QuoteState.issued }

abbrev pub update_quote : Text → (MintQuote → MintQuote) → Db → Db
update_quote id f db = record db { mint_quotes = update MintQuote.id id f db.mint_quotes }

-- `deposit && deposit.amount >= Number(quote.amount)`, with the reference of such a deposit.
covering : Option Deposit → ℕ → Option Text
covering none amount = none
covering (some deposit) amount = if leb amount deposit.amount then some deposit.tx_ref else none

-- The quote that the caller goes on with, whose state the source assigns in place.
unfoldable pub poll_deposit : Oracle → MintQuote → Action MintQuote
unfolding covering
poll_deposit oracle quote db =
    if is_unpaid quote.state
    then elim (covering (oracle.get_deposit quote.id) quote.amount) [
      | none ↦ (ok quote, db)
      | some ref ↦ (ok (marked_paid ref quote), update_quote quote.id (marked_paid ref) db)
    ]
    else (ok quote, db)

-- Whether `outstanding + more > maxOutstanding`, where a cap is set.
unfoldable pub over_cap : Config → Keyset → Db → ℕ → Bool
over_cap config keyset db more =
    ltb 0 config.max_outstanding
    && ltb_ℤ (pos config.max_outstanding) (compute_outstanding db keyset.id +ℤ pos more)

-- The INSERT, which fails on a key that is there and on the check `amount > 0`.
insert_quote : MintQuote → Action (Unit {0})
insert_quote quote db =
    if quote.amount == 0
    then (err internal, db)
    else elim (insert MintQuote.id quote db.mint_quotes) [
      | none ↦ (err internal, db)
      | some rows ↦ (ok tt, record db { mint_quotes = rows })
    ]

-- POST /v1/mint/quote. `id` is the hexadecimal text of 32 random bytes.
unfoldable pub request_quote : Config → Keyset → Oracle → Text → QuoteRequest → Action MintQuote
unfolding insert_quote
request_quote config keyset oracle id body = do
  lift (ensure (body.unit == config.unit) (api_error 400 invalid_request))
  lift (ensure (leb body.amount config.max_mint_amount) (api_error 400 amount_limit))
  lift (ensure (not oracle.is_publication_overdue) (api_error 503 attestation_overdue))
  λ db.
      lift
        (ensure (not (over_cap config keyset db (compute_reserved db oracle.now + body.amount)))
          (api_error 400 amount_limit))
        db
  insert_quote (record {
    id = id;
    amount = body.amount;
    unit = body.unit;
    state = QuoteState.unpaid;
    deposit_ref = none;
    expires_at = oracle.now + config.quote_ttl_seconds;
  })
  fetch_quote id

-- GET /v1/mint/quote/:id
unfoldable pub get_quote : Oracle → Text → Action MintQuote
get_quote oracle id = do quote ← fetch_quote id; poll_deposit oracle quote

-- A repeated request for an issued quote: its signatures, if the outputs are the same.
unfoldable pub replay : Text → List BlindedMessage → Db → Result Failure (List SignatureResponse)
replay id outputs db =
    or_throw (api_error 409 quote_already_issued) (load_issued_signatures id outputs db)

module _ (c : Crypto) (config : Config) (keyset : Keyset) where
  -- The part of the transaction behind its tests of the state.
  unfoldable pub issue_tx : MintQuote → List BlindedMessage → Tx (List SignatureResponse)
  issue_tx quote outputs db =
      if over_cap config keyset db quote.amount
      then err (api_error 409 amount_limit)
      else Result.◌>>=◌ (sign_all c keyset outputs (some quote.id) db)
          λ (signed, db'). ok (signed, update_quote quote.id marked_issued db')

  -- The state of the locked row decides again: another request may have been faster.
  locked_tx : Option MintQuote → MintQuote → List BlindedMessage → Tx (List SignatureResponse)
  locked_tx none quote outputs db = err (api_error 402 payment_required)
  locked_tx (some locked) quote outputs db = elim locked.state [
    | QuoteState.unpaid ↦ err (api_error 402 payment_required)
    | QuoteState.paid ↦ issue_tx quote outputs db
    | QuoteState.issued ↦ Result.◌>>=◌ (replay quote.id outputs db) λ signed. ok (signed, db)
  ]

  unfoldable pub mint_tx : MintQuote → List BlindedMessage → Tx (List SignatureResponse)
  unfolding locked_tx
  mint_tx quote outputs db = locked_tx (find MintQuote.id quote.id db.mint_quotes) quote outputs db

  mint_open : Oracle → MintQuote → List BlindedMessage → Action (List SignatureResponse)
  mint_open oracle quote outputs = do
    lift (
        ensure (not (is_unpaid quote.state && ltb quote.expires_at oracle.now))
          (api_error 400 quote_expired))
    polled ← poll_deposit oracle quote
    lift (ensure (is_paid polled.state) (api_error 402 payment_required))
    lift (ensure (sum_outputs outputs == polled.amount) (api_error 400 amount_mismatch))
    transact (mint_tx polled outputs)

  -- POST /v1/mint
  unfoldable pub mint : Oracle → MintRequest → Action (List SignatureResponse)
  unfolding mint_open
  mint oracle body = do
    quote ← fetch_quote body.quote_id
    lift (validate_outputs body.outputs keyset)
    λ db.
        if is_issued quote.state
        then (replay quote.id body.outputs db, db)
        else mint_open oracle quote body.outputs db
