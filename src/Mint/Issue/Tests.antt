-- ===== src/Mint/Issue/Tests.antt =====
-- Runs of routes/mint.ts on concrete inputs.
use picocash.Prelude.{ℕ, ◌≡◌, refl, some, List, [], ◌∷◌}
use picocash.Result.{Result, ok, err}
use picocash.Table.{find, update, insert}
use picocash.Mint.Data.{
  get_key, Failure, SignatureResponse, MintQuote, QuoteState, Db, empty_db, transact, api_error,
  quote_already_issued,
}
use picocash.Mint.Signing.{sum_outputs, validate_outputs, sign_all, load_issued_signatures}
use picocash.Mint.Solvency.{compute_outstanding, issued, spent, issued_amount, spent_amount}
use picocash.Mint.Issue.{
  MintRequest, fetch_quote, poll_deposit, over_cap, replay, issue_tx, mint_tx, mint,
}
use picocash.Mint.Toy.{toy_crypto, keyset, config, oracle, output}

abbrev quote : MintQuote
quote = record {
  id = 50;
  amount = 6;
  unit = 1;
  state = QuoteState.paid;
  deposit_ref = some 99;
  expires_at = 2000;
}

abbrev db : Db
db = record empty_db { mint_quotes = quote ∷ [] }

abbrev request : MintRequest
request = record { quote_id = 50; outputs = output 2 41 ∷ output 4 42 ∷ [] }

abbrev signature : ℕ → ℕ → ℕ → ℕ → SignatureResponse
signature amount c e s = record { amount = amount; keyset_id = 7; c = c; e = e; s = s }

abbrev signatures : List SignatureResponse
signatures = signature 2 533 41 13 ∷ signature 4 714 42 17 ∷ []

abbrev db_after : Db
db_after = (mint toy_crypto config keyset oracle request db).1

-- Every part of the handler, open.
issue : MintRequest → Db → Result Failure (List SignatureResponse) × Db
unfolding mint fetch_quote poll_deposit over_cap replay issue_tx mint_tx compute_outstanding issued
    spent issued_amount spent_amount sum_outputs validate_outputs sign_all load_issued_signatures
    get_key find update insert transact
issue body d = mint toy_crypto config keyset oracle body d

issue-answers : issue request db ≡ (ok signatures, db_after)
unfolding issue
issue-answers = refl

-- Other outputs for an issued quote are refused.
other-outputs :
    (issue (record { quote_id = 50; outputs = output 2 43 ∷ output 4 42 ∷ [] }) db_after).0
    ≡ err (api_error 409 quote_already_issued)
unfolding issue
other-outputs = refl

-- The same outputs for it are answered as before.
same-outputs : issue request db_after ≡ (ok signatures, db_after)
unfolding issue
same-outputs = refl
