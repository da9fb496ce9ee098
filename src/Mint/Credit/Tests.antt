-- ===== src/Mint/Credit/Tests.antt =====
-- Runs of vault-credit.ts on concrete inputs.
use picocash.Prelude.{ℕ, ◌+◌, ◌≡◌, refl, inl, Text, true, false, none, some, List, [], ◌∷◌}
use picocash.Result.{ok, err}
use picocash.Table.{find}
use picocash.Mint.Data.{
  MintQuote, QuoteState, api_error, unauthorized, quote_not_open, ref_already_issued,
}
use picocash.Mint.Credit.{
  CreditIssuance, IssueBody, Issued, CreditRequest, get_deposit, total_issued, insert_issuance,
  fund_quote, issue_credit, serve_credit,
}
use picocash.Mint.Credit.Idempotent.{issue_credit-once}

abbrev quote : Text → ℕ → MintQuote
quote id amount = record {
  id = id;
  amount = amount;
  unit = 1;
  state = QuoteState.unpaid;
  deposit_ref = none;
  expires_at = 100;
}

abbrev quotes : List MintQuote
quotes = quote 7 40 ∷ quote 8 50 ∷ []

abbrev body : IssueBody
body = record { quote_id = 7; ref = 3 }

-- The reference once more, for another quote.
abbrev other : IssueBody
other = record { quote_id = 8; ref = 3 }

abbrev row : CreditIssuance
row = record { ref = 3; quote_id = 7; amount = 40 }

abbrev issued : Issued
issued = record { quote_id = 7; ref = 3; amount = 40; replay = false }

first_time : issue_credit true 10 body quotes [] ≡ (ok issued, row ∷ [])
unfolding issue_credit fund_quote insert_issuance find
first_time = refl

expired : issue_credit true 101 body quotes [] ≡ (err (api_error 409 quote_not_open), [])
unfolding issue_credit fund_quote find
expired = refl

stranger : issue_credit false 10 body quotes [] ≡ (err (api_error 401 unauthorized), [])
unfolding issue_credit
stranger = refl

other_quote :
    issue_credit true 10 other quotes (row ∷ [])
    ≡ (err (api_error 409 ref_already_issued), row ∷ [])
unfolding issue_credit find
other_quote = refl

abbrev requests : List CreditRequest
requests =
    record { authorized = true; now = 20; body = record { quote_id = 8; ref = 4 }; quotes = quotes }
    ∷ []

two_rows : total_issued (serve_credit requests (row ∷ [])) ≡ 90
unfolding total_issued serve_credit issue_credit fund_quote insert_issuance find
two_rows = refl

issue_credit-once_example :
    (issue_credit true 30 body [] (serve_credit requests (row ∷ []))
      ≡ (ok (record issued { replay = true }), serve_credit requests (row ∷ [])))
    × (get_deposit (λ ref. ref + 1000) 7 (serve_credit requests (row ∷ []))
        ≡ some (record { amount = 40; tx_ref = 1003 }))
    × ((issue_credit true 30 other [] (serve_credit requests (row ∷ []))).1
        ≡ serve_credit requests (row ∷ []))
issue_credit-once_example =
    issue_credit-once (λ ref. ref + 1000) 10 30 body other quotes [] [] (row ∷ []) issued requests
      first_time refl (inl refl)
