-- ===== src/Mint/Tests.antt =====
-- Runs of the mint on a toy signature scheme, and each theorem at an input that meets it.
use picocash.Prelude.{◌≡◌, refl, Text, none, some, List, [], ◌∷◌, ◌++◌, inr, ◌⊎◌}
use picocash.Prelude.Int.{sub_ℕ, pos}
use picocash.Result.{ok, err}
use picocash.Table.{find, update, insert}
use picocash.Mint.Data.{
  get_key, VerifiedInput, MeltQuote, MeltState, SpentSecret, SignatureResponse, Db, empty_db,
  Failure, transact,
}
use picocash.Mint.Signing.{
  sum_inputs, sum_outputs, verify_inputs, validate_outputs, spend_inputs, sign_all,
}
use picocash.Mint.Signing.Inputs.{AreVerified, verify_inputs-AreVerified}
use picocash.Mint.Solvency.{
  compute_outstanding, compute_reserved, issued, spent, issued_amount, spent_amount,
}
use picocash.Mint.Invariant.{minted, melted}
use picocash.Mint.Swap.{SwapRequest, swap}
use picocash.Mint.Swap.Safety.{swap-double_spend}
use picocash.Mint.Issue.{
  Oracle, MintRequest, request_quote, get_quote, fetch_quote, poll_deposit, over_cap, replay,
  issue_tx, mint_tx, mint,
}
use picocash.Mint.Melt.{
  MeltRequest, request_melt, melt, melt_with, prepare, pay_out, fetch_melt, spend_tx, inputs_hash,
  sort,
}
use picocash.Mint.Melt.Safety.{PaidFor, melt_with-PaidFor, melt_with-paid_once}
use picocash.Mint.Server.{
  Request, post_swap, post_mint_quote, post_mint, post_melt_quote, post_melt, run,
}
use picocash.Mint.Toy.{toy_crypto, keyset, config, chain, context, oracle, output, token}
use picocash.Mint.Server.Replays.{run-replay}
use picocash.Mint.Server.Solvent.{IsSound, empty_db-IsSound, run-IsSound, outstanding-run}

-- Six units are minted, two of them swapped, and four less a fee are melted.
abbrev swap_request : SwapRequest
swap_request = record { inputs = token 2 31 13 ∷ []; outputs = output 1 43 ∷ output 1 44 ∷ [] }

abbrev melt_request : MeltRequest
melt_request = record { melt_id = 60; inputs = token 4 32 17 ∷ [] }

abbrev requests : List (Oracle × Request)
requests =
    (oracle, post_mint_quote 50 (record { amount = 6; unit = 1 }))
    ∷ (oracle, post_mint (record { quote_id = 50; outputs = output 2 41 ∷ output 4 42 ∷ [] }))
    ∷ (oracle, post_swap swap_request)
    ∷ (oracle, post_melt_quote 60 (record { amount = 3; unit = 1; to = 8 }))
    ∷ (oracle, post_melt melt_request)
    ∷ []

-- The run of the machine, with every handler open.
evaluate : List (Oracle × Request) → Db × List Text
unfolding run swap request_quote get_quote fetch_quote poll_deposit over_cap replay issue_tx mint_tx
    mint request_melt melt melt_with prepare pay_out fetch_melt spend_tx inputs_hash sort
    compute_outstanding compute_reserved issued spent issued_amount spent_amount sum_inputs
    sum_outputs verify_inputs validate_outputs spend_inputs sign_all get_key find update insert
    transact
evaluate rs = run context rs (empty_db, [])

outstanding-after : compute_outstanding (evaluate requests).0 7 ≡ pos 2
unfolding evaluate
outstanding-after = refl

paid-after : (evaluate requests).1 ≡ 60 ∷ []
unfolding evaluate
paid-after = refl

-- A second run of the requests is refused or replayed, and pays nothing more.
repeated-after : (evaluate (requests ++ requests)).1 ≡ 60 ∷ []
unfolding evaluate
repeated-after = refl

-- A database in which the token with secret 31 is spent, and melts 60 and 61 wait.
abbrev melt_row : Text → MeltState → MeltQuote
melt_row id state = record {
  id = id;
  amount = 3;
  fee = 1;
  unit = 1;
  to_address = 8;
  state = state;
  inputs_hash = some 32;
  tx_hash = none;
  expires_at = 2000;
}

abbrev spent_row : SpentSecret
spent_row = record { y = 31; keyset_id = 7; amount = 2 }

abbrev db : Db
db = record empty_db {
  spent_secrets = spent_row ∷ [];
  melt_quotes = melt_row 60 MeltState.owed ∷ melt_row 61 MeltState.unpaid ∷ [];
}

run-IsSound_example : IsSound 10 keyset (run context requests (empty_db, [])).0
run-IsSound_example = run-IsSound context requests empty_db [] (empty_db-IsSound 10 keyset)

outstanding-run_example :
    compute_outstanding (run context requests (empty_db, [])).0 7
    ≡ sub_ℕ
        (minted (run context requests (empty_db, [])).0)
        (melted (run context requests (empty_db, [])).0)
outstanding-run_example = outstanding-run context requests []

swap-double_spend_example :
    (e : Failure) × (swap toy_crypto keyset 1000 swap_request db ≡ (err e, db))
unfolding find
swap-double_spend_example =
    swap-double_spend toy_crypto keyset 1000 swap_request db 31 spent_row refl refl

melt_with-PaidFor_example :
    ((melt_with chain toy_crypto keyset 1000 (record melt_request { melt_id = 61 }) db []).2 ≡ [])
    ⊎ ((melt : MeltQuote) × (inputs : List VerifiedInput) × PaidFor chain toy_crypto keyset 1000
          (record melt_request { melt_id = 61 })
          db
          []
          melt
          inputs
          (melt_with chain toy_crypto keyset 1000 (record melt_request { melt_id = 61 }) db []))
melt_with-PaidFor_example =
    melt_with-PaidFor chain toy_crypto keyset 1000 (record melt_request { melt_id = 61 }) db []

melt_with-paid_once_example :
    (melt_with chain toy_crypto keyset 1000 melt_request db (60 ∷ [])).2 ≡ 60 ∷ []
unfolding find
melt_with-paid_once_example =
    melt_with-paid_once chain toy_crypto keyset 1000 melt_request db (60 ∷ [])
      (melt_row 60 MeltState.owed) refl (inr (refl, refl))

verify_inputs-AreVerified_example :
    AreVerified toy_crypto keyset 1000 []
      (token 2 31 13 ∷ [])
      (record { input = token 2 31 13; y = 31 } ∷ [])
unfolding verify_inputs get_key
verify_inputs-AreVerified_example =
    verify_inputs-AreVerified toy_crypto keyset 1000 (token 2 31 13 ∷ [])
      (record { input = token 2 31 13; y = 31 } ∷ []) refl

-- Once the quote is there, tokens are issued for it.
abbrev quoted : List (Oracle × Request)
quoted = (oracle, post_mint_quote 50 (record { amount = 6; unit = 1 })) ∷ []

abbrev mint_request : MintRequest
mint_request = record { quote_id = 50; outputs = output 2 41 ∷ output 4 42 ∷ [] }

abbrev signatures : List SignatureResponse
signatures =
    record { amount = 2; keyset_id = 7; c = 533; e = 41; s = 13 }
    ∷ record { amount = 4; keyset_id = 7; c = 714; e = 42; s = 17 }
    ∷ []

abbrev db_issued : Db
db_issued =
    (mint toy_crypto config keyset oracle mint_request (run context quoted (empty_db, [])).0).1

mint-quoted :
    mint toy_crypto config keyset oracle mint_request (run context quoted (empty_db, [])).0
    ≡ (ok signatures, db_issued)
unfolding evaluate
mint-quoted = refl

run-replay_example :
    mint toy_crypto config keyset (record oracle { now = 5000 }) mint_request db_issued
    ≡ (ok signatures, db_issued)
run-replay_example =
    run-replay context quoted [] oracle (record oracle { now = 5000 }) mint_request db_issued
      signatures mint-quoted
