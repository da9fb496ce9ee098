-- ===== src/Mint/Melt.antt =====
-- routes/melt.ts: tokens are spent for a payout on the chain, and a payout that failed is owed.
pub mod Outcome
pub mod Payout
pub mod Safety
pub mod Quotes
use picocash.Prelude.{
  ℕ, ◌+◌, Text, Bool, true, false, not, Option, none, some, List, [], ◌∷◌, map, ◌==◌, ◌&&◌, ltb,
  leb, if◌then◌else◌,
}
use picocash.Result
use picocash.Result.{Result, ok, err, ensure}
use picocash.Table.{find, update, insert}
use picocash.Mint.Data.{
  Crypto, Keyset, ProofInput, VerifiedInput, MeltQuote, MeltState, TxHash, Db, Tx, Action, Failure,
  api_error, internal, quote_not_found, quote_expired, melt_already_paid, payout_failed,
  not_implemented, amount_mismatch, amount_limit, invalid_request, transact, or_throw, pure, lift,
  ◌>>=◌, ◌>>◌,
}
use picocash.Mint.Signing.{sum_inputs, verify_inputs, spend_inputs}
use picocash.Mint.Issue.{Config}

-- payout.ts, `PayoutExecutor`, over a chain with states `S`. `execute` gives the reference of the
-- transaction, or `none` where it throws; `is_paid` gives `none` where it throws.
pub record Executor (S : Type 0) : Type 0 where
  pub execute : Text → ℕ → Text → S → Option Text × S
  pub is_paid : Text → S → Option Bool

pub record MeltQuoteRequest : Type 0 where
  pub amount : ℕ
  pub unit : Text
  pub to : Text

pub record MeltRequest : Type 0 where
  pub melt_id : Text
  pub inputs : List ProofInput

abbrev pub is_unpaid : MeltState → Bool
is_unpaid MeltState.unpaid = true
is_unpaid _ = false

-- `ys.sort()`: texts of one length, in the order of their numbers.
insert_sorted : Text → List Text → List Text
insert_sorted y [] = y ∷ []
insert_sorted y (z ∷ zs) = if leb y z then y ∷ z ∷ zs else z ∷ insert_sorted y zs

unfoldable pub sort : List Text → List Text
unfolding insert_sorted
sort [] = []
sort (y ∷ ys) = insert_sorted y (sort ys)

unfoldable pub inputs_hash : Crypto → List VerifiedInput → Text
inputs_hash c inputs = c.hash_keys (sort (map (λ v. v.y) inputs))

-- `melt.inputs_hash === hash`
abbrev pub matches : Option Text → Text → Bool
matches none hash = false
matches (some recorded) hash = recorded == hash

unfoldable pub fetch_melt : Text → Action MeltQuote
fetch_melt id db =
    (or_throw (api_error 404 quote_not_found) (find MeltQuote.id id db.melt_quotes), db)

abbrev pub update_melt : Text → (MeltQuote → MeltQuote) → Db → Db
update_melt id f db = record db { melt_quotes = update MeltQuote.id id f db.melt_quotes }

abbrev pub marked_pending : Text → MeltQuote → MeltQuote
marked_pending hash melt = record melt { state = MeltState.pending; inputs_hash = some hash }

abbrev pub marked_paid : Text → MeltQuote → MeltQuote
marked_paid hash melt = record melt { state = MeltState.paid; tx_hash = some (TxHash.tx hash) }

abbrev pub marked_owed : MeltQuote → MeltQuote
marked_owed melt = record melt { state = MeltState.owed }

-- `COALESCE(tx_hash, 'paid-on-chain (tx hash not recorded)')`
abbrev coalesce : Option TxHash → TxHash
coalesce none = TxHash.paid_on_chain
coalesce (some hash) = hash

abbrev pub marked_recovered : MeltQuote → MeltQuote
marked_recovered melt = record melt {
  state = MeltState.paid;
  tx_hash = some (coalesce melt.tx_hash);
}

insert_melt : MeltQuote → Action (Unit {0})
insert_melt melt db =
    if melt.amount == 0
    then (err internal, db)
    else elim (insert MeltQuote.id melt db.melt_quotes) [
      | none ↦ (err internal, db)
      | some rows ↦ (ok tt, record db { melt_quotes = rows })
    ]

-- What is left to do behind the tests of a melt: nothing, or the payout of the row as it was read.
pub data Prepared : Type 0 where
  replied : MeltQuote → Prepared
  to_pay : MeltQuote → Prepared

unfoldable pub spend_tx : MeltQuote → Text → List VerifiedInput → Tx (Unit {0})
spend_tx melt hash inputs db = elim (find MeltQuote.id melt.id db.melt_quotes) [
  | none ↦ err (api_error 409 melt_already_paid)
  | some locked ↦
      if is_unpaid locked.state
      then (Result.◌>>=◌ (spend_inputs inputs db)
          λ (_, db'). ok (tt, update_melt melt.id (marked_pending hash) db'))
      else err (api_error 409 melt_already_paid)
]

by_state : ℕ → MeltQuote → Text → List VerifiedInput → Action Prepared
by_state now melt hash inputs = elim melt.state [
  | MeltState.paid ↦ lift (
      if matches melt.inputs_hash hash
      then ok (replied melt)
      else err (api_error 409 melt_already_paid))
  | MeltState.unpaid ↦ (do
    lift (ensure (not (ltb melt.expires_at now)) (api_error 400 quote_expired))
    transact (spend_tx melt hash inputs)
    pure (to_pay melt))
  | _ ↦ lift (
      if matches melt.inputs_hash hash
      then ok (to_pay melt)
      else err (api_error 409 melt_already_paid))
]

module _ (c : Crypto) (keyset : Keyset) where
  -- POST /v1/melt up to the payout: the proofs are consumed and the debt is recorded.
  unfoldable pub prepare : ℕ → MeltRequest → Action Prepared
  unfolding by_state
  prepare now body = do
    melt ← fetch_melt body.melt_id
    inputs ← lift (verify_inputs c keyset body.inputs now)
    lift (ensure (sum_inputs inputs == melt.amount + melt.fee) (api_error 400 amount_mismatch))
    by_state now melt (inputs_hash c inputs) inputs

module _ {S : Type 0} (executor : Executor S) where
  -- `melt.state !== 'UNPAID' && (await executor.isPaid(melt.id).catch(() => false))`
  recovered : MeltQuote → S → Bool
  recovered melt s = elim (executor.is_paid melt.id s) [
    | none ↦ false
    | some paid ↦ not (is_unpaid melt.state) && paid
  ]

  -- The payout itself, or its recovery when an earlier attempt landed on the chain.
  unfoldable pub pay_out : MeltQuote → Db → S → Result Failure MeltQuote × Db × S
  unfolding recovered
  pay_out melt db s =
      if recovered melt s
      then (let (r, db') = fetch_melt melt.id (update_melt melt.id marked_recovered db) in
          (r, db', s))
      else let (landed, s') = executor.execute melt.to_address melt.amount melt.id s in
        elim landed [
          | some hash ↦
              let (r, db') = fetch_melt melt.id (update_melt melt.id (marked_paid hash) db) in
              (r, db', s')
          | none ↦ (err (api_error 502 payout_failed), update_melt melt.id marked_owed db, s')
        ]

  continue : Result Failure Prepared → Db → S → Result Failure MeltQuote × Db × S
  continue (err e) db s = (err e, db, s)
  continue (ok (replied melt)) db s = (ok melt, db, s)
  continue (ok (to_pay melt)) db s = pay_out melt db s

  unfoldable pub melt_with :
      Crypto → Keyset → ℕ → MeltRequest → Db → S → Result Failure MeltQuote × Db × S
  unfolding continue
  melt_with c keyset now body db s = let (r, db') = prepare c keyset now body db in continue r db' s

-- POST /v1/melt, where the mint may have no executor.
unfoldable pub melt :
    {S : Type 0}
    → Option (Executor S)
    → Crypto
    → Keyset
    → ℕ
    → MeltRequest
    → Db
    → S
    → Result Failure MeltQuote × Db × S
melt none c keyset now body db s = (err (api_error 501 not_implemented), db, s)
melt (some executor) c keyset now body db s = melt_with executor c keyset now body db s

-- POST /v1/melt/quote
unfoldable pub request_melt :
    {S : Type 0} → Option (Executor S) → Config → ℕ → Text → MeltQuoteRequest → Action MeltQuote
unfolding insert_melt
request_melt none config now id body db = (err (api_error 501 not_implemented), db)
request_melt (some executor) config now id body db =
    (do
      lift (ensure (body.unit == config.unit) (api_error 400 invalid_request))
      lift (ensure (leb body.amount config.max_mint_amount) (api_error 400 amount_limit))
      insert_melt (record {
        id = id;
        amount = body.amount;
        fee = config.melt_fee;
        unit = body.unit;
        to_address = body.to;
        state = MeltState.unpaid;
        inputs_hash = none;
        tx_hash = none;
        expires_at = now + config.quote_ttl_seconds;
      })
      fetch_melt id)
      db
