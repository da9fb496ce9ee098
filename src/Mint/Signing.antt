-- ===== src/Mint/Signing.antt =====
-- signing.ts: checking inputs and outputs, the spent ledger, and the recorded signatures.
pub mod Inputs
pub mod Spending
pub mod Signatures
pub mod Replay
pub mod Success
use picocash.Prelude.{
  ℕ, ◌+◌, Text, Bool, false, Option, none, some, List, [], ◌∷◌, length, contains, ◌==◌,
  if◌then◌else◌, not,
}
use picocash.Result.{Result, ok, ensure, ◌>>=◌, ◌>>◌}
use mathlib.Core.Option
use picocash.Table.{insert}
use picocash.Mint.Data.{
  Crypto, Keyset, get_key, BlindedMessage, ProofInput, VerifiedInput, SignatureResponse,
  SpentSecret, BlindSignature, Db, Tx, Failure, api_error, internal, keyset_unknown,
  invalid_request, invalid_proof, spending_condition_failed, token_already_spent,
  output_already_signed, or_throw,
}

unfoldable pub sum_inputs : List VerifiedInput → ℕ
sum_inputs [] = 0
sum_inputs (v ∷ vs) = v.amount + sum_inputs vs

unfoldable pub sum_outputs : List BlindedMessage → ℕ
sum_outputs [] = 0
sum_outputs (o ∷ os) = o.amount + sum_outputs os

module _ (c : Crypto) where
  verify_input : Keyset → ℕ → List Text → ProofInput → Result Failure VerifiedInput
  verify_input keyset now seen input = do
    ensure (input.keyset_id == keyset.id) (api_error 400 keyset_unknown)
    key ← or_throw (api_error 400 invalid_request) (get_key input.amount keyset.keys)
    ensure (c.verify_proof input.secret input.c key.privkey) (api_error 400 invalid_proof)
    ensure (c.verify_p2pk_spend input.secret input.witness now)
        (api_error 403 spending_condition_failed)
    let y = c.hash_to_curve input.secret
    ensure (not (contains y seen)) (api_error 400 invalid_request)
    ok (record { input = input; y = y })

  verify_inputs_from :
      Keyset → ℕ → List Text → List ProofInput → Result Failure (List VerifiedInput)
  verify_inputs_from keyset now seen [] = ok []
  verify_inputs_from keyset now seen (input ∷ rest) = do
    v ← verify_input keyset now seen input
    vs ← verify_inputs_from keyset now (v.y ∷ seen) rest
    ok (v ∷ vs)

  unfoldable pub verify_inputs : Keyset → List ProofInput → ℕ → Result Failure (List VerifiedInput)
  unfolding verify_inputs_from verify_input
  verify_inputs keyset inputs now = verify_inputs_from keyset now [] inputs

spend_input : VerifiedInput → Tx (Unit {0})
spend_input v db = do
  rows ← or_throw (api_error 409 token_already_spent) (
      insert SpentSecret.y (record { y = v.y; keyset_id = v.keyset_id; amount = v.amount })
        db.spent_secrets)
  ok (tt, record db { spent_secrets = rows })

unfoldable pub spend_inputs : List VerifiedInput → Tx (Unit {0})
unfolding spend_input
spend_inputs [] db = ok (tt, db)
spend_inputs (v ∷ vs) db = do (_, db') ← spend_input v db; spend_inputs vs db'

validate_from : List Text → List BlindedMessage → Keyset → Result Failure (Unit {0})
validate_from seen [] keyset = ok tt
validate_from seen (output ∷ rest) keyset = do
  ensure (output.keyset_id == keyset.id) (api_error 400 keyset_unknown)
  or_throw (api_error 400 invalid_request) (get_key output.amount keyset.keys)
  ensure (not (contains output.b seen)) (api_error 400 invalid_request)
  validate_from (output.b ∷ seen) rest keyset

unfoldable pub validate_outputs : List BlindedMessage → Keyset → Result Failure (Unit {0})
unfolding validate_from
validate_outputs outputs keyset = validate_from [] outputs keyset

module _ (c : Crypto) where
  sign_and_record : Keyset → BlindedMessage → Option Text → Tx SignatureResponse
  sign_and_record keyset output quote_id db = do
    key ← or_throw internal (get_key output.amount keyset.keys)
    c_ ← or_throw internal (c.sign_blinded_message output.b key.privkey)
    dleq ← or_throw internal (c.create_dleq_proof output.b key.privkey)
    let row : BlindSignature = record {
      b = output.b;
      keyset_id = output.keyset_id;
      amount = output.amount;
      c = c_;
      dleq_e = dleq.0;
      dleq_s = dleq.1;
      quote_id = quote_id;
    }
    rows ←
        or_throw (api_error 409 output_already_signed)
          (insert BlindSignature.b row db.blind_signatures)
    ok (
      record {
        amount = output.amount;
        keyset_id = output.keyset_id;
        c = c_;
        e = dleq.0;
        s = dleq.1;
      },
      record db { blind_signatures = rows },
    )

  -- `for (const output of outputs) signed.push(await signAndRecord(…))`
  unfoldable pub sign_all : Keyset → List BlindedMessage → Option Text → Tx (List SignatureResponse)
  unfolding sign_and_record
  sign_all keyset [] quote_id db = ok ([], db)
  sign_all keyset (output ∷ rest) quote_id db = do
    (signed, db') ← sign_and_record keyset output quote_id db
    (others, db'') ← sign_all keyset rest quote_id db'
    ok (signed ∷ others, db'')

-- `WHERE quote_id = $1`, which no NULL meets
is_for : Text → BlindSignature → Bool
is_for quote row = elim row.quote_id [ none ↦ false | some q ↦ q == quote ]

unfoldable pub stored_for : Text → List BlindSignature → List BlindSignature
unfolding is_for
stored_for quote [] = []
stored_for quote (r ∷ rs) = if is_for quote r then r ∷ stored_for quote rs else stored_for quote rs

-- `new Map(rows.map((row) => [row.b, row])).get(b)`: of two entries the later one stays.
by_b : Text → List BlindSignature → Option BlindSignature
by_b b [] = none
by_b b (r ∷ rs) = elim (by_b b rs) [
  | some later ↦ some later
  | none ↦ if r.b == b then some r else none
]

response_of : BlindSignature → SignatureResponse
response_of row = record {
  amount = row.amount;
  keyset_id = row.keyset_id;
  c = row.c;
  e = row.dleq_e;
  s = row.dleq_s;
}

replay_from : List BlindSignature → List BlindedMessage → Option (List SignatureResponse)
unfolding by_b response_of
replay_from rows [] = some []
replay_from rows (output ∷ rest) = elim (by_b output.b rows) [
  | none ↦ none
  | some row ↦ Option.map (λ replay. response_of row ∷ replay) (replay_from rows rest)
]

unfoldable pub load_issued_signatures :
    Text → List BlindedMessage → Db → Option (List SignatureResponse)
unfolding stored_for replay_from
load_issued_signatures quote outputs db =
    let stored = stored_for quote db.blind_signatures in
    if length stored == length outputs then replay_from stored outputs else none
