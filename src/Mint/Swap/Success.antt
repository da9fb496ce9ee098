-- ===== src/Mint/Swap/Success.antt =====
-- When a swap of routes/swap.ts succeeds, and what it then answers.
use picocash.Prelude.{ℕ, ◌≡◌, refl, none, List, [], ==_refl, All}
use picocash.Result.{ok}
use picocash.Mint.Data.{Crypto, Keyset, VerifiedInput, SignatureResponse, Db, transact}
use picocash.Mint.Signing.{sum_inputs, sum_outputs, verify_inputs, validate_outputs}
use picocash.Mint.Signing.Inputs.{verify_inputs-AreVerified}
use picocash.Mint.Signing.Spending.{with_rows}
use picocash.Mint.Signing.Signatures.{validate_outputs-AreValid, AllSigned, sign_all-Records}
use picocash.Mint.Signing.Success.{
  Unspent, Unsigned, IsSignable, spend_inputs_total, sign_all_total,
}
use picocash.Mint.Swap.{SwapRequest, swap_tx, swap}

module _ (c : Crypto) (keyset : Keyset) where
  swap_tx_total :
      (now : ℕ) (body : SwapRequest) (inputs : List VerifiedInput) (db : Db)
      → verify_inputs c keyset body.inputs now ≡ ok inputs
      → validate_outputs body.outputs keyset ≡ ok tt
      → Unspent db.spent_secrets inputs
      → Unsigned db.blind_signatures body.outputs
      → All (IsSignable c keyset) body.outputs
      → (r : List SignatureResponse × Db) × (swap_tx c keyset inputs body.outputs db ≡ ok r)
        × AllSigned c keyset body.outputs r.0
  unfolding swap_tx
  swap_tx_total now body inputs db e f unspent unsigned signable =
      let verified = verify_inputs-AreVerified c keyset now body.inputs inputs e in
      let valid = validate_outputs-AreValid body.outputs keyset f in
      let db' = record db { spent_secrets = with_rows inputs db.spent_secrets } in
      let spent = spend_inputs_total [] inputs db verified.fresh unspent in
      let (r, signed) =
        sign_all_total c keyset [] body.outputs none db' valid.each signable valid.fresh unsigned in
      (
        r,
        rw (swap_tx, spent, signed) refl,
        (sign_all-Records c keyset body.outputs none db' r signed).signed,
      )

  -- A swap succeeds where its inputs verify, its outputs are valid, the sums agree, no input is in
  -- the spent ledger, no output was signed before, and the cryptography signs the outputs. It
  -- answers with the mint's signature on each output, in order, under the key of its amount.
  pub swap_total :
      (now : ℕ) (body : SwapRequest) (inputs : List VerifiedInput) (db : Db)
      → verify_inputs c keyset body.inputs now ≡ ok inputs
      → validate_outputs body.outputs keyset ≡ ok tt
      → sum_inputs inputs ≡ sum_outputs body.outputs
      → Unspent db.spent_secrets inputs
      → Unsigned db.blind_signatures body.outputs
      → All (IsSignable c keyset) body.outputs
      → (signatures : List SignatureResponse) × (db' : Db) × (swap c keyset now body db
          ≡ (ok signatures, db'))
        × AllSigned c keyset body.outputs signatures
  unfolding swap transact
  swap_total now body inputs db e f agree unspent unsigned signable =
      let ((signatures, db'), done, signed) =
        swap_tx_total now body inputs db e f unspent unsigned signable in
      (
        signatures,
        db',
        rw (swap, e, f, agree, ==_refl (sum_outputs body.outputs), transact, done) refl,
        signed,
      )
