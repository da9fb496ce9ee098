-- ===== src/Mint/Swap.antt =====
-- routes/swap.ts: tokens for fresh tokens of the same total.
pub mod Outcome
pub mod Safety
pub mod Success
mod Tests
use picocash.Prelude.{ℕ, none, List, ◌==◌}
use picocash.Result
use picocash.Result.{Result, ensure}
use picocash.Mint.Data.{
  Crypto, Keyset, BlindedMessage, ProofInput, VerifiedInput, SignatureResponse, Tx, Action,
  api_error, amount_mismatch, transact, lift, ◌>>=◌, ◌>>◌,
}
use picocash.Mint.Signing.{
  sum_inputs, sum_outputs, verify_inputs, validate_outputs, spend_inputs, sign_all,
}

pub record SwapRequest : Type 0 where
  pub inputs : List ProofInput
  pub outputs : List BlindedMessage

module _ (c : Crypto) (keyset : Keyset) where
  -- The body of the transaction: the inputs are spent before anything is signed.
  pub swap_tx : List VerifiedInput → List BlindedMessage → Tx (List SignatureResponse)
  swap_tx inputs outputs db =
      Result.◌>>=◌ (spend_inputs inputs db) λ (_, db'). sign_all c keyset outputs none db'

  unfoldable pub swap : ℕ → SwapRequest → Action (List SignatureResponse)
  unfolding swap_tx
  swap now body = do
    inputs ← lift (verify_inputs c keyset body.inputs now)
    lift (validate_outputs body.outputs keyset)
    lift (ensure (sum_inputs inputs == sum_outputs body.outputs) (api_error 400 amount_mismatch))
    transact (swap_tx inputs body.outputs)
