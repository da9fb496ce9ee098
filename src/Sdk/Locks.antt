-- ===== src/Sdk/Locks.antt =====
-- packages/sdk/src/p2pk.ts: the lock of a proof, and signing locked proofs with a key.
pub mod Opens
mod Tests
use picocash.Prelude.{
  Text, Bool, true, false, Option, none, some, List, [], ◌∷◌, ◌++◌, contains, ◌==◌, ◌||◌,
  if◌then◌else◌,
}
use picocash.Result.{Result, ok, err, ◌>>=◌}
use picocash.Crypto.P2pk.{P2pkConditions, P2pkError}
use picocash.Crypto.P2pk.Secret.{SecretText, parse_p2pk_secret, parse_p2pk_witness}
use picocash.Sdk.Store.{Proof}

module _ (c : SecretText) where
  unfoldable pub lock_of : Proof → Result P2pkError (Option P2pkConditions)
  lock_of proof = parse_p2pk_secret c proof.secret

  -- Whether a key takes part in the conditions.
  abbrev pub relevant : P2pkConditions → Text → Bool
  relevant conditions key =
      conditions.lock_key == key
      || contains key conditions.pubkeys
      || contains key conditions.refund

  abbrev pub add_signature : Text → List Text → List Text
  add_signature sig existing = if contains sig existing then existing else existing ++ (sig ∷ [])

  -- The body of the map, for a proof under conditions.
  unfoldable pub attach : Text → P2pkConditions → Proof → Result P2pkError Proof
  attach private_key conditions proof =
      if relevant conditions (c.public_key private_key)
      then (do
        existing ← parse_p2pk_witness c proof.witness
        ok (record proof {
          witness =
              some (c.write_witness (add_signature (c.sign proof.secret private_key) existing));
        }))
      else ok proof

  unfoldable pub sign_proof : Text → Proof → Result P2pkError Proof
  sign_proof private_key proof = do
    lock ← parse_p2pk_secret c proof.secret
    elim lock [ none ↦ ok proof | some conditions ↦ attach private_key conditions proof ]

  -- `signProofs`
  unfoldable pub sign_proofs : Text → List Proof → Result P2pkError (List Proof)
  sign_proofs private_key [] = ok []
  sign_proofs private_key (p ∷ ps) = do
    signed ← sign_proof private_key p
    rest ← sign_proofs private_key ps
    ok (signed ∷ rest)
