-- ===== src/Mcp.antt =====
-- packages/mcp/src/wallet-service.ts: the wallet behind the tools of an agent, over a proof store in
-- memory and a mint, with the signer of packages/sdk/src/nostr.ts. `x_only` is `slice(-64)`, `mine` the
-- lock key without its parity, and `lock_key_of` is `lockKeyFromNpub`, none where it throws.
pub mod Picker
pub mod Service
pub mod Fetch
mod Tests
use picocash.Prelude.{
  ℕ, Text, Bool, true, false, Option, none, some, List, [], ◌∷◌, ◌++◌, map, contains, ◌==◌, ◌||◌,
  if◌then◌else◌,
}
use picocash.Result.{Result, ok, err, ◌>>=◌}
use picocash.Crypto.P2pk.{P2pkConditions, P2pkError}
use picocash.Crypto.P2pk.Secret.{SecretText, parse_p2pk_secret, parse_p2pk_witness}
use picocash.Sdk.Store.{Proof, balance_of}
use picocash.Sdk.Locks.{lock_of, add_signature}
use picocash.Reserves.Collisions.{any_of}

pub record Signer : Type 0 where
  pub locks : SecretText
  pub private_key : Text
  pub lock_key : Text
  pub mine : Text
  pub x_only : Text → Text

module _ (signer : Signer) where
  abbrev pub matches : Text → Bool
  matches key = signer.x_only key == signer.mine

  -- Whether a lock names the signer's key.
  unfoldable pub is_ours : P2pkConditions → Bool
  is_ours lock = matches lock.lock_key || any_of matches lock.pubkeys || any_of matches lock.refund

  unfoldable pub sign_one : Proof → Result P2pkError Proof
  sign_one proof = do
    lock ← parse_p2pk_secret signer.locks proof.secret
    elim lock [
      | none ↦ ok proof
      | some conditions ↦
          if is_ours conditions
          then (do
            existing ← parse_p2pk_witness signer.locks proof.witness
            let sig = signer.locks.sign proof.secret signer.private_key
            ok (
                if contains sig existing then proof else record proof {
                  witness = some (signer.locks.write_witness (existing ++ (sig ∷ [])));
                }))
          else ok proof
    ]

  -- `signer.sign`
  unfoldable pub sign_all : List Proof → Result P2pkError (List Proof)
  sign_all [] = ok []
  sign_all (p ∷ ps) = do signed ← sign_one p; others ← sign_all ps; ok (signed ∷ others)

  -- The test of `spendableOf`.
  unfoldable pub can_spend : Proof → Result P2pkError Bool
  can_spend proof = do
    lock ← lock_of signer.locks proof
    elim lock [ none ↦ ok true | some conditions ↦ ok (is_ours conditions) ]

  abbrev pub sort_in : Bool → Proof → List Proof × List Proof → List Proof × List Proof
  sort_in true p (ours, others) = (p ∷ ours, others)
  sort_in false p (ours, others) = (ours, p ∷ others)

  -- `spendableOf`, with the proofs that are not spendable, which the code takes as those it does not
  -- find among them.
  unfoldable pub spendable_of : List Proof → Result P2pkError (List Proof × List Proof)
  spendable_of [] = ok ([], [])
  spendable_of (p ∷ ps) = do fits ← can_spend p; rest ← spendable_of ps; ok (sort_in fits p rest)

  abbrev pub is_key : Text → Option P2pkConditions → Bool
  is_key merchant none = false
  is_key merchant (some conditions) = conditions.lock_key == merchant

  -- `lockedTo`, with the other proofs.
  unfoldable pub locked_to_merchant : List Proof → Text → Result P2pkError (List Proof × List Proof)
  locked_to_merchant [] merchant = ok ([], [])
  locked_to_merchant (p ∷ ps) merchant = do
    lock ← lock_of signer.locks p
    rest ← locked_to_merchant ps merchant
    ok (sort_in (is_key merchant lock) p rest)
