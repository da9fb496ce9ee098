-- ===== src/Sdk/Locks/Tests.antt =====
-- A token locked to a key, and opened by the key's holder.
use picocash.Prelude.{◌≡◌, refl, Text, true, none, some, [], ◌∷◌}
use picocash.Result.{ok}
use picocash.Crypto.P2pk.{all_pubkeys}
use picocash.Crypto.P2pk.Secret.{
  LockOptions, locktime_tag, keys_tag, sigs_tag, p2pk_secret_hex, parse_p2pk_secret,
  parse_p2pk_witness, verify_spend,
}
use picocash.Crypto.P2pk.Secret.RoundTrip.{conditions_of, parse_p2pk_secret-p2pk_secret_hex}
use picocash.Crypto.P2pk.Toy.{toy_secrets, toy_secrets-IsSecretText, code}
use picocash.Sdk.Store.{Proof}
use picocash.Sdk.Locks.{sign_proof}
use picocash.Sdk.Locks.Opens.{verify_spend-sign_proof}

abbrev options : LockOptions
options = record {
  nonce = none;
  locktime = some 500;
  refund = 103 ∷ [];
  pubkeys = 101 ∷ [];
  n_sigs = none;
}

-- The secret locked to the key 100, with the tags as the toy_secrets writes them.
abbrev locked_secret : Text
locked_secret =
    code (7 ∷ 100 ∷ code (0 ∷ 500 ∷ []) ∷ code (1 ∷ 103 ∷ []) ∷ code (2 ∷ 101 ∷ []) ∷ [])

abbrev locked : Proof
locked = record {
  amount = 4;
  keyset_id = 7;
  secret = locked_secret;
  c = 1;
  dleq = none;
  witness = none;
}

made_locked : p2pk_secret_hex toy_secrets 7 100 options ≡ ok locked_secret
unfolding p2pk_secret_hex locktime_tag keys_tag sigs_tag all_pubkeys
made_locked = refl

locked_secret_reads :
    parse_p2pk_secret toy_secrets locked_secret
    ≡ ok (some (conditions_of toy_secrets toy_secrets-IsSecretText 100 options))
locked_secret_reads =
    parse_p2pk_secret-p2pk_secret_hex toy_secrets toy_secrets-IsSecretText 7 100 options
      locked_secret made_locked

verify_spend-sign_proof_example :
    (signed : Proof) × (sign_proof toy_secrets 100 locked ≡ ok signed)
    × (signed.secret ≡ locked_secret)
    × (verify_spend toy_secrets signed.secret signed.witness 499 ≡ true)
unfolding parse_p2pk_witness
verify_spend-sign_proof_example =
    verify_spend-sign_proof toy_secrets toy_secrets-IsSecretText 7 100 options locked [] 499
      made_locked refl refl refl
