-- ===== src/Mcp/Tests.antt =====
-- An agent with an open note and two that are locked to a merchant.
use picocash.Prelude.{
  ℕ, ◌≡◌, ◌⊎◌, refl, Text, true, none, some, List, [], ◌∷◌, All, ◌==◌, ltb, if◌then◌else◌,
}
use picocash.Result.{ok}
use picocash.Crypto.P2pk.{parse_conditions}
use picocash.Crypto.P2pk.Secret.{SecretText, SecretShape, not_p2pk, p2pk, parse_p2pk_secret}
use picocash.Sdk.Store.{Proof}
use picocash.Sdk.Locks.{lock_of}
use picocash.Acceptor.{PicocashChallenge}
use picocash.Acceptor.Agent.{index_from}
use picocash.Mcp.{Signer, is_ours, can_spend, spendable_of, locked_to_merchant}
use picocash.Mcp.Picker.{subset_loop, pick_exact_subset}
use picocash.Mcp.Fetch.{locked_for, present}
use picocash.Mcp.Fetch.Presented.{IsOpen, IsLockedTo, present-IsOpen}

-- Secrets from 100 on are locked, to their tens.
abbrev shape : Text → SecretShape
shape s = if ltb s 100 then not_p2pk else if ltb s 200 then p2pk 0 10 [] else p2pk 0 20 []

abbrev locks : SecretText
locks = record {
  is_pubkey = λ k. true;
  is_sig_inputs = λ v. true;
  to_number = λ t. some t;
  of_number = λ n. n;
  write_secret = λ nonce key tags. 100;
  read_secret = shape;
  is_sig = λ s. true;
  write_witness = λ sigs. 1;
  read_witness = λ w. some [];
  sign = λ secret key. key;
  public_key = λ key. key;
  verify_sig = λ secret sig key. sig == key;
}

abbrev agent : Signer
agent = record { locks = locks; private_key = 30; lock_key = 30; mine = 30; x_only = λ k. k }

abbrev note : ℕ → Text → Proof
note amount secret = record {
  amount = amount;
  keyset_id = 7;
  secret = secret;
  c = 0;
  dleq = none;
  witness = none;
}

abbrev held : List Proof
held = note 4 50 ∷ note 2 101 ∷ note 1 102 ∷ note 8 201 ∷ []

abbrev challenge : ℕ → PicocashChallenge
challenge amount = record {
  realm = 1;
  challenge_id = 40;
  nonce = 2;
  amount = amount;
  unit = 23;
  mints = [];
  expiry = 400;
  pubkey = some 10;
}

presented :
    present agent (challenge 3) held
    ≡ ok (note 2 101 ∷ note 1 102 ∷ [], note 4 50 ∷ note 8 201 ∷ [])
unfolding present locked_for spendable_of can_spend lock_of parse_p2pk_secret parse_conditions
    locked_to_merchant is_ours pick_exact_subset subset_loop index_from
presented = refl

-- The locked notes do not make four, so the open one is presented.
presented_open :
    present agent (challenge 4) held
    ≡ ok (note 4 50 ∷ [], note 2 101 ∷ note 1 102 ∷ note 8 201 ∷ [])
unfolding present locked_for spendable_of can_spend lock_of parse_p2pk_secret parse_conditions
    locked_to_merchant is_ours pick_exact_subset subset_loop index_from
presented_open = refl

present-IsOpen_example :
    All (IsOpen agent) (note 2 101 ∷ note 1 102 ∷ [])
    ⊎ ((merchant : Text) × ((challenge 3).pubkey ≡ some merchant)
        × All (IsLockedTo agent merchant) (note 2 101 ∷ note 1 102 ∷ []))
present-IsOpen_example =
    present-IsOpen agent (challenge 3) held (note 2 101 ∷ note 1 102 ∷ [])
      (note 4 50 ∷ note 8 201 ∷ []) presented
