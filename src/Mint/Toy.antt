-- ===== src/Mint/Toy.antt =====
-- A toy signature scheme, a chain and a deposit oracle, for runs of the mint on concrete inputs.
use picocash.Prelude.{ℕ, ◌*◌, Text, true, false, none, some, List, [], ◌∷◌, ◌==◌, sum_by, contains}
use picocash.Mint.Data.{Crypto, Keyset, BlindedMessage, ProofInput}
use picocash.Mint.Issue.{Config, Oracle}
use picocash.Mint.Melt.{Executor}
use picocash.Mint.Server.{Context}

-- A signature of `m` under the key `k` is `m * k`, and a secret is its own point.
abbrev pub toy_crypto : Crypto
toy_crypto = record {
  verify_proof = λ secret c k. secret * k == c;
  verify_p2pk_spend = λ secret witness now. true;
  hash_to_curve = λ secret. secret;
  sign_blinded_message = λ b k. some (b * k);
  create_dleq_proof = λ b k. some (b, k);
  hash_keys = λ ys. sum_by (λ y. y) ys;
}

abbrev pub keyset : Keyset
keyset = record {
  id = 7;
  unit = 1;
  keys =
      (1, record { privkey = 11; pubkey = 12 })
      ∷ (2, record { privkey = 13; pubkey = 14 })
      ∷ (4, record { privkey = 17; pubkey = 18 })
      ∷ [];
}

abbrev pub config : Config
config = record {
  unit = 1;
  max_mint_amount = 100;
  max_outstanding = 10;
  melt_fee = 1;
  quote_ttl_seconds = 900;
}

-- The chain is the list of the melts that it has paid; a payout to address 0 fails.
abbrev pub chain : Executor (List Text)
chain = record {
  execute = λ to amount id paid. elim (to == 0) [ true ↦ (none, paid) | _ ↦ (some id, id ∷ paid) ];
  is_paid = λ id paid. some (contains id paid);
}

abbrev pub context : Context (List Text)
context = record { crypto = toy_crypto; config = config; keyset = keyset; payout = some chain }

abbrev pub oracle : Oracle
oracle = record {
  get_deposit = λ id. some (record { amount = 6; tx_ref = 99 });
  is_publication_overdue = false;
  now = 1000;
}

abbrev pub output : ℕ → Text → BlindedMessage
output amount b = record { amount = amount; keyset_id = 7; b = b }

abbrev pub token : ℕ → Text → ℕ → ProofInput
token amount secret k = record {
  amount = amount;
  keyset_id = 7;
  secret = secret;
  c = secret * k;
  witness = none;
}
