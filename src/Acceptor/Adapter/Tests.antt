-- ===== src/Acceptor/Adapter/Tests.antt =====
-- A payment through the adapter, settled first, and prices in base units.
use picocash.Prelude.{ℕ, ◌+◌, ◌≡◌, refl, none, some, List, [], ◌∷◌, ◌==◌}
use picocash.Result.{Result, ok, err}
use picocash.Dict.{lookup, put}
use picocash.Sdk.Store.{Proof, unique_from, ys_of}
use picocash.Sdk.Blinding.{decompose, split}
use picocash.Acceptor.{
  Proofs, Acceptor, AcceptorStore, TrustedMint, PicocashChallenge, PicocashReceipt, Settlement,
  check, find_mint, is_bound, pubkey_of, verify_proof_offline, precheck, verify_credential,
  resolve_challenge, pending_receipt,
}
use picocash.Acceptor.Memory.{
  MemoryStore, default_options, memory_store, memory_put, memory_accept, has_y, put_ys, evict,
  sweep_challenges, sweep_ys,
}
use picocash.Acceptor.Settle.{
  SwapFailure, token_already_spent, swap_accepted, settled_receipt, settle,
}
use picocash.Acceptor.Adapter.{
  WireText, MppxChallenge, MppxReceipt, Payload, settle_first, double_spent_at_mint, unit_of,
  to_picocash_challenge, to_picocash_credential, conclude, accept_payload, broadcast,
}
use picocash.Acceptor.Adapter.Success.{promised, broadcast_success}
use picocash.Acceptor.Adapter.BaseUnits.{digit, point, too_precise, strip_zeros, to_base_units}

abbrev wire : WireText
wire = record {
  is_tip20 = λ t. t == 9;
  tip20 = λ id currency. 23;
  lower = λ t. t;
  to_number = λ t. t;
  seconds = λ t. t;
}

abbrev scheme : Proofs
scheme = record {
  y_of_secret = λ secret. secret + 100;
  parse_pc_bind = λ secret. some (record { nonce = 5; realm = 7; salt = secret });
  parse_p2pk_secret = λ secret. none;
  verify_dleq_proof = λ secret c r pubkey e s. some (c == secret + 1);
  lower = λ t. t;
}

abbrev trusted : TrustedMint
trusted = record { url = 21; keyset = record { id = 22; unit = 23; keys = (2, 32) ∷ [] } }

abbrev shop : Acceptor
shop = record { realm = 7; mints = trusted ∷ []; ttl = 300; max_amount = 1000; lock_pubkey = none }

abbrev asked : MppxChallenge
asked = record {
  id = 40;
  realm = 7;
  amount = 2;
  currency = 60;
  details = record {
    chain_id = some 42431;
    unit = none;
    nonce = 5;
    mints = (21, 22 ∷ []) ∷ [];
    pubkey = none;
  };
  expires = some 400;
}

abbrev held : Proof
held = record {
  amount = 2;
  keyset_id = 22;
  secret = 50;
  c = 51;
  dleq = some (record { e = 1; s = 2; r = 3 });
  witness = none;
}

abbrev payload : Payload
payload = record { mint = 21; keyset_id = 22; proofs = held ∷ [] }

abbrev answered : MppxReceipt
answered = record { timestamp = 120; reference = 40; settlement = Settlement.settled; amount = 2 }

abbrev no_state : MemoryStore
no_state = record { challenges = []; ys = [] }

abbrev swapped : List Proof → List ℕ → Result SwapFailure (List Proof)
swapped proofs amounts = ok (held ∷ [])

abbrev spent : List Proof → List ℕ → Result SwapFailure (List Proof)
spent proofs amounts = err token_already_spent

abbrev store_of : AcceptorStore MemoryStore
store_of = memory_store default_options

paid_first :
    (broadcast wire scheme shop store_of none swapped settle_first asked payload 120 no_state).0
    ≡ ok answered
unfolding broadcast accept_payload conclude to_picocash_challenge unit_of verify_credential precheck
    resolve_challenge check find_mint is_bound pubkey_of verify_proof_offline unique_from ys_of
    pending_receipt memory_accept memory_put put put_ys has_y lookup evict sweep_challenges sweep_ys
    settle swap_accepted settled_receipt decompose split
paid_first = refl

-- Proofs that were spent at the mint are no success.
spent_before :
    (broadcast wire scheme shop store_of none spent settle_first asked payload 120 no_state).0
    ≡ err double_spent_at_mint
unfolding broadcast accept_payload conclude to_picocash_challenge unit_of verify_credential precheck
    resolve_challenge check find_mint is_bound pubkey_of verify_proof_offline unique_from ys_of
    pending_receipt memory_accept memory_put put put_ys has_y lookup evict sweep_challenges sweep_ys
    settle swap_accepted settled_receipt decompose split
spent_before = refl

broadcast_success_example :
    (pc : PicocashChallenge) × (accepted : PicocashReceipt) × (to_picocash_challenge wire asked 120
      ≡ ok pc)
    × ((verify_credential scheme shop store_of
          (to_picocash_credential pc.challenge_id payload)
          (some pc)
          120
          no_state).0
        ≡ ok accepted)
    × (answered.settlement ≡ promised settle_first)
broadcast_success_example =
    broadcast_success wire scheme shop store_of none swapped settle_first asked payload 120 no_state
      answered paid_first

-- 0.25 with six decimals, and with one.
quarter :
    to_base_units (digit 0 ∷ point ∷ digit 2 ∷ digit 5 ∷ []) 6
    ≡ ok (digit 2 ∷ digit 5 ∷ digit 0 ∷ digit 0 ∷ digit 0 ∷ digit 0 ∷ [])
unfolding to_base_units strip_zeros
quarter = refl

quarter_too_precise : to_base_units (digit 0 ∷ point ∷ digit 2 ∷ digit 5 ∷ []) 1 ≡ err too_precise
unfolding to_base_units
quarter_too_precise = refl
