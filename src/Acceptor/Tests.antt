-- ===== src/Acceptor/Tests.antt =====
-- Runs of the acceptor on concrete inputs: a service of one mint, and two credentials for one challenge.
use picocash.Prelude.{
  ℕ, ◌+◌, ◌≡◌, refl, ◌≢◌, ◌↔◌, Text, ==→≡, true, false, none, some, List, [], ◌∷◌, arith, contains,
  inr, ◌==◌,
}
use picocash.Result.{ok, err}
use picocash.Dict.{lookup, put}
use picocash.Sdk.Store.{Proof, unique_from, ys_of}
use picocash.Sdk.Store.Keys.{NoRepeat}
use picocash.Sdk.Blinding.{decompose, split}
use picocash.Acceptor.{
  TrustedMint, PicocashChallenge, PicocashCredential, PicocashReceipt, ChallengeState, Proofs,
  Acceptor, pending, settled, CredentialRejected, challenge_expired, check, find_mint, is_bound,
  pubkey_of, verify_proof_offline, precheck, precheck_credential, verify_credential,
  resolve_challenge, pending_receipt, create_challenge,
}
use picocash.Acceptor.Memory.{
  MemoryStore, default_options, memory_store, memory_put, memory_accept, has_y, put_ys, evict,
  sweep_challenges, sweep_ys,
}
use picocash.Acceptor.Memory.Retention.{
  StoreCall, to_put, to_accept, perform_calls, memory_accept-once,
}
use picocash.Acceptor.Memory.Atomic.{memory_store-IsAtomic, memory_store-IsLasting}
use picocash.Acceptor.Pipeline.{IsAcceptable, IsAtomic, accepted_state}
use picocash.Acceptor.Taken.{verify_all}
use picocash.Acceptor.SingleUse.{
  verify_credential-IsAcceptable, verify_credential-once, precheck_credential_iff,
}
use picocash.Acceptor.Settle.{
  token_already_spent, swap_accepted, settled_receipt, settle, get_receipt,
}
use picocash.Acceptor.Settle.Kept.{Spares}
use picocash.Acceptor.Settle.Final.{settle-again}
use picocash.Acceptor.Claims.{
  paid_key, y_key, Kv, has_key, has_any_claim, delete_key, fresh, accepted, refused, Thread, Event,
  proceed, delete_nth, to_phase, advance, take_step, run_schedule,
}
use picocash.Acceptor.Claims.Exclusive.{run_schedule-exclusive, run_schedule-unclaimed}

-- A scheme in which the point of a secret is the secret plus 100, a signature is the secret plus one,
-- and each secret is bound to the nonce 5 of the realm 7.
abbrev toy : Proofs
toy = record {
  y_of_secret = λ secret. secret + 100;
  parse_pc_bind = λ secret. some (record { nonce = 5; realm = 7; salt = secret });
  parse_p2pk_secret = λ secret. none;
  verify_dleq_proof = λ secret c r pubkey e s. some (c == secret + 1);
  lower = λ t. t;
}

abbrev mint : TrustedMint
mint = record { url = 21; keyset = record { id = 22; unit = 23; keys = (1, 31) ∷ (2, 32) ∷ [] } }

abbrev shop : Acceptor
shop = record { realm = 7; mints = mint ∷ []; ttl = 300; max_amount = 1000; lock_pubkey = none }

abbrev challenge : PicocashChallenge
challenge = record {
  realm = 7;
  challenge_id = 40;
  nonce = 5;
  amount = 3;
  unit = 23;
  mints = (21, 22) ∷ [];
  expiry = 400;
  pubkey = none;
}

abbrev open_state : ChallengeState
open_state = record { challenge = challenge; credential = none; receipt = none }

abbrev signed : ℕ → Text → Proof
signed amount secret = record {
  amount = amount;
  keyset_id = 22;
  secret = secret;
  c = secret + 1;
  dleq = some (record { e = 1; s = 2; r = 3 });
  witness = none;
}

abbrev credential : PicocashCredential
credential = record {
  challenge_id = 40;
  mint = 21;
  keyset_id = 22;
  proofs = signed 1 50 ∷ signed 2 51 ∷ [];
}

abbrev empty : MemoryStore
empty = record { challenges = []; ys = [] }

abbrev asked : MemoryStore
asked = record { challenges = (40, open_state) ∷ []; ys = [] }

abbrev receipt : PicocashReceipt
receipt = record {
  challenge_id = 40;
  accepted_at = 120;
  amount = 3;
  settlement = pending;
  checkstate_ref = none;
}

abbrev paid_state : ChallengeState
paid_state = record { challenge = challenge; credential = some credential; receipt = some receipt }

abbrev paid : MemoryStore
paid = record { challenges = (40, paid_state) ∷ []; ys = (150, 86520) ∷ (151, 86520) ∷ [] }

created :
    create_challenge toy shop (memory_store default_options) 3 40 5 100 empty
    ≡ (ok challenge, asked)
unfolding create_challenge memory_put put evict sweep_challenges sweep_ys
created = refl

verified :
    verify_credential toy shop (memory_store default_options) credential none 120 asked
    ≡ (ok receipt, paid)
unfolding verify_credential precheck resolve_challenge check find_mint is_bound pubkey_of
    verify_proof_offline unique_from ys_of pending_receipt memory_accept put put_ys has_y lookup
verified = refl

expired :
    verify_credential toy shop (memory_store default_options) credential none 401 asked
    ≡ (err challenge_expired, asked)
unfolding verify_credential precheck resolve_challenge check lookup
expired = refl

abbrev other_challenge : PicocashChallenge
other_challenge = record challenge { challenge_id = 41; amount = 2 }

-- Another credential with one of the same proofs.
abbrev second : PicocashCredential
second = record { challenge_id = 41; mint = 21; keyset_id = 22; proofs = signed 2 51 ∷ [] }

verify_credential-IsAcceptable_example :
    (state : ChallengeState) × (ys : List Text) × (resolve_challenge toy shop
        (memory_store default_options)
        credential
        none
        asked
      ≡ ok state)
    × IsAcceptable toy shop state credential 120 ys
    × (has_y asked.ys ys ≡ false)
    × (memory_accept default_options 120
          (accepted_state toy shop (memory_store default_options) state credential 120)
          ys
          asked
        ≡ (true, paid))
    × (receipt ≡ pending_receipt toy shop state.challenge 120)
verify_credential-IsAcceptable_example =
    verify_credential-IsAcceptable toy shop (memory_store default_options) credential none 120 asked
      paid receipt verified

verify_credential-once_example :
    (e : CredentialRejected) × (verify_credential toy shop
        (memory_store default_options)
        second
        (some other_challenge)
        130
        (verify_all toy shop (memory_store default_options) ((credential, none, 125) ∷ []) paid)
      ≡ (
        err e,
        verify_all toy shop (memory_store default_options) ((credential, none, 125) ∷ []) paid,
      ))
unfolding ys_of
verify_credential-once_example =
    verify_credential-once toy shop (memory_store default_options)
      (memory_store-IsAtomic default_options) (memory_store-IsLasting default_options) credential
      second none (some other_challenge) 120 130 asked paid receipt ((credential, none, 125) ∷ [])
      verified (inr (151, refl, refl))

asked-IsKeyed :
    (id : Text) (state : ChallengeState)
    → lookup id asked.challenges ≡ some state
    → state.challenge.challenge_id ≡ id
unfolding lookup
asked-IsKeyed id state h = ground (arith, h, ==→≡ 40 id)

precheck_credential_iff_example :
    ((c : PicocashChallenge) × (precheck_credential toy shop
          (memory_store default_options)
          credential
          none
          120
          asked
        ≡ ok c))
    ↔ ((r : PicocashReceipt) × (s : MemoryStore) × (verify_credential toy shop
            (memory_store default_options)
            credential
            none
            120
            asked
          ≡ (ok r, s)))
precheck_credential_iff_example =
    precheck_credential_iff toy shop (memory_store default_options)
      (memory_store-IsAtomic default_options) credential none 120 asked asked-IsKeyed

first_accepted : memory_accept default_options 120 paid_state (150 ∷ 151 ∷ []) asked ≡ (true, paid)
unfolding memory_accept put put_ys has_y lookup
first_accepted = refl

memory_accept-once_example :
    memory_accept default_options 86000 open_state
      (149 ∷ 150 ∷ [])
      (perform_calls default_options ((500, to_put open_state) ∷ []) paid)
    ≡ (false, perform_calls default_options ((500, to_put open_state) ∷ []) paid)
memory_accept-once_example =
    memory_accept-once default_options 120 86000 paid_state open_state (150 ∷ 151 ∷ [])
      (149 ∷ 150 ∷ []) 150 asked paid ((500, to_put open_state) ∷ []) first_accepted refl refl
      (omega arith, tt)

abbrev settled_receipt_example : PicocashReceipt
settled_receipt_example = record receipt { settlement = settled; checkstate_ref = some 22 }

abbrev after_settling : MemoryStore
after_settling = record {
  challenges = (40, record paid_state { receipt = some settled_receipt_example }) ∷ [];
  ys = (150, 86520) ∷ (151, 86520) ∷ [];
}

-- A mint that gives fresh proofs of the amounts that it is asked for.
abbrev fresh_proofs : List ℕ → List Proof
fresh_proofs [] = []
fresh_proofs (a ∷ rest) = signed a (a + 60) ∷ fresh_proofs rest

settled_once :
    settle
      (memory_store default_options)
      none
      (λ proofs amounts. ok (fresh_proofs amounts))
      130
      40
      paid
    ≡ (ok settled_receipt_example, after_settling)
unfolding settle swap_accepted settled_receipt decompose split lookup memory_put put evict
    sweep_challenges sweep_ys
settled_once = refl

paid-IsKeyed :
    (id : Text) (state : ChallengeState)
    → lookup id paid.challenges ≡ some state
    → state.challenge.challenge_id ≡ id
unfolding lookup
paid-IsKeyed id state h = ground (arith, h, ==→≡ 40 id)

-- Another challenge is put, and another one accepted.
abbrev since_then : List (ℕ × StoreCall)
since_then =
    (132, to_put (record { challenge = other_challenge; credential = none; receipt = none }))
    ∷ (
      135,
      to_accept (record { challenge = other_challenge; credential = none; receipt = none })
          (180 ∷ []),
    )
    ∷ []

since_then-Spares : Spares default_options 40 since_then after_settling
unfolding memory_put memory_accept sweep_challenges evict put sweep_ys lookup has_y put_ys
since_then-Spares = (refl, omega arith, tt)

settle-again_example :
    (settle
        (memory_store default_options)
        none
        (λ proofs amounts. err token_already_spent)
        140
        40
        (perform_calls default_options since_then after_settling)
      ≡ (ok settled_receipt_example, perform_calls default_options since_then after_settling))
    × (get_receipt
          (memory_store default_options)
          40
          (perform_calls default_options since_then after_settling)
        ≡ some settled_receipt_example)
settle-again_example =
    settle-again default_options none none (λ proofs amounts. ok (fresh_proofs amounts))
      (λ proofs amounts. err token_already_spent) 130 140 40 paid after_settling
      settled_receipt_example since_then paid-IsKeyed settled_once since_then-Spares

abbrev called : Text → List Text → Thread
called id ys = record { id = id; ys = ys; phase = fresh }

-- Two calls that do not meet, and a third with a key of the first, whose claims it rolls back.
abbrev calls : List Thread
calls = called 1 (10 ∷ 11 ∷ []) ∷ called 2 (12 ∷ []) ∷ called 3 (13 ∷ 10 ∷ []) ∷ []

abbrev schedule : List (ℕ × Event)
schedule =
    (0, proceed)
    ∷ (2, proceed)
    ∷ (1, proceed)
    ∷ (0, proceed)
    ∷ (2, proceed)
    ∷ (2, proceed)
    ∷ (0, proceed)
    ∷ (2, delete_nth 0)
    ∷ (0, proceed)
    ∷ (1, proceed)
    ∷ (2, proceed)
    ∷ (1, proceed)
    ∷ []

abbrev after_calls : List Thread × Kv
after_calls = (
  record { id = 1; ys = 10 ∷ 11 ∷ []; phase = accepted }
      ∷ record { id = 2; ys = 12 ∷ []; phase = accepted }
      ∷ record { id = 3; ys = 13 ∷ 10 ∷ []; phase = refused }
      ∷ [],
  y_key 12 ∷ y_key 11 ∷ y_key 10 ∷ paid_key 2 ∷ paid_key 1 ∷ [],
)

ran : run_schedule schedule calls [] ≡ after_calls
unfolding run_schedule take_step advance to_phase has_key delete_key
ran = refl

run_schedule-exclusive_example :
    (◌≢◌ {A = Text} 1 2)
    × ((y : Text) → contains y (10 ∷ 11 ∷ []) ≡ true → contains y (12 ∷ []) ≡ false)
unfolding run_schedule take_step advance to_phase has_key delete_key
run_schedule-exclusive_example =
    run_schedule-exclusive schedule calls [] 0 1
      (record { id = 1; ys = 10 ∷ 11 ∷ []; phase = accepted })
      (record { id = 2; ys = 12 ∷ []; phase = accepted }) (refl, (refl, (refl, tt))) (λ e. cc e)
      refl refl refl refl

run_schedule-unclaimed_example :
    (has_key (paid_key 1) [] ≡ false)
    × ((y : Text) → contains y (10 ∷ 11 ∷ []) ≡ true → has_key (y_key y) [] ≡ false)
    × NoRepeat (10 ∷ 11 ∷ [])
    × (has_key (paid_key 1) after_calls.1 ≡ true)
    × ((y : Text) (zs : List Text)
        → contains y (10 ∷ 11 ∷ []) ≡ true
        → contains y zs ≡ true
        → has_any_claim zs after_calls.1 ≡ true)
unfolding run_schedule take_step advance to_phase has_key delete_key
run_schedule-unclaimed_example =
    run_schedule-unclaimed schedule calls [] 0
      (record { id = 1; ys = 10 ∷ 11 ∷ []; phase = accepted }) (refl, (refl, (refl, tt))) refl refl

memory_store-IsAtomic_example : IsAtomic (memory_store default_options)
memory_store-IsAtomic_example = memory_store-IsAtomic default_options
