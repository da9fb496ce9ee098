-- ===== src/Acceptor.antt =====
-- packages/mppx-method: the service side of the payment method. types.ts, the stores' interface and
-- the pipeline of acceptor.ts. The clock is read once in a call.
pub mod Settle
pub mod Memory
pub mod Pipeline
pub mod Taken
pub mod SingleUse
pub mod Claims
pub mod Agent
pub mod Adapter
mod Tests
use picocash.Prelude.{
  ℕ, ◌+◌, Text, Bool, true, false, not, Option, none, some, List, [], ◌∷◌, map, length, sum_by,
  ◌==◌, ◌&&◌, ltb, leb, if◌then◌else◌,
}
use picocash.Result.{Result, ok, err, ensure, ◌>>=◌, ◌>>◌}
use picocash.Dict.{lookup}
use picocash.Sdk.Blinding.{decompose, max_safe_integer}
use picocash.Sdk.Store.{Proof, Dleq, unique_from, ys_of}
use picocash.Crypto.P2pk.{P2pkConditions}

pub record KeysetInfo : Type 0 where
  pub id : Text
  pub unit : Text
  pub keys : List (ℕ × Text)

pub record TrustedMint : Type 0 where
  pub url : Text
  pub keyset : KeysetInfo

pub record PicocashChallenge : Type 0 where
  pub realm : Text
  pub challenge_id : Text
  pub nonce : Text
  pub amount : ℕ
  pub unit : Text
  pub mints : List (Text × Text)
  pub expiry : ℕ
  pub pubkey : Option Text

pub record PicocashCredential : Type 0 where
  pub challenge_id : Text
  pub mint : Text
  pub keyset_id : Text
  pub proofs : List Proof

pub data Settlement : Type 0 where
  pending settled double_spent : Settlement

pub record PicocashReceipt : Type 0 where
  pub challenge_id : Text
  pub accepted_at : ℕ
  pub amount : ℕ
  pub settlement : Settlement
  pub checkstate_ref : Option Text

pub data CredentialRejected : Type 0 where
  unknown_challenge challenge_expired challenge_already_paid mint_not_allowed : CredentialRejected
  unit_mismatch binding_invalid amount_invalid dleq_invalid duplicate_token : CredentialRejected

pub record ChallengeState : Type 0 where
  pub challenge : PicocashChallenge
  pub credential : Option PicocashCredential
  pub receipt : Option PicocashReceipt

-- The numbers are the clock, in seconds.
pub record AcceptorStore (S : Type 0) : Type 0 where
  pub get_challenge : Text → S → Option ChallengeState
  pub put_challenge : ℕ → ChallengeState → S → S
  pub has_any_y : List Text → S → Bool
  pub accept : ℕ → ChallengeState → List Text → S → Bool × S

pub record PcBind : Type 0 where
  pub nonce : Text
  pub realm : Text
  pub salt : Text

-- What the acceptor calls of packages/sdk and packages/crypto. `none` of `verify_dleq_proof` is an
-- exception; `parse_p2pk_secret` gives `none` also where the parser throws.
pub record Proofs : Type 0 where
  pub y_of_secret : Text → Text
  pub parse_pc_bind : Text → Option PcBind
  pub parse_p2pk_secret : Text → Option P2pkConditions
  pub verify_dleq_proof : Text → Text → Text → Text → Text → Text → Option Bool
  pub lower : Text → Text

pub record Acceptor : Type 0 where
  pub realm : Text
  pub mints : List TrustedMint
  pub ttl : ℕ
  pub max_amount : ℕ
  pub lock_pubkey : Option Text

pub data AcceptorError : Type 0 where
  no_mints bad_amount : AcceptorError

pub record AcceptorOptions : Type 0 where
  pub realm : Text
  pub mints : List TrustedMint
  pub challenge_ttl_seconds : Option ℕ
  pub max_amount : Option ℕ
  pub lock_pubkey : Option Text

abbrev pub get_or {ℓ} : {A : Type ℓ} → Option A → A → A
get_or none d = d
get_or (some a) d = a

-- The constructor of `PicocashAcceptor`.
unfoldable pub new_acceptor : AcceptorOptions → Result AcceptorError Acceptor
new_acceptor options = elim options.mints [
  | [] ↦ err no_mints
  | m ∷ ms ↦ ok (record {
    realm = options.realm;
    mints = m ∷ ms;
    ttl = get_or options.challenge_ttl_seconds 300;
    max_amount = get_or options.max_amount 10000000;
    lock_pubkey = options.lock_pubkey;
  })
]

-- An empty text, which JavaScript takes for false.
abbrev pub empty_text : Text
empty_text = 1

unfoldable pub pubkey_of : List (ℕ × Text) → ℕ → Option Text
pubkey_of keys amount = elim (lookup amount keys) [
  | none ↦ none
  | some key ↦ if key == empty_text then none else some key
]

unfoldable pub find_mint : Text → Text → List TrustedMint → Option TrustedMint
find_mint url keyset_id [] = none
find_mint url keyset_id (m ∷ ms) =
    if m.url == url && m.keyset.id == keyset_id then some m else find_mint url keyset_id ms

abbrev pub all_of {ℓ} : {A : Type ℓ} → (A → Bool) → List A → Bool
all_of test [] = true
all_of test (x ∷ xs) = test x && all_of test xs

-- verify.ts, `verifyProofOffline`
unfoldable pub verify_proof_offline : Proofs → KeysetInfo → Proof → Bool
verify_proof_offline c keyset proof =
    if proof.keyset_id == keyset.id
    then elim (pubkey_of keyset.keys proof.amount) [
      | none ↦ false
      | some pubkey ↦ elim proof.dleq [
        | none ↦ false
        | some dleq ↦
            get_or (c.verify_dleq_proof proof.secret proof.c dleq.r pubkey dleq.e dleq.s) false
      ]
    ]
    else false

abbrev same_text : Option Text → Text → Bool
same_text none t = false
same_text (some u) t = u == t

-- `lock.locktime === undefined || lock.locktime > now + 60`
abbrev still_locked : Option ℕ → ℕ → Bool
still_locked none now = true
still_locked (some t) now = ltb (now + 60) t

module _ (c : Proofs) (acceptor : Acceptor) where
  bound_by_nonce : PicocashChallenge → Proof → Bool
  bound_by_nonce challenge proof = elim (c.parse_pc_bind proof.secret) [
    | none ↦ false
    | some bind ↦ bind.nonce == challenge.nonce && bind.realm == challenge.realm
  ]

  locked_to_us : PicocashChallenge → ℕ → Proof → Bool
  locked_to_us challenge now proof = elim (c.parse_p2pk_secret proof.secret) [
    | none ↦ false
    | some lock ↦ elim challenge.pubkey [
      | none ↦ false
      | some pubkey ↦
          not (pubkey == empty_text)
          && same_text acceptor.lock_pubkey pubkey
          && lock.lock_key == pubkey
          && lock.n_sigs == 1
          && still_locked lock.locktime now
    ]
  ]

  unfoldable pub is_bound : PicocashChallenge → ℕ → Proof → Bool
  unfolding bound_by_nonce locked_to_us
  is_bound challenge now proof =
      if bound_by_nonce challenge proof then true else locked_to_us challenge now proof

  -- The checks 1 to 6 of `process`, but for the store's memory of keys.
  unfoldable pub check :
      ChallengeState → PicocashCredential → ℕ → Result CredentialRejected (List Text)
  check state credential now = do
    let challenge = state.challenge
    elim state.receipt [ none ↦ ok (tt {0}) | some _ ↦ err challenge_already_paid ]
    ensure (not (ltb challenge.expiry now)) challenge_expired
    trusted ← elim (find_mint credential.mint credential.keyset_id acceptor.mints) [
      | none ↦ err mint_not_allowed
      | some m ↦ ok m
    ]
    ensure (c.lower trusted.keyset.unit == c.lower challenge.unit) unit_mismatch
    ensure (all_of (is_bound challenge now) credential.proofs) binding_invalid
    ensure (sum_by Proof.amount credential.proofs == challenge.amount) amount_invalid
    ensure
        (all_of
          (λ p. elim (pubkey_of trusted.keyset.keys p.amount) [ none ↦ false | some _ ↦ true ])
          credential.proofs)
        amount_invalid
    ensure (all_of (verify_proof_offline c trusted.keyset) credential.proofs) dleq_invalid
    let ys = ys_of c.y_of_secret credential.proofs
    ensure (length (unique_from [] ys) == length ys) duplicate_token
    ok ys

  unfoldable pub pending_receipt : PicocashChallenge → ℕ → PicocashReceipt
  pending_receipt challenge now = record {
    challenge_id = challenge.challenge_id;
    accepted_at = now;
    amount = challenge.amount;
    settlement = pending;
    checkstate_ref = none;
  }

  module _ {S : Type 0} (store : AcceptorStore S) where
    unfoldable pub resolve_challenge :
        PicocashCredential → Option PicocashChallenge → S → Result CredentialRejected ChallengeState
    resolve_challenge credential external s = elim (store.get_challenge credential.challenge_id s) [
      | some state ↦ ok state
      | none ↦ elim external [
        | none ↦ err unknown_challenge
        | some challenge ↦
            if challenge.challenge_id == credential.challenge_id
            then ok (record { challenge = challenge; credential = none; receipt = none })
            else err unknown_challenge
      ]
    ]

    -- Everything that comes before the store is written, with the state to write and the keys.
    unfoldable pub precheck :
        PicocashCredential
        → Option PicocashChallenge
        → ℕ
        → S
        → Result CredentialRejected (ChallengeState × List Text)
    precheck credential external now s = do
      state ← resolve_challenge credential external s
      ys ← check state credential now
      ensure (not (store.has_any_y ys s)) duplicate_token
      ok (
        record {
          challenge = state.challenge;
          credential = some credential;
          receipt = some (pending_receipt state.challenge now);
        },
        ys,
      )

    -- `verifyCredential`, that is `process` where it consumes.
    unfoldable pub verify_credential :
        PicocashCredential
        → Option PicocashChallenge
        → ℕ
        → S
        → Result CredentialRejected PicocashReceipt × S
    verify_credential credential external now s = elim (precheck credential external now s) [
      | err e ↦ (err e, s)
      | ok (next, ys) ↦
          let (accepted, s') = store.accept now next ys s in
          elim accepted [
            | true ↦ (ok (pending_receipt next.challenge now), s')
            | false ↦ (err challenge_already_paid, s')
          ]
    ]

    -- `precheckCredential`: it looks the challenge up once more, and writes nothing.
    unfoldable pub precheck_credential :
        PicocashCredential
        → Option PicocashChallenge
        → ℕ
        → S
        → Result CredentialRejected PicocashChallenge
    precheck_credential credential external now s = do
      precheck credential external now s
      state ← resolve_challenge credential external s
      ok state.challenge

    -- `createChallenge`, with the id and the nonce drawn.
    unfoldable pub create_challenge :
        ℕ → Text → Text → ℕ → S → Result AcceptorError PicocashChallenge × S
    create_challenge amount id nonce now s =
        if amount == 0
        then (err bad_amount, s)
        else if ltb acceptor.max_amount amount
        then (err bad_amount, s)
        else if ltb max_safe_integer amount
        then (err bad_amount, s)
        else elim acceptor.mints [
          | [] ↦ (err no_mints, s)
          | m ∷ ms ↦
              let challenge : PicocashChallenge = record {
                realm = acceptor.realm;
                challenge_id = id;
                nonce = nonce;
                amount = amount;
                unit = m.keyset.unit;
                mints = map (λ (t : TrustedMint). (t.url, t.keyset.id)) (m ∷ ms);
                expiry = now + acceptor.ttl;
                pubkey = acceptor.lock_pubkey;
              } in
              (
                ok challenge,
                store.put_challenge now
                    (record { challenge = challenge; credential = none; receipt = none }) s,
              )
        ]
