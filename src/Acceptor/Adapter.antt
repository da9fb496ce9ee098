-- ===== src/Acceptor/Adapter.antt =====
-- packages/mppx-method/src/mppx.ts: the payment method behind the mppx library. `WireText` stands for
-- the library's and JavaScript's text operations: `tip20` is the text of a derived unit, `to_number`
-- is `Number`, and `seconds` is `Math.floor(Date.parse(…) / 1000)`. The clock is read once in a call.
pub mod BaseUnits
pub mod Success
pub mod Client
mod Tests
use picocash.Prelude.{
  ℕ, ◌+◌, Text, Bool, true, false, Option, none, some, List, [], ◌∷◌, ◌++◌, map, length, sum_by,
  ◌==◌, if◌then◌else◌,
}
use picocash.Result.{Result, ok, err, ensure, ◌>>=◌, ◌>>◌}
use picocash.Sdk.Store.{Proof}
use picocash.Acceptor.{
  Proofs, Acceptor, AcceptorStore, CredentialRejected, PicocashChallenge, PicocashCredential,
  PicocashReceipt, Settlement, double_spent, empty_text, get_or, precheck_credential,
  verify_credential,
}
use picocash.Acceptor.Settle.{SwapFailure, SettleError, settle}

pub record MethodDetails : Type 0 where
  pub chain_id : Option ℕ
  pub unit : Option Text
  pub nonce : Text
  pub mints : List (Text × List Text)
  pub pubkey : Option Text

pub record MppxChallenge : Type 0 where
  pub id : Text
  pub realm : Text
  pub amount : Text
  pub currency : Text
  pub details : MethodDetails
  pub expires : Option Text

pub record Payload : Type 0 where
  pub mint : Text
  pub keyset_id : Text
  pub proofs : List Proof

pub record WireText : Type 0 where
  pub is_tip20 : Text → Bool
  pub tip20 : ℕ → Text → Text
  pub lower : Text → Text
  pub to_number : Text → ℕ
  pub seconds : Text → ℕ

pub data AdapterError : Type 0 where
  explicit_tip20 no_unit : AdapterError
  rejected : CredentialRejected → AdapterError
  unsettled : SettleError → AdapterError
  double_spent_at_mint : AdapterError

-- The pairs of a mint and one of its keysets.
abbrev pub with_mint : Text → List Text → List (Text × Text)
with_mint url ids = map (λ id. (url, id)) ids

abbrev pub pairs_of : List (Text × List Text) → List (Text × Text)
pairs_of [] = []
pairs_of ((url, ids) ∷ mints) = with_mint url ids ++ pairs_of mints

module _ (w : WireText) where
  unfoldable pub unit_of : Option ℕ → Text → Option Text → Result AdapterError Text
  unit_of chain_id currency (some unit) = if w.is_tip20 unit then err explicit_tip20 else ok unit
  unit_of none currency none = err no_unit
  unit_of (some id) currency none = ok (w.tip20 id (w.lower currency))

  -- `challenge.expires ? … : now + 300`
  abbrev pub expiry_of : Option Text → ℕ → ℕ
  expiry_of none now = now + 300
  expiry_of (some expires) now = if expires == empty_text then now + 300 else w.seconds expires

  unfoldable pub to_picocash_challenge : MppxChallenge → ℕ → Result AdapterError PicocashChallenge
  to_picocash_challenge challenge now = do
    unit ← unit_of challenge.details.chain_id challenge.currency challenge.details.unit
    ok (record {
      realm = challenge.realm;
      challenge_id = challenge.id;
      nonce = challenge.details.nonce;
      amount = w.to_number challenge.amount;
      unit = unit;
      mints = pairs_of challenge.details.mints;
      expiry = expiry_of challenge.expires now;
      pubkey = challenge.details.pubkey;
    })

abbrev pub to_picocash_credential : Text → Payload → PicocashCredential
to_picocash_credential challenge_id payload = record {
  challenge_id = challenge_id;
  mint = payload.mint;
  keyset_id = payload.keyset_id;
  proofs = payload.proofs;
}

pub data Mode : Type 0 where
  settle_first accept_then_settle : Mode

-- What `validate` tells of a credential.
pub record Validation : Type 0 where
  pub proofs : ℕ
  pub sum : ℕ

-- The receipt of `broadcast`, whose status is 'success'.
pub record MppxReceipt : Type 0 where
  pub timestamp : ℕ
  pub reference : Text
  pub settlement : Settlement
  pub amount : ℕ

abbrev pub is_double_spent : Settlement → Bool
is_double_spent Settlement.double_spent = true
is_double_spent Settlement.settled = false
is_double_spent Settlement.pending = false

abbrev pub or_rejected : {A : Type 0} → Result CredentialRejected A → Result AdapterError A
or_rejected (ok a) = ok a
or_rejected (err e) = err (rejected e)

-- The answer for a receipt, at a time.
abbrev pub success : ℕ → PicocashReceipt → MppxReceipt
success timestamp receipt = record {
  timestamp = timestamp;
  reference = receipt.challenge_id;
  settlement = receipt.settlement;
  amount = receipt.amount;
}

-- What `broadcast` makes of a settlement.
abbrev pub settled_answer : ℕ → Result SettleError PicocashReceipt → Result AdapterError MppxReceipt
settled_answer now (err e) = err (unsettled e)
settled_answer now (ok receipt) =
    if is_double_spent receipt.settlement
    then err double_spent_at_mint
    else ok (success now receipt)

module _ (w : WireText) (c : Proofs) (acceptor : Acceptor) {S : Type 0}
    (store : AcceptorStore S) where
  unfoldable pub validate : MppxChallenge → Payload → ℕ → S → Result AdapterError Validation
  validate challenge payload now s = do
    pc ← to_picocash_challenge w challenge now
    or_rejected (
        precheck_credential c acceptor store (to_picocash_credential challenge.id payload) (some pc)
          now s)
    ok (record { proofs = length payload.proofs; sum = sum_by Proof.amount payload.proofs })

  module _ (sign : Option (List Proof → List Proof))
      (swap : List Proof → List ℕ → Result SwapFailure (List Proof)) where
    -- What `broadcast` does once the credential is accepted.
    unfoldable pub conclude : Mode → ℕ → PicocashReceipt → S → Result AdapterError MppxReceipt × S
    conclude accept_then_settle now receipt s = (ok (success receipt.accepted_at receipt), s)
    conclude settle_first now receipt s =
        let (answer, s') = settle store sign swap now receipt.challenge_id s in
        (settled_answer now answer, s')

    unfoldable pub accept_payload :
        Mode → PicocashChallenge → Payload → ℕ → S → Result AdapterError MppxReceipt × S
    accept_payload mode pc payload now s =
        let (answer, s') =
          verify_credential c acceptor store (to_picocash_credential pc.challenge_id payload)
            (some pc) now s in
        elim answer [ err e ↦ (err (rejected e), s') | ok receipt ↦ conclude mode now receipt s' ]

    unfoldable pub broadcast :
        Mode → MppxChallenge → Payload → ℕ → S → Result AdapterError MppxReceipt × S
    broadcast mode challenge payload now s = elim (to_picocash_challenge w challenge now) [
      | err e ↦ (err e, s)
      | ok pc ↦ accept_payload mode pc payload now s
    ]
