-- ===== src/Acceptor/Settle.antt =====
-- acceptor.ts: settlement of an accepted credential at the mint.
pub mod Kept
pub mod Final
use picocash.Prelude.{
  Bool, true, false, if◌then◌else◌, ℕ, Text, Option, none, some, List, [], ◌∷◌, ◌≡◌, refl,
}
use picocash.Result.{Result, ok, err}
use picocash.Sdk.Store.{Proof}
use picocash.Sdk.Blinding.{decompose}
use picocash.Acceptor.{
  AcceptorStore, ChallengeState, PicocashReceipt, PicocashCredential, Settlement, settled,
  double_spent,
}

-- What `wallet.swap` throws: the mint's answer that a token was spent, or anything else.
pub data SwapFailure : Type 0 where
  token_already_spent other_failure : SwapFailure

pub data SettleError : Type 0 where
  nothing_to_settle mint_failure : SettleError

abbrev first_keyset : List Proof → Option Text
first_keyset [] = none
first_keyset (p ∷ ps) = some p.keyset_id

-- The proofs are signed with the lock key, where there is one, and swapped for fresh ones of the
-- receipt's amount, split into denominations.
unfoldable pub swap_accepted :
    Option (List Proof → List Proof)
    → (List Proof → List ℕ → Result SwapFailure (List Proof))
    → PicocashCredential
    → ℕ
    → Result SwapFailure (List Proof)
swap_accepted sign swap credential amount = elim (decompose amount) [
  | err e ↦ err other_failure
  | ok amounts ↦ elim sign [
    | none ↦ swap credential.proofs amounts
    | some sign_proofs ↦ swap (sign_proofs credential.proofs) amounts
  ]
]

-- The receipt after the swap; `none` where the failure may pass and the receipt stays pending.
unfoldable pub settled_receipt :
    PicocashReceipt → Result SwapFailure (List Proof) → Option PicocashReceipt
settled_receipt receipt (ok fresh) =
    some (record receipt { settlement = settled; checkstate_ref = first_keyset fresh })
settled_receipt receipt (err token_already_spent) =
    some (record receipt { settlement = double_spent })
settled_receipt receipt (err other_failure) = none

abbrev pub is_pending : Settlement → Bool
is_pending Settlement.pending = true
is_pending Settlement.settled = false
is_pending Settlement.double_spent = false

module _ {S : Type 0} (store : AcceptorStore S) where
  unfoldable pub settle :
      Option (List Proof → List Proof)
      → (List Proof → List ℕ → Result SwapFailure (List Proof))
      → ℕ
      → Text
      → S
      → Result SettleError PicocashReceipt × S
  settle sign swap now id s = elim (store.get_challenge id s) [
    | none ↦ (err nothing_to_settle, s)
    | some state ↦ elim state.receipt [
      | none ↦ (err nothing_to_settle, s)
      | some receipt ↦ elim state.credential [
        | none ↦ (err nothing_to_settle, s)
        | some credential ↦
            if is_pending receipt.settlement
            then elim (settled_receipt receipt
                (swap_accepted sign swap credential receipt.amount)) [
                  | none ↦ (err mint_failure, s)
                  | some next ↦
                      (ok next, store.put_challenge now (record state { receipt = some next }) s)
                ]
            else (ok receipt, s)
      ]
    ]
  ]

  unfoldable pub get_receipt : Text → S → Option PicocashReceipt
  get_receipt id s = elim (store.get_challenge id s) [ none ↦ none | some state ↦ state.receipt ]
