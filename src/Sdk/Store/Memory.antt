-- ===== src/Sdk/Store/Memory.antt =====
-- store.ts: `MemoryProofStore`, which keeps the snapshot that a transition returned, and `withSpend`
-- over it. A call of the store is one step; the id of a reservation and the clock are arguments.
use picocash.Prelude.{ℕ, Text, Option, List, [], ◌∷◌}
use picocash.Prelude.Int.{ℤ}
use picocash.Result.{Result, ok, err}
use picocash.Sdk.Store.{
  Proof, HistoryKind, HistoryEntry, WalletSnapshot, StoreError, add, reserve, commit, release,
}

pub data Operation : Type 0 where
  to_add : List Proof → Option HistoryEntry → Operation
  to_reserve : List Proof → Text → Operation
  to_commit : Text → List Proof → HistoryEntry → Operation
  to_release : Text → Operation

-- What `spend` threw, or what the store threw.
pub data SpendError (E : Type 0) : Type 0 where
  from_spend : E → SpendError E
  from_store : StoreError → SpendError E

pub record EntryDraft : Type 0 where
  pub kind : HistoryKind
  pub delta : ℤ
  pub ref : Option Text

unfoldable pub dated : EntryDraft → ℕ → HistoryEntry
dated draft at = record { at = at; kind = draft.kind; delta = draft.delta; ref = draft.ref }

module _ (y_of : Text → Text) where
  unfoldable pub transition : WalletSnapshot → Operation → Result StoreError WalletSnapshot
  transition s (to_add proofs entry) = ok (add y_of s proofs entry)
  transition s (to_reserve proofs id) = reserve y_of s proofs id
  transition s (to_commit id change entry) = commit y_of s id change entry
  transition s (to_release id) = release y_of s id

  -- A transition that throws is not persisted.
  unfoldable pub persist : WalletSnapshot → Result StoreError WalletSnapshot → WalletSnapshot
  persist s (ok next) = next
  persist s (err e) = s

  unfoldable pub perform : WalletSnapshot → List Operation → WalletSnapshot
  perform s [] = s
  perform s (o ∷ os) = perform (persist s (transition s o)) os

  module _ {E : Type 0} where
    unfoldable pub with_spend :
        Text
        → ℕ
        → WalletSnapshot
        → List Proof
        → EntryDraft
        → (List Proof → Result E (List Proof))
        → Result (SpendError E) (List Proof) × WalletSnapshot
    with_spend id at s proofs draft spend = elim (reserve y_of s proofs id) [
      | err e ↦ (err (from_store e), s)
      | ok held ↦ elim (spend proofs) [
        | err thrown ↦ elim (release y_of held id) [
          | err e ↦ (err (from_store e), held)
          | ok next ↦ (err (from_spend thrown), next)
        ]
        | ok change ↦ elim (commit y_of held id change (dated draft at)) [
          | err e ↦ (err (from_store e), held)
          | ok next ↦ (ok change, next)
        ]
      ]
    ]
