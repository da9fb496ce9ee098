-- ===== src/Sdk/Store/Spend.antt =====
-- The outcomes of `withSpend` of store.ts.
use picocash.Prelude.{
  ℕ, ◌+◌, Text, ◌≡◌, refl, sym, ap, ◌∙◌, true, false, none, some, List, [], ◌∷◌, ◌++◌, contains,
  sum_by, arith, inl, inr,
}
use picocash.Result.{Result, ok, err, Result-cases}
use picocash.Sdk.Store.{
  Proof, WalletSnapshot, StoreError, pick, ys_of, flat, get_reserved, omit_reserved, holdings,
  reserve,
}
use picocash.Sdk.Store.Keys.{count-ys_of, keyed}
use picocash.Sdk.Store.Reservations.{get_reserved-set_self, omit-set_new}
use picocash.Sdk.Store.Transitions.{
  IsValid, IsNew, wanted, weigh-holdings, reserve-eq-ok, reserve-conserves, release-reserve,
  commit-settles,
}
use picocash.Sdk.Store.Memory.{SpendError, from_spend, from_store, EntryDraft, dated, with_spend}
use picocash.Sdk.Store.Safety.{reserve-IsValid}

module _ (y_of : Text → Text) {E : Type 0} (id : Text) (at : ℕ) (s : WalletSnapshot)
    (proofs : List Proof) (draft : EntryDraft) (spend : List Proof → Result E (List Proof)) where
  pub data Outcome (r : Result (SpendError E) (List Proof) × WalletSnapshot) : Type 0 where
    refused :
        (e : StoreError)
        → reserve y_of s proofs id ≡ err e
        → r ≡ (err (from_store e), s)
        → Outcome r
    given_back :
        (thrown : E) (after : WalletSnapshot)
        → spend proofs ≡ err thrown
        → r ≡ (err (from_spend thrown), after)
        → after.reserved ≡ s.reserved
        → after.history ≡ s.history
        → ((w : Proof → ℕ) → sum_by w after.proofs ≡ sum_by w s.proofs)
        → Outcome r
    paid :
        (change picked : List Proof) (after : WalletSnapshot)
        → spend proofs ≡ ok change
        → pick y_of (wanted y_of proofs) s.proofs ≡ ok picked
        → r ≡ (ok change, after)
        → after.reserved ≡ s.reserved
        → after.history ≡ s.history ++ dated draft at ∷ []
        → ((w : Proof → ℕ)
            → sum_by w after.proofs + sum_by w picked ≡ sum_by w s.proofs + sum_by w change)
        → Outcome r

  still_new :
      (change : List Proof) (held : WalletSnapshot)
      → IsValid y_of s
      → get_reserved id s.reserved ≡ none
      → reserve y_of s proofs id ≡ ok held
      → IsNew y_of s change
      → (y : Text) → contains y (ys_of y_of change) ≡ true
      → contains y (ys_of y_of (holdings y_of held)) ≡ false
  still_new change held v h e new y m = ground (
    arith,
    new.1 y m,
    count-ys_of y_of y (holdings y_of s),
    count-ys_of y_of y (holdings y_of held),
    reserve-conserves y_of s proofs id held v h e (keyed y_of y),
  )

  settles :
      (change : List Proof) (held : WalletSnapshot)
      → IsValid y_of s
      → get_reserved id s.reserved ≡ none
      → reserve y_of s proofs id ≡ ok held
      → spend proofs ≡ ok change
      → IsNew y_of s change
      → Outcome (with_spend y_of id at s proofs draft spend)
  unfolding with_spend
  settles change held v h e bought new =
      let (picked, e₁, is) = reserve-eq-ok y_of s proofs id held e in
      let stored : get_reserved id held.reserved ≡ some picked =
        rw (← is) (get_reserved-set_self id picked s.reserved) in
      let (after, e₂, dropped, extended, weighed) =
        commit-settles y_of held id picked change (dated draft at)
          (reserve-IsValid y_of s proofs id held v e) stored
          (new.0, still_new change held v h e new) in
      let restored : omit_reserved id held.reserved ≡ s.reserved =
        rw (← is) (omit-set_new id picked s.reserved h) in
      let kept : held.history ≡ s.history = sym (ap WalletSnapshot.history is) in
      paid change picked after bought e₁ (rw (with_spend, e, bought, e₂) refl) (dropped ∙ restored)
        (extended ∙ ap (λ past. past ++ dated draft at ∷ []) kept)
        (λ w. omega (
          arith,
          weighed w,
          weigh-holdings y_of w after,
          weigh-holdings y_of w s,
          reserve-conserves y_of s proofs id held v h e w,
          ap (λ rs. sum_by w (flat rs)) (dropped ∙ restored),
        ))

  gives_back :
      (thrown : E) (held : WalletSnapshot)
      → IsValid y_of s
      → get_reserved id s.reserved ≡ none
      → reserve y_of s proofs id ≡ ok held
      → spend proofs ≡ err thrown
      → Outcome (with_spend y_of id at s proofs draft spend)
  unfolding with_spend
  gives_back thrown held v h e failed =
      let (after, e₁, restored, kept, weighed) = release-reserve y_of s proofs id held v h e in
      given_back thrown after failed (rw (with_spend, e, failed, e₁) refl) restored kept weighed

  -- On a valid store, under a new reservation id and where any change has keys of its own,
  -- `withSpend` has three outcomes. The reservation is refused, and nothing has changed; `spend`
  -- throws, and the spendable proofs are those before, but for their order, with nothing more
  -- reserved and no history added; or `spend` returns change, and the spendable proofs are those
  -- before, less the reserved ones, and the change, with one more entry of history.
  pub with_spend-cases :
      IsValid y_of s
      → get_reserved id s.reserved ≡ none
      → ((change : List Proof) → spend proofs ≡ ok change → IsNew y_of s change)
      → Outcome (with_spend y_of id at s proofs draft spend)
  unfolding with_spend
  with_spend-cases v h new = elim (Result-cases (reserve y_of s proofs id)) [
    | inr (e, r) ↦ refused e r (rw (with_spend, r) refl)
    | inl (held, r) ↦ elim (Result-cases (spend proofs)) [
      | inl (change, bought) ↦ settles change held v h r bought (new change bought)
      | inr (thrown, failed) ↦ gives_back thrown held v h r failed
    ]
  ]
