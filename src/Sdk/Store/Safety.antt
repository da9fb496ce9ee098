-- ===== src/Sdk/Store/Safety.antt =====
-- No operation on a store, and no sequence of them, makes it hold a key twice.
use picocash.Prelude.{
  Text, ◌≡◌, Option, none, some, List, [], ◌∷◌, sum_by-append, arith, Option-cases, inl, inr,
}
use picocash.Result.{ok, Result-cases, ok-eq-ok}
use picocash.Sdk.Store.{
  Proof, WalletSnapshot, HistoryEntry, empty_snapshot, fresh_from, ys_of, flat, get_reserved,
  omit_reserved, holdings, add, reserve, commit, release,
}
use picocash.Sdk.Store.Keys.{keyed, count-ys_of, count-fresh_from}
use picocash.Sdk.Store.Reservations.{
  omit_reserved-UniqueIds, set_reserved-UniqueIds, weigh-set, weigh-omit,
}
use picocash.Sdk.Store.Transitions.{IsValid, weigh-holdings, moved, reserve-eq-ok}
use picocash.Sdk.Store.Memory.{
  Operation, to_add, to_reserve, to_commit, to_release, transition, persist, perform,
}

module _ (y_of : Text → Text) where
  add-IsValid :
      (s : WalletSnapshot) (proofs : List Proof) (entry : Option HistoryEntry)
      → IsValid y_of s
      → IsValid y_of (add y_of s proofs entry)
  unfolding add
  add-IsValid s proofs entry v = record {
    ids = v.ids;
    once = λ y. ground (
      arith,
      v.once y,
      count-ys_of y_of y (holdings y_of s),
      count-fresh_from y_of y (ys_of y_of (holdings y_of s)) proofs,
      weigh-holdings y_of (keyed y_of y) s,
      sum_by-append (keyed y_of y) s.proofs (fresh_from y_of (ys_of y_of (holdings y_of s)) proofs),
    );
  }

  pub reserve-IsValid :
      (s : WalletSnapshot) (proofs : List Proof) (id : Text) (s' : WalletSnapshot)
      → IsValid y_of s
      → reserve y_of s proofs id ≡ ok s'
      → IsValid y_of s'
  reserve-IsValid s proofs id s' v e =
      let (picked, e₁, same) = reserve-eq-ok y_of s proofs id s' e in
      rw (← same) (record {
        ids = set_reserved-UniqueIds id picked s.reserved v.ids;
        once = λ y. omega (
          arith,
          v.once y,
          weigh-set (keyed y_of y) id picked s.reserved,
          moved y_of (keyed y_of y) s proofs picked v e₁,
        );
      })

  omitted-IsValid :
      (s : WalletSnapshot) (id : Text) (ps : List Proof)
      → IsValid y_of s
      → get_reserved id s.reserved ≡ some ps
      → IsValid y_of (record s { reserved = omit_reserved id s.reserved })
  omitted-IsValid s id ps v h = record {
    ids = omit_reserved-UniqueIds id s.reserved v.ids;
    once = λ y. omega (arith, v.once y, weigh-omit (keyed y_of y) id ps s.reserved v.ids h);
  }

  commit-IsValid :
      (s : WalletSnapshot) (id : Text) (change : List Proof) (entry : HistoryEntry)
      (s' : WalletSnapshot)
      → IsValid y_of s
      → commit y_of s id change entry ≡ ok s'
      → IsValid y_of s'
  unfolding commit
  commit-IsValid s id change entry s' v e = elim (Option-cases (get_reserved id s.reserved)) [
    | inl missing ↦ absurd (cc (rw (commit, missing) at e))
    | inr (spent, h) ↦
        let added =
          add-IsValid (record s { reserved = omit_reserved id s.reserved }) change none
            (omitted-IsValid s id spent v h) in
        rw (← ok-eq-ok (rw (commit, h) at e)) (record { ids = added.ids; once = added.once })
  ]

  release-IsValid :
      (s : WalletSnapshot) (id : Text) (s' : WalletSnapshot)
      → IsValid y_of s
      → release y_of s id ≡ ok s'
      → IsValid y_of s'
  unfolding release
  release-IsValid s id s' v e = elim (Option-cases (get_reserved id s.reserved)) [
    | inl missing ↦ absurd (cc (rw (release, missing) at e))
    | inr (back, h) ↦ rw (← ok-eq-ok (rw (release, h) at e)) (record {
      ids = omit_reserved-UniqueIds id s.reserved v.ids;
      once = λ y. omega (
        arith,
        v.once y,
        sum_by-append (keyed y_of y) s.proofs back,
        weigh-omit (keyed y_of y) id back s.reserved v.ids h,
      );
    })
  ]

  transition-IsValid :
      (s : WalletSnapshot) (o : Operation) (s' : WalletSnapshot)
      → IsValid y_of s
      → transition y_of s o ≡ ok s'
      → IsValid y_of s'
  unfolding transition
  transition-IsValid s (to_add proofs entry) s' v e =
      rw (← ok-eq-ok e) (add-IsValid s proofs entry v)
  transition-IsValid s (to_reserve proofs id) s' v e = reserve-IsValid s proofs id s' v e
  transition-IsValid s (to_commit id change entry) s' v e = commit-IsValid s id change entry s' v e
  transition-IsValid s (to_release id) s' v e = release-IsValid s id s' v e

  -- After any operations on a valid store, successful or not, no key is held twice, spendable or
  -- reserved, and no reservation id stands twice.
  pub perform-IsValid :
      (os : List Operation) (s : WalletSnapshot) → IsValid y_of s → IsValid y_of (perform y_of s os)
  unfolding perform persist
  perform-IsValid [] s v = v
  perform-IsValid (o ∷ os) s v = elim (Result-cases (transition y_of s o)) [
    | inl (next, e) ↦ rw e (perform-IsValid os next (transition-IsValid s o next v e))
    | inr (thrown, e) ↦ rw e (perform-IsValid os s v)
  ]

  pub empty_snapshot-IsValid : IsValid y_of empty_snapshot
  unfolding flat
  empty_snapshot-IsValid = record { ids = tt; once = λ y. omega arith }
