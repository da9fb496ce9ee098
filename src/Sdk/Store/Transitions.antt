-- ===== src/Sdk/Store/Transitions.antt =====
-- What the transitions of store.ts do to what a wallet holds: a reservation moves proofs and loses
-- none, a release takes it back, and a commit trades the reserved proofs for the change.
use picocash.Prelude.{
  ℕ, ◌+◌, ◌≤◌, Text, ◌≡◌, ◌↔◌, refl, true, false, ◌||◌, Option, none, some, List, [], ◌∷◌, ◌++◌,
  contains, sum_by, sum_by-append, arith,
}
use picocash.Result.{ok, >>=-eq-ok, ok-eq-ok}
use picocash.Sdk.Store.{
  Proof, WalletSnapshot, HistoryEntry, unique_from, fresh_from, pick, without, ys_of, flat,
  get_reserved, set_reserved, omit_reserved, holdings, extended, add, reserve, commit, release,
}
use picocash.Sdk.Store.Keys.{
  NoRepeat, keyed, count, unique_from-NoRepeat, contains-unique_from, count-ys_of, sum_by-pick,
  pick-present, pick_total, count-fresh_from, fresh_from_all,
}
use picocash.Sdk.Store.Reservations.{
  UniqueIds, weigh-set_new, weigh-omit, get_reserved-set_self, omit-set_new,
}

module _ (y_of : Text → Text) where
  -- No reservation id stands twice, and no key is held twice.
  pub record IsValid (s : WalletSnapshot) : Type 0 where
    pub ids : UniqueIds s.reserved
    pub once : (y : Text) → count y_of y s.proofs + count y_of y (flat s.reserved) ≤ 1

  -- No key of these proofs stands twice, and none is held.
  abbrev pub IsNew : WalletSnapshot → List Proof → Type 0
  IsNew s change =
      NoRepeat (ys_of y_of change)
      × ((y : Text)
          → contains y (ys_of y_of change) ≡ true
          → contains y (ys_of y_of (holdings y_of s)) ≡ false)

  pub weigh-holdings :
      (w : Proof → ℕ) (s : WalletSnapshot)
      → sum_by w (holdings y_of s) ≡ sum_by w s.proofs + sum_by w (flat s.reserved)
  unfolding holdings
  weigh-holdings w s = sum_by-append w s.proofs (flat s.reserved)

  abbrev pub wanted : List Proof → List Text
  wanted proofs = unique_from [] (ys_of y_of proofs)

  abbrev pub with_reserved : WalletSnapshot → List Proof → Text → List Proof → WalletSnapshot
  with_reserved s proofs id picked = record s {
    proofs = without y_of (wanted proofs) s.proofs;
    reserved = set_reserved id picked s.reserved;
    seq = s.seq + 1;
  }

  pub reserve-eq-ok :
      (s : WalletSnapshot) (proofs : List Proof) (id : Text) (s' : WalletSnapshot)
      → reserve y_of s proofs id ≡ ok s'
      → (picked : List Proof) × (pick y_of (wanted proofs) s.proofs ≡ ok picked)
        × (with_reserved s proofs id picked ≡ s')
  unfolding reserve
  reserve-eq-ok s proofs id s' e =
      let (picked, e₁, e₂) = >>=-eq-ok (pick y_of (wanted proofs) s.proofs) _ e in
      (picked, e₁, ok-eq-ok e₂)

  pub moved :
      (w : Proof → ℕ) (s : WalletSnapshot) (proofs picked : List Proof)
      → IsValid s
      → pick y_of (wanted proofs) s.proofs ≡ ok picked
      → sum_by w (without y_of (wanted proofs) s.proofs) + sum_by w picked ≡ sum_by w s.proofs
  moved w s proofs picked v e =
      sum_by-pick y_of w (wanted proofs) s.proofs picked
        (unique_from-NoRepeat [] (ys_of y_of proofs)) (λ y. omega (arith, v.once y)) e

  -- A reservation under a new id keeps what the wallet holds: of any kind of proofs, spendable and
  -- reserved ones together are as many afterwards, and weigh as much, as before.
  pub reserve-conserves :
      (s : WalletSnapshot) (proofs : List Proof) (id : Text) (s' : WalletSnapshot)
      → IsValid s
      → get_reserved id s.reserved ≡ none
      → reserve y_of s proofs id ≡ ok s'
      → (w : Proof → ℕ) → sum_by w (holdings y_of s') ≡ sum_by w (holdings y_of s)
  reserve-conserves s proofs id s' v h e w =
      let (picked, e₁, same) = reserve-eq-ok s proofs id s' e in
      rw (← same) (
        omega (
          arith,
          weigh-holdings w s,
          weigh-holdings w (with_reserved s proofs id picked),
          weigh-set_new w id picked s.reserved h,
          moved w s proofs picked v e₁,
        ))

  -- A reservation succeeds exactly when every proof of the request is spendable, by its key.
  pub reserve_iff :
      (s : WalletSnapshot) (proofs : List Proof) (id : Text)
      → ((s' : WalletSnapshot) × (reserve y_of s proofs id ≡ ok s')) ↔ (
          (y : Text)
          → contains y (ys_of y_of proofs) ≡ true
          → contains y (ys_of y_of s.proofs) ≡ true)
  unfolding reserve
  reserve_iff s proofs id = (to, from)
    where
      to :
          (s' : WalletSnapshot) × (reserve y_of s proofs id ≡ ok s')
          → (y : Text) → contains y (ys_of y_of proofs) ≡ true
          → contains y (ys_of y_of s.proofs) ≡ true
      to (s', e) y m =
          let (picked, e₁, same) = reserve-eq-ok s proofs id s' e in
          ground (
            arith,
            count-ys_of y_of y s.proofs,
            pick-present y_of (wanted proofs) s.proofs picked e₁ y,
            contains-unique_from y [] (ys_of y_of proofs) refl,
          )

      from :
          ((y : Text)
            → contains y (ys_of y_of proofs) ≡ true
            → contains y (ys_of y_of s.proofs) ≡ true)
          → (s' : WalletSnapshot) × (reserve y_of s proofs id ≡ ok s')
      from h =
          let (picked, e) = pick_total y_of (wanted proofs) s.proofs (λ y m. ground (
            arith,
            count-ys_of y_of y s.proofs,
            h y,
            contains-unique_from y [] (ys_of y_of proofs) refl,
          )) in
          (with_reserved s proofs id picked, rw e refl)

  -- Releasing a reservation that was just made under a new id succeeds, and takes it back: the
  -- reservations and the history are those before it, and so are the spendable proofs, but for
  -- their order.
  pub release-reserve :
      (s : WalletSnapshot) (proofs : List Proof) (id : Text) (s' : WalletSnapshot)
      → IsValid s
      → get_reserved id s.reserved ≡ none
      → reserve y_of s proofs id ≡ ok s'
      → (s'' : WalletSnapshot) × (release y_of s' id ≡ ok s'')
        × (s''.reserved ≡ s.reserved)
        × (s''.history ≡ s.history)
        × ((w : Proof → ℕ) → sum_by w s''.proofs ≡ sum_by w s.proofs)
  unfolding release
  release-reserve s proofs id s' v h e =
      let (picked, e₁, same) = reserve-eq-ok s proofs id s' e in
      let kept = omit-set_new id picked s.reserved h in
      rw (← same) (
        record s { proofs = without y_of (wanted proofs) s.proofs ++ picked; seq = s.seq + 1 + 1 },
        rw (release, get_reserved-set_self id picked s.reserved, kept) refl,
        refl,
        refl,
        λ w. omega (
          arith,
          sum_by-append w (without y_of (wanted proofs) s.proofs) picked,
          moved w s proofs picked v e₁,
        ),
      )

  -- After `add` a key is held exactly when it was held before or came with the new proofs.
  pub held-add :
      (y : Text) (s : WalletSnapshot) (proofs : List Proof) (entry : Option HistoryEntry)
      → contains y (ys_of y_of (holdings y_of (add y_of s proofs entry)))
        ≡ (contains y (ys_of y_of (holdings y_of s)) || contains y (ys_of y_of proofs))
  unfolding add
  held-add y s proofs entry =
      let held = ys_of y_of (holdings y_of s) in
      let fresh = fresh_from y_of held proofs in
      let after = add y_of s proofs entry in
      ground (
        arith,
        count-ys_of y_of y (holdings y_of s),
        count-ys_of y_of y proofs,
        count-ys_of y_of y (holdings y_of after),
        count-fresh_from y_of y held proofs,
        weigh-holdings (keyed y_of y) s,
        weigh-holdings (keyed y_of y) after,
        sum_by-append (keyed y_of y) s.proofs fresh,
      )

  -- Where the change has keys of its own, a commit of a reservation succeeds and drops it. Of any
  -- kind of proofs the wallet then holds what it held, less the reserved proofs, and the change;
  -- the history is longer by the entry.
  pub commit-settles :
      (s : WalletSnapshot) (id : Text) (spent change : List Proof) (entry : HistoryEntry)
      → IsValid s
      → get_reserved id s.reserved ≡ some spent
      → IsNew s change
      → (s' : WalletSnapshot) × (commit y_of s id change entry ≡ ok s')
        × (s'.reserved ≡ omit_reserved id s.reserved)
        × (s'.history ≡ s.history ++ entry ∷ [])
        × ((w : Proof → ℕ)
            → sum_by w (holdings y_of s') + sum_by w spent
              ≡ sum_by w (holdings y_of s) + sum_by w change)
  unfolding commit add extended
  commit-settles s id spent change entry v h (u, new) =
      let left = record s { reserved = omit_reserved id s.reserved } in
      let all_fresh : fresh_from y_of (ys_of y_of (holdings y_of left)) change ≡ change =
        fresh_from_all y_of (ys_of y_of (holdings y_of left)) change u (λ y m. ground (
          arith,
          new y m,
          count-ys_of y_of y (holdings y_of s),
          count-ys_of y_of y (holdings y_of left),
          weigh-holdings (keyed y_of y) s,
          weigh-holdings (keyed y_of y) left,
          weigh-omit (keyed y_of y) id spent s.reserved v.ids h,
        )) in
      let settled = record s {
        proofs = s.proofs ++ change;
        reserved = omit_reserved id s.reserved;
        history = s.history ++ entry ∷ [];
        seq = s.seq + 1;
      } in
      (
        settled,
        rw (commit, h, all_fresh) refl,
        refl,
        refl,
        λ w. omega (
          arith,
          weigh-holdings w s,
          weigh-holdings w settled,
          sum_by-append w s.proofs change,
          weigh-omit w id spent s.reserved v.ids h,
        ),
      )
