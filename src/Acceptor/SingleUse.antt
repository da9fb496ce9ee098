-- ===== src/Acceptor/SingleUse.antt =====
-- acceptor.ts: credentials verified one after another over a store that keeps the promise of
-- `AcceptorStore`, and the pre-check.
use picocash.Prelude.{
  ℕ, Text, ◌≡◌, ◌↔◌, refl, sym, subst, ◌⊎◌, true, false, Option, none, some, List, contains, arith,
  Option-cases, inl, inr,
}
use picocash.Result.{ok, err, ok-eq-ok}
use picocash.Sdk.Store.{ys_of}
use picocash.Acceptor.{
  Proofs, Acceptor, AcceptorStore, PicocashChallenge, PicocashCredential, PicocashReceipt,
  ChallengeState, CredentialRejected, pending_receipt, resolve_challenge, precheck_credential,
  verify_credential,
}
use picocash.Acceptor.Memory.{has_receipt}
use picocash.Acceptor.Taken.{
  Attempt, verify_all, accept-IsTaken, verify_all-IsTaken, IsTaken-rejects,
}
use picocash.Acceptor.Pipeline.{
  IsAcceptable, IsAtomic, IsLasting, accepted_state, precheck-eq-ok, rejected, lost, accepted,
  verify_credential-cases,
}

module _ (c : Proofs) (acceptor : Acceptor) {S : Type 0} (store : AcceptorStore S) where
  -- `verifyCredential` answers with a receipt only for a credential that meets every check, none of
  -- whose keys was seen, and only when the store has recorded it; the receipt is pending and of the
  -- challenge's amount.
  pub verify_credential-IsAcceptable :
      (credential : PicocashCredential) (external : Option PicocashChallenge) (now : ℕ) (s s' : S)
      (receipt : PicocashReceipt)
      → verify_credential c acceptor store credential external now s ≡ (ok receipt, s')
      → (state : ChallengeState) × (ys : List Text) × (resolve_challenge c acceptor store credential
            external s
          ≡ ok state)
        × IsAcceptable c acceptor state credential now ys
        × (store.has_any_y ys s ≡ false)
        × (store.accept now (accepted_state c acceptor store state credential now) ys s
            ≡ (true, s'))
        × (receipt ≡ pending_receipt c acceptor state.challenge now)
  verify_credential-IsAcceptable credential external now s s' receipt h =
      elim (verify_credential-cases c acceptor store credential external now s) [
        | rejected e p r ↦ absurd (cc (r, h))
        | lost next ys p gone r ↦ absurd (cc (r, h))
        | accepted next ys p won r ↦
            let (state, resolved, meets, unseen, same) =
              precheck-eq-ok c acceptor store credential external now s next ys p in
            let after : (store.accept now next ys s).1 ≡ s' = cc (r, h) in
            (
              state,
              ys,
              resolved,
              meets,
              unseen,
              rw same (λ i. (won i, after i)),
              subst (λ (n : ChallengeState). receipt ≡ pending_receipt c acceptor n.challenge now)
                  (sym same) (cc (r, h)),
            )
      ]

  module _ (atomic : IsAtomic store) where
    -- Where what is paid and seen stays so: after a credential was accepted and whatever other credentials were verified since, one for the
    -- same challenge, or with a proof of the same key, is rejected, and changes nothing.
    pub verify_credential-once :
        (lasting : IsLasting store) (credential other : PicocashCredential)
        (external external' : Option PicocashChallenge) (now later : ℕ) (s s' : S)
        (receipt : PicocashReceipt) (since : List Attempt)
        → verify_credential c acceptor store credential external now s ≡ (ok receipt, s')
        → (other.challenge_id ≡ receipt.challenge_id)
          ⊎ ((y : Text) × (contains y (ys_of c.y_of_secret credential.proofs) ≡ true)
              × (contains y (ys_of c.y_of_secret other.proofs) ≡ true))
        → (e : CredentialRejected) × (verify_credential c acceptor store other external' later
              (verify_all c acceptor store since s')
            ≡ (err e, verify_all c acceptor store since s'))
    unfolding pending_receipt
    verify_credential-once lasting credential other external external' now later s s' receipt since
          h same =
        let (state, ys, resolved, meets, unseen, a, made) =
          verify_credential-IsAcceptable credential external now s s' receipt h in
        let same' : (other.challenge_id ≡ state.challenge.challenge_id)
            ⊎ ((y : Text) × (contains y (ys_of c.y_of_secret credential.proofs) ≡ true)
                × (contains y (ys_of c.y_of_secret other.proofs) ≡ true)) =
          rw (made, pending_receipt) at same in
        let taken =
          verify_all-IsTaken c acceptor store atomic lasting state.challenge.challenge_id ys since
            s'
            (accept-IsTaken c acceptor store atomic lasting now
              (accepted_state c acceptor store state credential now)
              (pending_receipt c acceptor state.challenge now) ys s s' refl a) in
        IsTaken-rejects c acceptor store atomic lasting state.challenge.challenge_id ys other
          external' later (verify_all c acceptor store since s') taken
          (elim same' [ inl id ↦ inl id | inr (y, m, n) ↦ inr (y, rw meets.keyed at m, n) ])

    abbrev IsKeyed : S → Type 0
    IsKeyed s =
        (id : Text) (state : ChallengeState)
        → store.get_challenge id s ≡ some state
        → state.challenge.challenge_id ≡ id

    has_receipt-resolved :
        (credential : PicocashCredential) (external : Option PicocashChallenge) (s : S)
        (state : ChallengeState)
        → IsKeyed s
        → resolve_challenge c acceptor store credential external s ≡ ok state
        → state.receipt ≡ none
        → has_receipt (store.get_challenge state.challenge.challenge_id s) ≡ false
    unfolding resolve_challenge
    has_receipt-resolved credential external s state keyed resolved unpaid =
        elim (Option-cases (store.get_challenge credential.challenge_id s)) [
          | inr (found, e) ↦
              let same : found ≡ state = ok-eq-ok (rw (resolve_challenge, e) at resolved) in
              let named : state.challenge.challenge_id ≡ credential.challenge_id =
                rw (← same) (keyed credential.challenge_id found e) in
              rw (named, e) (rw same (rw unpaid refl))
          | inl missing ↦ elim (Option-cases external) [
            | inl no_challenge ↦ absurd (ground (arith, resolved, missing, no_challenge))
            | inr (challenge, given) ↦
                let named : state.challenge.challenge_id ≡ credential.challenge_id =
                  ground (arith, resolved, missing, given) in
                rw (named, missing) refl
          ]
        ]

    -- Where challenges stand under their own ids, the pre-check of a credential succeeds exactly
    -- when `verifyCredential` would accept it.
    pub precheck_credential_iff :
        (credential : PicocashCredential) (external : Option PicocashChallenge) (now : ℕ) (s : S)
        → IsKeyed s
        → ((challenge : PicocashChallenge) × (precheck_credential c acceptor store credential
                external now s
              ≡ ok challenge))
          ↔ ((receipt : PicocashReceipt) × (s' : S) × (verify_credential c acceptor store credential
                  external now s
                ≡ (ok receipt, s')))
    unfolding precheck_credential
    precheck_credential_iff credential external now s keyed = (to, from)
      where
        to :
            (challenge : PicocashChallenge) × (precheck_credential c acceptor store credential
                  external now s
                ≡ ok challenge)
            → (receipt : PicocashReceipt) × (s' : S) × (verify_credential c acceptor store
                  credential external now s
                ≡ (ok receipt, s'))
        to (challenge, e) =
            elim (verify_credential-cases c acceptor store credential external now s) [
              | rejected f p r ↦ absurd (cc (rw (precheck_credential, p) at e))
              | accepted next ys p won r ↦
                  (pending_receipt c acceptor next.challenge now, (store.accept now next ys s).1, r)
              | lost next ys p gone r ↦
                  let (state, resolved, meets, unseen, same) =
                    precheck-eq-ok c acceptor store credential external now s next ys p in
                  let unpaid =
                    has_receipt-resolved credential external s state keyed resolved meets.unpaid in
                  let free : has_receipt (store.get_challenge next.challenge.challenge_id s)
                      ≡ false =
                    rw (← same) unpaid in
                  absurd (cc (gone, rw (free, unseen) at (atomic.accept_lem now next ys s)))
            ]

        from :
            (receipt : PicocashReceipt) × (s' : S) × (verify_credential c acceptor store credential
                  external now s
                ≡ (ok receipt, s'))
            → (challenge : PicocashChallenge) × (precheck_credential c acceptor store credential
                  external now s
                ≡ ok challenge)
        from (receipt, s', h) =
            elim (verify_credential-cases c acceptor store credential external now s) [
              | rejected f p r ↦ absurd (cc (r, h))
              | lost next ys p gone r ↦ absurd (cc (r, h))
              | accepted next ys p won r ↦
                  let (state, resolved, meets, unseen, same) =
                    precheck-eq-ok c acceptor store credential external now s next ys p in
                  (state.challenge, rw (precheck_credential, p, resolved) refl)
            ]
