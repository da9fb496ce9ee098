-- ===== src/Acceptor/Taken.antt =====
-- What an accepted credential leaves in a store that keeps the promise of `AcceptorStore`: its challenge
-- is paid and its keys are seen, whatever other credentials are verified then.
use picocash.Prelude.{
  ℕ, Text, ◌≡◌, refl, ap, ◌⊎◌, true, Option, some, List, [], ◌∷◌, contains, Option-cases, inl, inr,
}
use picocash.Result.{ok, err, ok-eq-ok}
use picocash.Sdk.Store.{ys_of}
use picocash.Acceptor.{
  Proofs, Acceptor, AcceptorStore, PicocashChallenge, PicocashCredential, PicocashReceipt,
  ChallengeState, CredentialRejected, resolve_challenge, precheck, verify_credential,
}
use picocash.Acceptor.Memory.{has_receipt}
use picocash.Acceptor.Pipeline.{
  IsAtomic, IsLasting, precheck-eq-ok, rejected, lost, accepted, verify_credential-cases,
}

-- A credential with the challenge it comes with, if any, and the time.
abbrev pub Attempt : Type 0
Attempt = PicocashCredential × Option PicocashChallenge × ℕ

module _ (c : Proofs) (acceptor : Acceptor) {S : Type 0} (store : AcceptorStore S) where
  -- The store after credentials were verified, one after the other.
  unfoldable pub verify_all : List Attempt → S → S
  verify_all [] s = s
  verify_all ((credential, external, now) ∷ rest) s =
      verify_all rest (verify_credential c acceptor store credential external now s).1

  module _ (atomic : IsAtomic store) (lasting : IsLasting store) where
    pub record IsTaken (id : Text) (ys : List Text) (s : S) : Type 0 where
      pub paid : has_receipt (store.get_challenge id s) ≡ true
      pub seen :
          (y : Text) (zs : List Text)
          → contains y ys ≡ true
          → contains y zs ≡ true
          → store.has_any_y zs s ≡ true

    -- What the store answers once it has accepted.
    pub accept-IsTaken :
        (now : ℕ) (state : ChallengeState) (receipt : PicocashReceipt) (ys : List Text) (s s' : S)
        → state.receipt ≡ some receipt
        → store.accept now state ys s ≡ (true, s')
        → IsTaken state.challenge.challenge_id ys s'
    accept-IsTaken now state receipt ys s s' made a =
        let won : (store.accept now state ys s).0 ≡ true = ap (λ r. r.0) a in
        let after : (store.accept now state ys s).1 ≡ s' = ap (λ r. r.1) a in
        record {
          paid = rw (← after, atomic.get-accept now state ys s won, made) refl;
          seen = λ y zs m n. rw (← after) (atomic.has-accept now state ys zs y s won m n);
        }

    recorded-IsTaken :
        (id : Text) (ys : List Text) (now : ℕ) (next : ChallengeState) (zs : List Text) (s : S)
        → IsTaken id ys s
        → IsTaken id ys (store.accept now next zs s).1
    recorded-IsTaken id ys now next zs s t = record {
      paid = lasting.has_receipt-accept now next zs s id t.paid;
      seen = λ y ws m n. lasting.has_any_y-accept now next zs ws s (t.seen y ws m n);
    }

    verify_credential-IsTaken :
        (id : Text) (ys : List Text) (credential : PicocashCredential)
        (external : Option PicocashChallenge) (now : ℕ) (s : S)
        → IsTaken id ys s
        → IsTaken id ys (verify_credential c acceptor store credential external now s).1
    verify_credential-IsTaken id ys credential external now s t =
        elim (verify_credential-cases c acceptor store credential external now s) [
          | rejected e p r ↦ rw r t
          | lost next zs p gone r ↦ rw r (recorded-IsTaken id ys now next zs s t)
          | accepted next zs p won r ↦ rw r (recorded-IsTaken id ys now next zs s t)
        ]

    pub verify_all-IsTaken :
        (id : Text) (ys : List Text) (attempts : List Attempt) (s : S)
        → IsTaken id ys s
        → IsTaken id ys (verify_all attempts s)
    unfolding verify_all
    verify_all-IsTaken id ys [] s t = t
    verify_all-IsTaken id ys ((credential, external, now) ∷ rest) s t =
        verify_all-IsTaken id ys rest
          (verify_credential c acceptor store credential external now s).1
          (verify_credential-IsTaken id ys credential external now s t)

    IsTaken-blocks :
        (id : Text) (ys : List Text) (other : PicocashCredential)
        (external : Option PicocashChallenge) (later : ℕ) (s : S) (next : ChallengeState)
        (zs : List Text)
        → IsTaken id ys s
        → (other.challenge_id ≡ id)
          ⊎ ((y : Text) × (contains y ys ≡ true)
              × (contains y (ys_of c.y_of_secret other.proofs) ≡ true))
        → precheck c acceptor store other external later s ≡ ok (next, zs)
        → ⊥
    unfolding resolve_challenge
    IsTaken-blocks id ys other external later s next zs t same p =
        let (state, resolved, meets, unseen, _) =
          precheck-eq-ok c acceptor store other external later s next zs p in
        elim same [
          | inr (y, m, n) ↦ absurd (cc (t.seen y zs m (rw meets.keyed at n), unseen))
          | inl e ↦ elim (Option-cases (store.get_challenge id s)) [
            | inl missing ↦ absurd (cc (rw missing at t.paid))
            | inr (found, h) ↦
                let held : found ≡ state = ok-eq-ok (rw (resolve_challenge, e, h) at resolved) in
                absurd (cc (rw (h, held, meets.unpaid) at t.paid))
          ]
        ]

    -- A credential for the challenge, or with a proof of one of the keys, is rejected.
    pub IsTaken-rejects :
        (id : Text) (ys : List Text) (other : PicocashCredential)
        (external : Option PicocashChallenge) (later : ℕ) (s : S)
        → IsTaken id ys s
        → (other.challenge_id ≡ id)
          ⊎ ((y : Text) × (contains y ys ≡ true)
              × (contains y (ys_of c.y_of_secret other.proofs) ≡ true))
        → (e : CredentialRejected) × (verify_credential c acceptor store other external later s
            ≡ (err e, s))
    IsTaken-rejects id ys other external later s t same =
        elim (verify_credential-cases c acceptor store other external later s) [
          | rejected e p r ↦ (e, r)
          | lost next zs p gone r ↦
              absurd (IsTaken-blocks id ys other external later s next zs t same p)
          | accepted next zs p won r ↦
              absurd (IsTaken-blocks id ys other external later s next zs t same p)
        ]
