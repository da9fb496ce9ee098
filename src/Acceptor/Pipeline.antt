-- ===== src/Acceptor/Pipeline.antt =====
-- What the pipeline of acceptor.ts has established when it accepts a credential.
use picocash.Prelude.{
  ℕ, ◌≤◌, Text, ◌≡◌, refl, subst, ap, true, false, not, Option, none, some, List, [], ◌∷◌, length,
  contains, sum_by, arith, ◌||◌, Bool-cases, Option-cases, inl, inr,
}
use picocash.Result.{Result, ok, err, ensure, Result-cases, >>=-eq-ok, ok-eq-ok, ensure-eq-ok}
use picocash.Sdk.Store.{Proof, unique_from, ys_of}
use picocash.Sdk.Store.Keys.{NoRepeat}
use picocash.Acceptor.{
  Proofs, Acceptor, AcceptorStore, TrustedMint, PicocashChallenge, PicocashCredential,
  PicocashReceipt, ChallengeState, CredentialRejected, all_of, is_bound, find_mint,
  verify_proof_offline, check, pending_receipt, resolve_challenge, precheck, verify_credential,
}
use picocash.Acceptor.Memory.{has_receipt}

length-unique_from : (seen ys : List Text) → length (unique_from seen ys) ≤ length ys
unfolding unique_from
length-unique_from seen [] = omega arith
length-unique_from seen (y ∷ ys) =
    ground (arith, length-unique_from seen ys, length-unique_from (y ∷ seen) ys)

-- Where nothing was dropped no key stands twice, nor among those seen.
unique_from_all :
    (x : Text) (seen ys : List Text)
    → length (unique_from seen ys) ≡ length ys
    → contains x seen ≡ true
    → contains x ys ≡ false
unfolding unique_from
unique_from_all x seen [] e m = refl
unique_from_all x seen (y ∷ ys) e m =
    ground (arith, m, length-unique_from seen ys, unique_from_all x (y ∷ seen) ys)

NoRepeat-unique_from :
    (seen ys : List Text) → length (unique_from seen ys) ≡ length ys → NoRepeat ys
unfolding unique_from
NoRepeat-unique_from seen [] e = tt
NoRepeat-unique_from seen (y ∷ ys) e = elim (Bool-cases (contains y seen)) [
  | inl old ↦ absurd (ground (arith, length-unique_from seen ys))
  | inr new ↦
      let rest : length (unique_from (y ∷ seen) ys) ≡ length ys = ground (arith, e, new) in
      (unique_from_all y (y ∷ seen) ys rest (ground arith), NoRepeat-unique_from (y ∷ seen) ys rest)
]

module _ (c : Proofs) (acceptor : Acceptor) where
  -- A credential that may be accepted for a challenge: the challenge is unpaid and has not expired,
  -- the mint is trusted and its unit is the challenge's, and the proofs are bound to the challenge,
  -- of the exact amount, signed by the mint's keys, and pairwise different.
  pub record IsAcceptable (state : ChallengeState) (credential : PicocashCredential) (now : ℕ)
      (ys : List Text) : Type 0 where
    pub unpaid : state.receipt ≡ none
    pub live : now ≤ state.challenge.expiry
    pub trusted : TrustedMint
    pub allowed : find_mint credential.mint credential.keyset_id acceptor.mints ≡ some trusted
    pub same_unit : c.lower trusted.keyset.unit ≡ c.lower state.challenge.unit
    pub bound : all_of (is_bound c acceptor state.challenge now) credential.proofs ≡ true
    pub exact : sum_by Proof.amount credential.proofs ≡ state.challenge.amount
    pub signed : all_of (verify_proof_offline c trusted.keyset) credential.proofs ≡ true
    pub keyed : ys_of c.y_of_secret credential.proofs ≡ ys
    pub distinct : NoRepeat ys

  check-IsAcceptable :
      (state : ChallengeState) (credential : PicocashCredential) (now : ℕ) (ys : List Text)
      → check c acceptor state credential now ≡ ok ys
      → IsAcceptable state credential now ys
  unfolding check
  check-IsAcceptable state credential now ys h = elim (Option-cases state.receipt) [
    | inr (receipt, paid) ↦ absurd (ground (arith, h, paid))
    | inl unpaid ↦
        elim (Option-cases (find_mint credential.mint credential.keyset_id acceptor.mints)) [
          | inl missing ↦ absurd (ground (arith, h, unpaid, missing))
          | inr (trusted, found) ↦
              let same : ys_of c.y_of_secret credential.proofs ≡ ys =
                ground (arith, h, unpaid, found) in
              let all : length (unique_from [] (ys_of c.y_of_secret credential.proofs))
                  ≡ length (ys_of c.y_of_secret credential.proofs) =
                ground (arith, h, unpaid, found) in
              record {
                unpaid = unpaid;
                live = ground (arith, h, unpaid);
                trusted = trusted;
                allowed = found;
                same_unit = ground (arith, h, unpaid, found);
                bound = ground (arith, h, unpaid, found);
                exact = ground (arith, h, unpaid, found);
                signed = ground (arith, h, unpaid, found);
                keyed = same;
                distinct =
                    subst NoRepeat same
                      (NoRepeat-unique_from [] (ys_of c.y_of_secret credential.proofs) all);
              }
        ]
  ]

-- What `accept` of a store promises: it succeeds exactly when the challenge is unpaid and no key was
-- seen, it then records both, and otherwise it changes nothing.
pub record IsAtomic {S : Type 0} (store : AcceptorStore S) : Type 0 where
  pub accept_lem :
      (now : ℕ) (state : ChallengeState) (ys : List Text) (s : S)
      → (store.accept now state ys s).0
        ≡ not (
            has_receipt (store.get_challenge state.challenge.challenge_id s)
            || store.has_any_y ys s)
  pub accept-false :
      (now : ℕ) (state : ChallengeState) (ys : List Text) (s : S)
      → (store.accept now state ys s).0 ≡ false
      → (store.accept now state ys s).1 ≡ s
  pub get-accept :
      (now : ℕ) (state : ChallengeState) (ys : List Text) (s : S)
      → (store.accept now state ys s).0 ≡ true
      → store.get_challenge state.challenge.challenge_id (store.accept now state ys s).1
        ≡ some state
  pub has-accept :
      (now : ℕ) (state : ChallengeState) (ys zs : List Text) (y : Text) (s : S)
      → (store.accept now state ys s).0 ≡ true
      → contains y ys ≡ true
      → contains y zs ≡ true
      → store.has_any_y zs (store.accept now state ys s).1 ≡ true

-- What is paid stays paid and what is seen stays seen, whatever the store accepts.
pub record IsLasting {S : Type 0} (store : AcceptorStore S) : Type 0 where
  pub has_receipt-accept :
      (now : ℕ) (state : ChallengeState) (ys : List Text) (s : S) (id : Text)
      → has_receipt (store.get_challenge id s) ≡ true
      → has_receipt (store.get_challenge id (store.accept now state ys s).1) ≡ true
  pub has_any_y-accept :
      (now : ℕ) (state : ChallengeState) (ys zs : List Text) (s : S)
      → store.has_any_y zs s ≡ true
      → store.has_any_y zs (store.accept now state ys s).1 ≡ true

module _ (c : Proofs) (acceptor : Acceptor) {S : Type 0} (store : AcceptorStore S) where
  -- What the store is asked to record.
  abbrev pub accepted_state : ChallengeState → PicocashCredential → ℕ → ChallengeState
  accepted_state state credential now = record {
    challenge = state.challenge;
    credential = some credential;
    receipt = some (pending_receipt c acceptor state.challenge now);
  }

  pub precheck-eq-ok :
      (credential : PicocashCredential) (external : Option PicocashChallenge) (now : ℕ) (s : S)
      (next : ChallengeState) (ys : List Text)
      → precheck c acceptor store credential external now s ≡ ok (next, ys)
      → (state : ChallengeState) × (resolve_challenge c acceptor store credential external s
          ≡ ok state)
        × IsAcceptable c acceptor state credential now ys
        × (store.has_any_y ys s ≡ false)
        × (accepted_state state credential now ≡ next)
  unfolding precheck
  precheck-eq-ok credential external now s next ys h =
      let (state, e₁, h₁) =
        >>=-eq-ok (resolve_challenge c acceptor store credential external s) _ h in
      let (zs, e₂, h₂) = >>=-eq-ok (check c acceptor state credential now) _ h₁ in
      let (u, e₃, h₃) =
        >>=-eq-ok (ensure (not (store.has_any_y zs s)) CredentialRejected.duplicate_token) _ h₂ in
      let same = ok-eq-ok h₃ in
      let keys : zs ≡ ys = ap (λ p. p.1) same in
      (
        state,
        e₁,
        subst (IsAcceptable c acceptor state credential now) keys
            (check-IsAcceptable c acceptor state credential now zs e₂),
        rw (← keys) (ground (arith, ensure-eq-ok _ _ e₃)),
        ap (λ p. p.0) same,
      )

  -- The outcomes of `verifyCredential`: a failed check, a lost race in the store, or acceptance.
  pub data Verified (credential : PicocashCredential) (external : Option PicocashChallenge)
      (now : ℕ) (s : S) (r : Result CredentialRejected PicocashReceipt × S) : Type 0 where
    rejected :
        (e : CredentialRejected)
        → precheck c acceptor store credential external now s ≡ err e
        → r ≡ (err e, s)
        → Verified credential external now s r
    lost :
        (next : ChallengeState) (ys : List Text)
        → precheck c acceptor store credential external now s ≡ ok (next, ys)
        → (store.accept now next ys s).0 ≡ false
        → r ≡ (err CredentialRejected.challenge_already_paid, (store.accept now next ys s).1)
        → Verified credential external now s r
    accepted :
        (next : ChallengeState) (ys : List Text)
        → precheck c acceptor store credential external now s ≡ ok (next, ys)
        → (store.accept now next ys s).0 ≡ true
        → r ≡ (ok (pending_receipt c acceptor next.challenge now), (store.accept now next ys s).1)
        → Verified credential external now s r

  pub verify_credential-cases :
      (credential : PicocashCredential) (external : Option PicocashChallenge) (now : ℕ) (s : S)
      → Verified credential external now s
          (verify_credential c acceptor store credential external now s)
  unfolding verify_credential
  verify_credential-cases credential external now s =
      elim (Result-cases (precheck c acceptor store credential external now s)) [
        | inr (e, p) ↦ rejected e p (rw (verify_credential, p) refl)
        | inl ((next, ys), p) ↦ elim (Bool-cases (store.accept now next ys s).0) [
          | inl won ↦ accepted next ys p won (rw (verify_credential, p, won) refl)
          | inr gone ↦ lost next ys p gone (rw (verify_credential, p, gone) refl)
        ]
      ]
