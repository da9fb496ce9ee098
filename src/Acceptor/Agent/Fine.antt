-- ===== src/Acceptor/Agent/Fine.antt =====
-- acceptor.ts: the checks of a credential that is in order.
use picocash.Prelude.{
  ℕ, suc, ◌≡◌, refl, ap, ◌∙◌, Text, true, false, none, some, List, [], ◌∷◌, map, length, sum_by,
  ◌==◌, ltb, inl, inr, Bool-cases, Option-cases, ==_refl,
}
use picocash.Result.{ok}
use picocash.Sdk.Store.{Proof, unique_from, ys_of}
use picocash.Sdk.Secrets.{
  BindText, pc_bind_secret_hex, parse_pc_bind_secret, IsBindText,
  parse_pc_bind_secret-pc_bind_secret_hex,
}
use picocash.Acceptor.{
  KeysetInfo, Proofs, Acceptor, TrustedMint, PicocashChallenge, PicocashCredential, ChallengeState,
  all_of, find_mint, pubkey_of, is_bound, bound_by_nonce, check, verify_proof_offline,
}
use picocash.Acceptor.Agent.{bind_secrets}

-- A key is there for every proof that passes the offline check.
pub keyed :
    (c : Proofs) (keyset : KeysetInfo) (proofs : List Proof)
    → all_of (verify_proof_offline c keyset) proofs ≡ true
    → all_of (λ p. elim (pubkey_of keyset.keys p.amount) [ none ↦ false | some _ ↦ true ]) proofs
      ≡ true
unfolding verify_proof_offline
keyed c keyset [] h = refl
keyed c keyset (p ∷ ps) h = elim (Bool-cases (verify_proof_offline c keyset p)) [
  | inr bad ↦ absurd (cc (rw bad at h))
  | inl good ↦
      let rest = keyed c keyset ps (rw good at h) in
      elim (Option-cases (pubkey_of keyset.keys p.amount)) [
        | inr (key, there) ↦ rw (there, rest) refl
        | inl missing ↦ elim (Bool-cases (p.keyset_id == keyset.id)) [
          | inl same ↦ absurd (cc (rw (verify_proof_offline, same, missing) at good))
          | inr other ↦ absurd (cc (rw (verify_proof_offline, other) at good))
        ]
      ]
]

module _ (c : Proofs) (binds : BindText) (laws : IsBindText binds)
    (reads : (secret : Text) → c.parse_pc_bind secret ≡ parse_pc_bind_secret binds secret)
    (acceptor : Acceptor) (challenge : PicocashChallenge) where
  bound_secret :
      (proof : Proof) (salt : Text) (now : ℕ)
      → proof.secret ≡ pc_bind_secret_hex binds challenge.nonce challenge.realm salt
      → is_bound c acceptor challenge now proof ≡ true
  unfolding is_bound bound_by_nonce
  bound_secret proof salt now h =
      let parsed =
        reads proof.secret
        ∙ ap (parse_pc_bind_secret binds) h
        ∙ parse_pc_bind_secret-pc_bind_secret_hex binds laws challenge.nonce challenge.realm salt in
      rw (is_bound, bound_by_nonce, parsed, ==_refl challenge.nonce, ==_refl challenge.realm) refl

  pub bound_secrets :
      (salt : ℕ → Text) (i : ℕ) (amounts : List ℕ) (proofs : List Proof) (now : ℕ)
      → map Proof.secret proofs ≡ bind_secrets binds salt challenge i amounts
      → all_of (is_bound c acceptor challenge now) proofs ≡ true
  unfolding bind_secrets
  bound_secrets salt i amounts [] now h = refl
  bound_secrets salt i [] (p ∷ ps) now h = absurd (cc h)
  bound_secrets salt i (a ∷ amounts) (p ∷ ps) now h =
      rw (bound_secret p (salt i) now (cc h), bound_secrets salt (suc i) amounts ps now (cc h)) refl

-- What the checks ask of a credential, one by one.
pub record IsFine (c : Proofs) (acceptor : Acceptor) (state : ChallengeState)
    (credential : PicocashCredential) (trusted : TrustedMint) (now : ℕ) : Type 0 where
  pub unpaid : state.receipt ≡ none
  pub live : ltb state.challenge.expiry now ≡ false
  pub found : find_mint credential.mint credential.keyset_id acceptor.mints ≡ some trusted
  pub unit : c.lower trusted.keyset.unit ≡ c.lower state.challenge.unit
  pub bound : all_of (is_bound c acceptor state.challenge now) credential.proofs ≡ true
  pub total : sum_by Proof.amount credential.proofs ≡ state.challenge.amount
  pub offline : all_of (verify_proof_offline c trusted.keyset) credential.proofs ≡ true
  pub fresh :
      (length (unique_from [] (ys_of c.y_of_secret credential.proofs))
        == length (ys_of c.y_of_secret credential.proofs))
      ≡ true

pub check-IsFine :
    (c : Proofs) (acceptor : Acceptor) (state : ChallengeState) (credential : PicocashCredential)
    (trusted : TrustedMint) (now : ℕ)
    → IsFine c acceptor state credential trusted now
    → check c acceptor state credential now ≡ ok (ys_of c.y_of_secret credential.proofs)
unfolding check
check-IsFine c acceptor state credential trusted now f =
    let same_unit : (c.lower trusted.keyset.unit == c.lower state.challenge.unit) ≡ true =
      rw f.unit (==_refl (c.lower state.challenge.unit)) in
    let same_total : (sum_by Proof.amount credential.proofs == state.challenge.amount) ≡ true =
      rw f.total (==_refl state.challenge.amount) in
    rw
      (
        check,
        f.unpaid,
        f.live,
        f.found,
        same_unit,
        f.bound,
        same_total,
        keyed c trusted.keyset credential.proofs f.offline,
        f.offline,
        f.fresh,
      )
      refl
