-- ===== src/Crypto/P2pk/Secret/Opening.antt =====
-- p2pk.ts: a signature with the lock key opens a secret before its locktime.
use picocash.Prelude.{
  ℕ, ◌≡◌, refl, sym, subst, Text, Bool, true, false, Option, some, List, [], ◌∷◌, arith, contains,
  ◌==◌, ==→≡, inl, inr, Bool-cases,
}
use picocash.Result.{ok}
use picocash.Crypto.P2pk.{
  P2pkConditions, by_lock, has_signed, signers, is_expired, verify_p2pk_spend,
}
use picocash.Crypto.P2pk.Secret.{SecretText, parse_p2pk_secret, parse_p2pk_witness, verify_spend}

module _ (verify_sig : Text → Text → Bool) where
  has_signed-contains :
      (sigs : List Text) (sig key : Text)
      → contains sig sigs ≡ true
      → verify_sig sig key ≡ true
      → has_signed verify_sig sigs key ≡ true
  unfolding has_signed
  has_signed-contains [] sig key held valid = absurd (cc held)
  has_signed-contains (s ∷ ss) sig key held valid = elim (Bool-cases (s == sig)) [
    | inl same ↦
        rw (has_signed, subst (λ t. verify_sig t key ≡ true) (sym (==→≡ s sig same)) valid) refl
    | inr other ↦
        let rest = has_signed-contains ss sig key (ground (arith, held, other)) valid in
        ground (arith, rest)
  ]

  lock_key-spends :
      (c : P2pkConditions) (sigs : List Text) (sig : Text) (now : ℕ)
      → c.n_sigs ≡ 1
      → is_expired verify_sig c now ≡ false
      → contains sig sigs ≡ true
      → verify_sig sig c.lock_key ≡ true
      → (verify_p2pk_spend verify_sig c sigs now) ≡ some by_lock
  unfolding verify_p2pk_spend signers
  lock_key-spends c sigs sig now one early held valid =
      rw
        (verify_p2pk_spend, early, one, signers, has_signed-contains sigs sig c.lock_key held valid)
        (ground arith)

-- A secret with conditions that ask for one signature is opened, before its locktime, by a witness
-- with a valid signature of the lock key.
pub verify_spend-opens :
    (c : SecretText) (secret : Text) (witness : Option Text) (conditions : P2pkConditions)
    (sigs : List Text) (sig : Text) (now : ℕ)
    → parse_p2pk_secret c secret ≡ ok (some conditions)
    → parse_p2pk_witness c witness ≡ ok sigs
    → conditions.n_sigs ≡ 1
    → is_expired (c.verify_sig secret) conditions now ≡ false
    → contains sig sigs ≡ true
    → c.verify_sig secret sig conditions.lock_key ≡ true
    → verify_spend c secret witness now ≡ true
unfolding verify_spend
verify_spend-opens c secret witness conditions sigs sig now parsed read one early held valid =
    rw
      (
        verify_spend,
        parsed,
        read,
        lock_key-spends (c.verify_sig secret) conditions sigs sig now one early held valid,
      )
      refl
