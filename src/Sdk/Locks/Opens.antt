-- ===== src/Sdk/Locks/Opens.antt =====
-- packages/sdk/src/p2pk.ts: the holder of a lock key can spend what is locked to it.
use picocash.Prelude.{
  ℕ, ◌≡◌, refl, subst, Text, Bool, true, false, Option, none, some, List, [], ◌∷◌, ◌++◌, arith,
  contains, ==_refl, inl, inr, Bool-cases, Option-cases,
}
use picocash.Result.{ok, ok-eq-ok}
use picocash.Acceptor.{all_of, get_or}
use picocash.Crypto.P2pk.{is_expired}
use picocash.Crypto.P2pk.Secret.{
  SecretText, LockOptions, p2pk_secret_hex, parse_p2pk_witness, verify_spend,
}
use picocash.Crypto.P2pk.Secret.RoundTrip.{
  IsSecretText, conditions_of, parse_p2pk_secret-p2pk_secret_hex,
}
use picocash.Crypto.P2pk.Secret.Opening.{verify_spend-opens}
use picocash.Sdk.Store.{Proof}
use picocash.Sdk.Locks.{add_signature, attach, sign_proof}

contains-append : (k : Text) (xs : List Text) → contains k (xs ++ (k ∷ [])) ≡ true
contains-append k [] = rw (==_refl k) refl
contains-append k (x ∷ xs) = ground (arith, contains-append k xs)

contains-add_signature :
    (c : SecretText) (sig : Text) (xs : List Text) → contains sig (add_signature c sig xs) ≡ true
contains-add_signature c sig xs = elim (Bool-cases (contains sig xs)) [
  | inl old ↦ rw old old
  | inr new ↦ rw new (contains-append sig xs)
]

all_of-append :
    (f : Text → Bool) (xs : List Text) (y : Text)
    → all_of f xs ≡ true
    → f y ≡ true
    → all_of f (xs ++ (y ∷ [])) ≡ true
all_of-append f [] y h g = rw g refl
all_of-append f (x ∷ xs) y h g = elim (Bool-cases (f x)) [
  | inl good ↦ rw (good, all_of-append f xs y (rw good at h) g) refl
  | inr bad ↦ absurd (cc (rw bad at h))
]

module _ (c : SecretText) (laws : IsSecretText c) where
  -- What reads as a witness are signatures.
  parse_p2pk_witness-signatures :
      (witness : Option Text) (sigs : List Text)
      → parse_p2pk_witness c witness ≡ ok sigs
      → all_of c.is_sig sigs ≡ true
  unfolding parse_p2pk_witness
  parse_p2pk_witness-signatures none sigs read =
      subst (λ ss. all_of c.is_sig ss ≡ true) (ok-eq-ok read) refl
  parse_p2pk_witness-signatures (some w) sigs read = elim (Option-cases (c.read_witness w)) [
    | inl unread ↦ absurd (cc (rw (parse_p2pk_witness, unread) at read))
    | inr (found, e) ↦ elim (Bool-cases (all_of c.is_sig found)) [
      | inl good ↦
          subst (λ ss. all_of c.is_sig ss ≡ true)
            (ok-eq-ok (rw (parse_p2pk_witness, e, good) at read)) good
      | inr bad ↦ absurd (cc (rw (parse_p2pk_witness, e, bad) at read))
    ]
  ]

  all_of-add_signature :
      (sig : Text) (sigs : List Text)
      → all_of c.is_sig sigs ≡ true
      → c.is_sig sig ≡ true
      → all_of c.is_sig (add_signature c sig sigs) ≡ true
  all_of-add_signature sig sigs old good = elim (Bool-cases (contains sig sigs)) [
    | inl held ↦ rw held old
    | inr new ↦ rw new (all_of-append c.is_sig sigs sig old good)
  ]

  -- A witness that reads, with one more signature, reads again.
  parse_p2pk_witness-write_witness :
      (sigs : List Text)
      → all_of c.is_sig sigs ≡ true
      → parse_p2pk_witness c (some (c.write_witness sigs)) ≡ ok sigs
  unfolding parse_p2pk_witness
  parse_p2pk_witness-write_witness sigs good =
      rw (parse_p2pk_witness, laws.witnesses sigs, good) refl

  -- Where text reads back as it was written and signatures verify: a proof whose secret was made for
  -- the public key of a private key, asking for one signature, and whose witness, if it has one, can
  -- be read, is signed by `signProofs` with that private key to a proof that `verifyP2pkSpend`
  -- accepts until the locktime, if there is one.
  pub verify_spend-sign_proof :
      (drawn private_key : Text) (options : LockOptions) (proof : Proof) (sigs : List Text)
      (now : ℕ)
      → p2pk_secret_hex c drawn (c.public_key private_key) options ≡ ok proof.secret
      → get_or options.n_sigs 1 ≡ 1
      → parse_p2pk_witness c proof.witness ≡ ok sigs
      → is_expired
          (c.verify_sig proof.secret)
          (conditions_of c laws (c.public_key private_key) options)
          now
        ≡ false
      → (signed : Proof) × (sign_proof c private_key proof ≡ ok signed)
        × (signed.secret ≡ proof.secret)
        × (verify_spend c signed.secret signed.witness now ≡ true)
  unfolding sign_proof attach
  verify_spend-sign_proof drawn private_key options proof sigs now made one read early =
      let key = c.public_key private_key in
      let sig = c.sign proof.secret private_key in
      let sigs' = add_signature c sig sigs in
      let parsed = parse_p2pk_secret-p2pk_secret_hex c laws drawn key options proof.secret made in
      let signed : Proof = record proof { witness = some (c.write_witness sigs') } in
      (
        signed,
        rw (sign_proof, parsed, attach, ==_refl key, read) refl,
        refl,
        verify_spend-opens c proof.secret signed.witness (conditions_of c laws key options) sigs'
            sig now parsed
            (parse_p2pk_witness-write_witness sigs' (
              all_of-add_signature sig sigs (parse_p2pk_witness-signatures proof.witness sigs read)
                (laws.signed proof.secret private_key)))
            one early (contains-add_signature c sig sigs) (laws.verified proof.secret private_key),
      )
