-- ===== src/Crypto/P2pk/Safety.antt =====
-- A spend that p2pk.ts accepts is signed by a key that its conditions name, or is free to take.
use picocash.Prelude.{
  ℕ, ◌+◌, ◌≤◌, Text, ◌≡◌, refl, Bool, true, false, Option, none, some, List, [], ◌∷◌, length,
  contains, arith, ==_refl, leb, leb→le, ◌⊎◌, inl, inr, Bool-cases, Option-cases,
}
use picocash.Result.{ok, ensure, ensure-eq-ok, >>=-eq-ok, ok-eq-ok}
use picocash.Crypto.P2pk.{
  TagName, P2pkConditions, P2pkError, P2pkPath, first_number, apply_tag, apply_tags,
  parse_conditions, has_signed, any_signed, signers, is_expired, refund_verdict, verify_p2pk_spend,
}

module _ (is_pubkey is_sig_inputs : Text → Bool) (to_number : Text → Option ℕ) where
  first_number-positive :
      (values : List Text) (n : ℕ)
      → first_number is_pubkey is_sig_inputs to_number values ≡ some n
      → 1 ≤ n
  unfolding first_number
  first_number-positive [] n e = cc
  first_number-positive (v ∷ vs) n e = elim (Option-cases (to_number v)) [
    | inl none_there ↦ ground arith
    | inr (m, there) ↦ ground arith
  ]

  apply_tag-positive :
      (name : TagName) (values : List Text) (c d : P2pkConditions)
      → apply_tag is_pubkey is_sig_inputs to_number name values c ≡ ok d
      → 1 ≤ c.n_sigs
      → 1 ≤ d.n_sigs
  unfolding apply_tag
  apply_tag-positive name values c d e h =
      elim (Option-cases (first_number is_pubkey is_sig_inputs to_number values)) [
        | inl missing ↦ without_number name e missing
        | inr (n, there) ↦ with_number name e n there
      ]
    where
      without_number :
          (name : TagName)
          → apply_tag is_pubkey is_sig_inputs to_number name values c ≡ ok d
          → first_number is_pubkey is_sig_inputs to_number values ≡ none
          → 1 ≤ d.n_sigs
      without_number TagName.locktime e m = ground arith
      without_number TagName.refund e m = ground arith
      without_number TagName.pubkeys e m = ground arith
      without_number TagName.n_sigs e m = ground arith
      without_number TagName.sigflag e m = ground arith
      without_number TagName.unknown e m = ground arith

      with_number :
          (name : TagName)
          → apply_tag is_pubkey is_sig_inputs to_number name values c ≡ ok d
          → (n : ℕ) → first_number is_pubkey is_sig_inputs to_number values ≡ some n
          → 1 ≤ d.n_sigs
      with_number TagName.locktime e n m = ground arith
      with_number TagName.refund e n m = ground arith
      with_number TagName.pubkeys e n m = ground arith
      with_number TagName.n_sigs e n m = ground (arith, first_number-positive values n m)
      with_number TagName.sigflag e n m = ground arith
      with_number TagName.unknown e n m = ground arith

  apply_tags-positive :
      (tags : List (TagName × List Text)) (c d : P2pkConditions)
      → apply_tags is_pubkey is_sig_inputs to_number tags c ≡ ok d
      → 1 ≤ c.n_sigs
      → 1 ≤ d.n_sigs
  unfolding apply_tags
  apply_tags-positive [] c d e h = ground arith
  apply_tags-positive ((name, values) ∷ tags) c d e h =
      let (m, e₁, e₂) = >>=-eq-ok (apply_tag is_pubkey is_sig_inputs to_number name values c) _ e in
      apply_tags-positive tags m d e₂ (apply_tag-positive name values c m e₁ h)

  -- Conditions that parse ask for one signature at least, and for no more than they have lock keys.
  pub parse_conditions-bounds :
      (key : Text) (tags : List (TagName × List Text)) (c : P2pkConditions)
      → parse_conditions is_pubkey is_sig_inputs to_number key tags ≡ ok c
      → (1 ≤ c.n_sigs) × (c.n_sigs ≤ 1 + length c.pubkeys)
  unfolding parse_conditions
  parse_conditions-bounds key tags c e =
      let (u, e₁, e₂) = >>=-eq-ok (ensure (is_pubkey key) P2pkError.bad_lock_key) _ e in
      let (d, e₃, e₄) = >>=-eq-ok (apply_tags is_pubkey is_sig_inputs to_number tags _) _ e₂ in
      let (u', e₅, e₆) =
        >>=-eq-ok (ensure (leb d.n_sigs (1 + length d.pubkeys)) P2pkError.too_many_sigs) _ e₄ in
      let same : d ≡ c = ok-eq-ok e₆ in
      rw (← same) (apply_tags-positive tags _ d e₃ (omega arith), leb→le _ _ (ensure-eq-ok _ _ e₅))

module _ (verify_sig : Text → Text → Bool) (sigs : List Text) where
  -- One of these keys has signed.
  abbrev pub SignedByOne : List Text → Type 0
  SignedByOne keys = (k : Text) × (contains k keys ≡ true) × (has_signed verify_sig sigs k ≡ true)

  signers-SignedByOne :
      (seen keys : List Text) → 1 ≤ length (signers verify_sig sigs seen keys) → SignedByOne keys
  unfolding signers
  signers-SignedByOne seen [] h = absurd (omega arith)
  signers-SignedByOne seen (k ∷ ks) h = elim (Bool-cases (has_signed verify_sig sigs k)) [
    | inl signed ↦ (k, ground (arith, ==_refl k), signed)
    | inr other ↦
        let (j, m, signed) = signers-SignedByOne seen ks (ground (arith, h)) in
        (j, ground (arith, m), signed)
  ]

  any_signed-SignedByOne :
      (keys : List Text) → any_signed verify_sig sigs keys ≡ true → SignedByOne keys
  unfolding any_signed
  any_signed-SignedByOne [] h = cc
  any_signed-SignedByOne (k ∷ ks) h = elim (Bool-cases (has_signed verify_sig sigs k)) [
    | inl signed ↦ (k, ground (arith, ==_refl k), signed)
    | inr other ↦
        let (j, m, signed) = any_signed-SignedByOne ks (ground (arith, h)) in
        (j, ground (arith, m), signed)
  ]

module _ (is_pubkey is_sig_inputs : Text → Bool) (to_number : Text → Option ℕ)
    (verify_sig : Text → Text → Bool) where
  -- A spend that is accepted under conditions that parse is signed by one of the lock keys before
  -- the lock expires; after that it is signed by one of the refund keys, where there are any.
  pub verify_p2pk_spend-signed :
      (key : Text) (tags : List (TagName × List Text)) (c : P2pkConditions) (sigs : List Text)
      (now : ℕ) (path : P2pkPath)
      → parse_conditions is_pubkey is_sig_inputs to_number key tags ≡ ok c
      → verify_p2pk_spend verify_sig c sigs now ≡ some path
      → ((is_expired verify_sig c now ≡ false)
          × SignedByOne verify_sig sigs (c.lock_key ∷ c.pubkeys))
        ⊎ ((is_expired verify_sig c now ≡ true)
            × ((c.refund ≡ []) ⊎ SignedByOne verify_sig sigs c.refund))
  unfolding verify_p2pk_spend refund_verdict
  verify_p2pk_spend-signed key tags c sigs now path e h =
      let bounds = parse_conditions-bounds is_pubkey is_sig_inputs to_number key tags c e in
      elim (Bool-cases (is_expired verify_sig c now)) [
        | inr locked ↦ inl (
          locked,
          signers-SignedByOne verify_sig sigs [] (c.lock_key ∷ c.pubkeys)
              (ground (arith, bounds.0, h, locked)),
        )
        | inl expired ↦ inr (expired, refunded c.refund refl (rw expired at h))
      ]
    where
      refunded :
          (keys : List Text)
          → c.refund ≡ keys
          → refund_verdict verify_sig sigs c.refund ≡ some path
          → (c.refund ≡ []) ⊎ SignedByOne verify_sig sigs c.refund
      refunded [] same v = inl same
      refunded (k ∷ ks) same v =
          inr (
            rw same
              (any_signed-SignedByOne verify_sig sigs (k ∷ ks) (ground (arith, rw same at v))))
