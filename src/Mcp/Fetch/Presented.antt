-- ===== src/Mcp/Fetch/Presented.antt =====
-- wallet-service.ts: what the agent presents for a challenge.
use picocash.Prelude.{
  Text, ◌≡◌, ◌⊎◌, refl, ap, ◌∙◌, true, not, Option, none, some, List, [], ◌∷◌, All, ◌==◌, inl, inr,
  Bool-cases, Option-cases, subst, ==→≡, ==_refl, contains, arith,
}
use picocash.Result.{Result, ok, >>=-eq-ok, ok-eq-ok}
use picocash.Crypto.P2pk.{P2pkConditions, P2pkError}
use picocash.Sdk.Store.{Proof}
use picocash.Sdk.Locks.{lock_of}
use picocash.Acceptor.{PicocashChallenge, empty_text}
use picocash.Acceptor.Agent.{index_from}
use picocash.Reserves.Collisions.{any_of}
use picocash.Mcp.{Signer, matches, is_ours, can_spend, is_key, spendable_of, locked_to_merchant}
use picocash.Mcp.Picker.{pick_exact_subset}
use picocash.Mcp.Fetch.{is_some, is_empty, locked_for, present}

-- The first parts of two answers that are the same.
first_same :
    {a b c d : List Proof}
    → ◌≡◌ {A = Result P2pkError (List Proof × List Proof)} (ok (a, b)) (ok (c, d))
    → a ≡ c
first_same h = ap (λ (r : List Proof × List Proof). r.0) (ok-eq-ok h)

module _ (signer : Signer) where
  -- The agent's key is the lock key, one of the further keys or one of the refund keys.
  abbrev pub Names : P2pkConditions → Type 0
  Names conditions =
      (key : Text) × ((key ≡ conditions.lock_key)
        ⊎ ((contains key conditions.pubkeys ≡ true) ⊎ (contains key conditions.refund ≡ true)))
      × (signer.x_only key ≡ signer.mine)

  -- Unlocked, or locked under conditions that name the agent's key.
  abbrev pub IsOpen : Proof → Type 0
  IsOpen p =
      (lock_of signer.locks p ≡ ok none)
      ⊎ ((conditions : P2pkConditions) × (lock_of signer.locks p ≡ ok (some conditions))
          × Names conditions)

  abbrev pub IsLockedTo : Text → Proof → Type 0
  IsLockedTo merchant p =
      (conditions : P2pkConditions) × (lock_of signer.locks p ≡ ok (some conditions))
      × (conditions.lock_key ≡ merchant)

  -- Where one of the keys is the agent's.
  any_of-matches :
      (keys : List Text)
      → any_of (matches signer) keys ≡ true
      → (key : Text) × (contains key keys ≡ true) × (signer.x_only key ≡ signer.mine)
  any_of-matches [] h = absurd (cc h)
  any_of-matches (k ∷ ks) h = elim (Bool-cases (matches signer k)) [
    | inl named ↦ (k, rw (==_refl k) refl, ==→≡ (signer.x_only k) signer.mine named)
    | inr other ↦ let (key, m, e) = any_of-matches ks (rw other at h) in (key, ground (arith, m), e)
  ]

  is_ours-Names :
      (conditions : P2pkConditions) → is_ours signer conditions ≡ true → Names conditions
  unfolding is_ours
  is_ours-Names conditions h = elim (Bool-cases (matches signer conditions.lock_key)) [
    | inl named ↦
        (conditions.lock_key, inl refl, ==→≡ (signer.x_only conditions.lock_key) signer.mine named)
    | inr other ↦ elim (Bool-cases (any_of (matches signer) conditions.pubkeys)) [
      | inl among ↦
          let (key, m, e) = any_of-matches conditions.pubkeys among in (key, inr (inl m), e)
      | inr absent ↦
          let (key, m, e) = any_of-matches conditions.refund (rw (is_ours, other, absent) at h) in
          (key, inr (inr m), e)
    ]
  ]

  can_spend-IsOpen : (p : Proof) → can_spend signer p ≡ ok true → IsOpen p
  unfolding can_spend
  can_spend-IsOpen p h =
      let (lock, found, h₁) = >>=-eq-ok (lock_of signer.locks p) _ h in
      elim (Option-cases lock) [
        | inl bare ↦ inl (found ∙ ap ok bare)
        | inr (conditions, locked) ↦ inr (
          conditions,
          found ∙ ap ok locked,
          is_ours-Names conditions (ok-eq-ok (rw locked at h₁)),
        )
      ]

  spendable_of-IsOpen :
      (held ours others : List Proof)
      → spendable_of signer held ≡ ok (ours, others)
      → All IsOpen ours
  unfolding spendable_of
  spendable_of-IsOpen [] ours others h = subst (All IsOpen) (first_same h) tt
  spendable_of-IsOpen (p ∷ ps) ours others h =
      let (fits, tested, h₁) = >>=-eq-ok (can_spend signer p) _ h in
      let ((a, b), rest, h₂) = >>=-eq-ok (spendable_of signer ps) _ h₁ in
      let hs = spendable_of-IsOpen ps a b rest in
      elim (Bool-cases fits) [
        | inl good ↦
            subst (All IsOpen) (first_same (rw good at h₂))
              (can_spend-IsOpen p (tested ∙ ap ok good), hs)
        | inr bad ↦ subst (All IsOpen) (first_same (rw bad at h₂)) hs
      ]

  is_key-IsLockedTo :
      (merchant : Text) (p : Proof) (lock : Option P2pkConditions)
      → lock_of signer.locks p ≡ ok lock
      → is_key signer merchant lock ≡ true
      → IsLockedTo merchant p
  is_key-IsLockedTo merchant p none found h = absurd (cc h)
  is_key-IsLockedTo merchant p (some conditions) found h =
      (conditions, found, ==→≡ conditions.lock_key merchant h)

  locked_to_merchant-IsLockedTo :
      (held locked others : List Proof) (merchant : Text)
      → locked_to_merchant signer held merchant ≡ ok (locked, others)
      → All (IsLockedTo merchant) locked
  unfolding locked_to_merchant
  locked_to_merchant-IsLockedTo [] locked others merchant h =
      subst (All (IsLockedTo merchant)) (first_same h) tt
  locked_to_merchant-IsLockedTo (p ∷ ps) locked others merchant h =
      let (lock, found, h₁) = >>=-eq-ok (lock_of signer.locks p) _ h in
      let ((a, b), rest, h₂) = >>=-eq-ok (locked_to_merchant signer ps merchant) _ h₁ in
      let hs = locked_to_merchant-IsLockedTo ps a b merchant rest in
      elim (Bool-cases (is_key signer merchant lock)) [
        | inl named ↦
            subst (All (IsLockedTo merchant)) (first_same (rw named at h₂))
              (is_key-IsLockedTo merchant p lock found named, hs)
        | inr unnamed ↦ subst (All (IsLockedTo merchant)) (first_same (rw unnamed at h₂)) hs
      ]

  locked_for-IsLockedTo :
      (pubkey : Option Text) (held locked others : List Proof)
      → locked_for signer pubkey held ≡ ok (locked, others)
      → not (is_empty locked) ≡ true
      → (merchant : Text) × (pubkey ≡ some merchant) × All (IsLockedTo merchant) locked
  unfolding locked_for
  locked_for-IsLockedTo none held locked others h some_there =
      let e = ap (λ (r : List Proof × List Proof). not (is_empty r.0)) (ok-eq-ok h) in
      absurd (cc (e, some_there))
  locked_for-IsLockedTo (some merchant) held locked others h some_there =
      elim (Bool-cases (merchant == empty_text)) [
        | inl blank ↦
            let e =
              ap (λ (r : List Proof × List Proof). not (is_empty r.0))
                (ok-eq-ok (rw (locked_for, blank) at h)) in
            absurd (cc (e, some_there))
        | inr named ↦ (
          merchant,
          refl,
          locked_to_merchant-IsLockedTo held locked others merchant (rw (locked_for, named) at h),
        )
      ]

  -- What is presented for a challenge: only proofs that are unlocked or whose conditions name the agent's
  -- own key, as the lock key, a further key or a refund key; or only proofs whose lock key is the one of
  -- the challenge.
  pub present-IsOpen :
      (challenge : PicocashChallenge) (held presented others : List Proof)
      → present signer challenge held ≡ ok (presented, others)
      → All IsOpen presented
        ⊎ ((merchant : Text) × (challenge.pubkey ≡ some merchant)
            × All (IsLockedTo merchant) presented)
  unfolding present
  present-IsOpen challenge held presented others h =
      let ((ours, rest), parted, h₁) = >>=-eq-ok (spendable_of signer held) _ h in
      let ((locked, unlocked), found, h₂) =
        >>=-eq-ok (locked_for signer challenge.pubkey held) _ h₁ in
      let exact = is_some (pick_exact_subset (index_from 0 locked) challenge.amount) in
      elim (Bool-cases (not (is_empty locked))) [
        | inr bare ↦ inl (
            subst (All IsOpen) (first_same (rw bare at h₂))
              (spendable_of-IsOpen held ours rest parted))
        | inl there ↦ elim (Bool-cases exact) [
          | inr short ↦ inl (
              subst (All IsOpen) (first_same (rw (there, short) at h₂))
                (spendable_of-IsOpen held ours rest parted))
          | inl pays ↦
              let (merchant, named, hs) =
                locked_for-IsLockedTo challenge.pubkey held locked unlocked found there in
              inr (
                merchant,
                named,
                subst (All (IsLockedTo merchant)) (first_same (rw (there, pays) at h₂)) hs,
              )
        ]
      ]
