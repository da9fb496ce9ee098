-- ===== src/Acceptor/Agent/Accepted.antt =====
-- agent.ts and acceptor.ts: what an agent pays is what the service accepts.
use picocash.Prelude.{
  ℕ, ◌≡◌, refl, sym, subst, ap, ◌∙◌, Text, true, false, none, some, List, [], length, sum_by, ◌==◌,
  ltb, inl, inr, Bool-cases, ==→≡,
}
use picocash.Result.{Result, ok, err, >>=-eq-ok, ok-eq-ok}
use picocash.Crypto.Curve.{Bytes, Curve}
use picocash.Crypto.Curve.Laws.{IsCurve}
use picocash.Crypto.P2pk.Secret.{SecretText}
use picocash.Sdk.Blinding.{decompose}
use picocash.Sdk.Store.{Proof, unique_from, ys_of}
use picocash.Sdk.Outputs.{Hex}
use picocash.Sdk.Outputs.Offline.{offline}
use picocash.Sdk.Secrets.{BindText, parse_pc_bind_secret, IsBindText}
use picocash.Sdk.Token.{TokenText}
use picocash.Sdk.Wallet.{MintApi, WalletError, or_throw_as, bad_amount}
use picocash.Sdk.Wallet.Payments.{send_with}
use picocash.Sdk.Wallet.Payments.Exact.{send_with-IsSent}
use picocash.Acceptor.{
  KeysetInfo, Proofs, Acceptor, TrustedMint, PicocashChallenge, ChallengeState, AcceptorStore,
  all_of, find_mint, is_bound, check, precheck, resolve_challenge, verify_credential,
  pending_receipt, verify_proof_offline,
}
use picocash.Acceptor.Agent.Fine.{bound_secrets, IsFine, check-IsFine}
use picocash.Acceptor.Agent.{
  Payment, or_wallet, bind_secrets, pay_bound, pay_with, locked_to, allows,
}

or_wallet-eq-ok :
    {E A : Type 0} (r : Result (WalletError E) A) {a : A} → or_wallet r ≡ ok a → r ≡ ok a
or_wallet-eq-ok (ok b) h = cc h
or_wallet-eq-ok (err e) h = absurd (cc h)

module _ {E P : Type 0} (mint : MintApi E) (curve : Curve P) (curve_laws : IsCurve curve)
    (hex : Hex) (decodes : (b : Bytes) → hex.of_hex (hex.to_hex b) ≡ some b) (checks : Proofs)
    (binds : BindText) (laws : IsBindText binds) (keyset : KeysetInfo) where
  -- The service's interface, with the offline check and the reading of secrets in place.
  abbrev pub service : Proofs
  service =
      offline curve curve_laws hex decodes
        (record checks { parse_pc_bind = parse_pc_bind_secret binds }) keyset

  -- A payment from proofs that were swapped for the challenge.
  record IsPayment (challenge : PicocashChallenge) (mint_url : Text) (acceptor : Acceptor)
      (payment : Payment) : Type 0 where
    id : payment.credential.challenge_id ≡ challenge.challenge_id
    at_mint : payment.credential.mint ≡ mint_url
    keyset_id : payment.credential.keyset_id ≡ keyset.id
    total : sum_by Proof.amount payment.credential.proofs ≡ challenge.amount
    offline : all_of (verify_proof_offline service keyset) payment.credential.proofs ≡ true
    bound :
        (now : ℕ)
        → all_of (is_bound service acceptor challenge now) payment.credential.proofs ≡ true

  pay_bound-IsPayment :
      (draw : ℕ → Text × Bytes) (text : TokenText) (salt : ℕ → Text) (acceptor : Acceptor)
      (challenge : PicocashChallenge) (mint_url : Text) (proofs : List Proof) (payment : Payment)
      → pay_bound mint curve hex draw text binds salt challenge mint_url keyset proofs ≡ ok payment
      → IsPayment challenge mint_url acceptor payment
  unfolding pay_bound
  pay_bound-IsPayment draw text salt acceptor challenge mint_url proofs payment h =
      let (amounts, split, h₁) =
        >>=-eq-ok (or_wallet (or_throw_as bad_amount (decompose challenge.amount))) _ h in
      let secrets = bind_secrets binds salt challenge 0 amounts in
      let (sent, paid, h₂) =
        >>=-eq-ok
          (or_wallet (
            send_with mint curve hex draw text mint_url keyset proofs challenge.amount
              (some secrets) none))
          _ h₁ in
      let s =
        send_with-IsSent mint curve curve_laws hex decodes
          (record checks { parse_pc_bind = parse_pc_bind_secret binds }) keyset draw text mint_url
          proofs challenge.amount (some secrets) none sent (or_wallet-eq-ok _ paid) in
      subst (IsPayment challenge mint_url acceptor) (ok-eq-ok h₂) (record {
        id = refl;
        at_mint = refl;
        keyset_id = s.named;
        total = s.bundled;
        offline = s.bundle_passes;
        bound = λ now.
            bound_secrets service binds laws (λ secret. refl) acceptor challenge salt 0 amounts
              sent.bundle.proofs now (s.bound secrets refl);
      })

  -- A challenge as `createChallenge` stores it, and as the store gives it back.
  abbrev pub open_state : PicocashChallenge → ChallengeState
  open_state challenge = record { challenge = challenge; credential = none; receipt = none }

  payment-IsFine :
      (acceptor : Acceptor) (challenge : PicocashChallenge) (mint_url : Text) (payment : Payment)
      (trusted : TrustedMint) (now : ℕ)
      → IsPayment challenge mint_url acceptor payment
      → keyset.unit ≡ challenge.unit
      → ltb challenge.expiry now ≡ false
      → find_mint mint_url keyset.id acceptor.mints ≡ some trusted
      → trusted.keyset ≡ keyset
      → (length (unique_from [] (ys_of checks.y_of_secret payment.credential.proofs))
          == length (ys_of checks.y_of_secret payment.credential.proofs))
        ≡ true
      → IsFine service acceptor (open_state challenge) payment.credential trusted now
  payment-IsFine acceptor challenge mint_url payment trusted now p units live found same fresh =
      record {
        unpaid = refl;
        live = live;
        found =
            ap (λ u. find_mint u payment.credential.keyset_id acceptor.mints) p.at_mint
            ∙ ap (λ k. find_mint mint_url k acceptor.mints) p.keyset_id
            ∙ found;
        unit = ap checks.lower (ap KeysetInfo.unit same ∙ units);
        bound = p.bound now;
        total = p.total;
        offline =
            subst (λ k. all_of (verify_proof_offline service k) payment.credential.proofs ≡ true)
              (sym same) p.offline;
        fresh = fresh;
      }

  module _ {S : Type 0} (store : AcceptorStore S) where
    -- The state that the store is asked to accept.
    abbrev pub accepted_state : Acceptor → PicocashChallenge → Payment → ℕ → ChallengeState
    accepted_state acceptor challenge payment now = record {
      challenge = challenge;
      credential = some payment.credential;
      receipt = some (pending_receipt service acceptor challenge now);
    }

    accepted-check :
        (acceptor : Acceptor) (challenge : PicocashChallenge) (payment : Payment) (now : ℕ) (s : S)
        (ys : List Text)
        → payment.credential.challenge_id ≡ challenge.challenge_id
        → store.get_challenge challenge.challenge_id s ≡ some (open_state challenge)
        → check service acceptor (open_state challenge) payment.credential now ≡ ok ys
        → store.has_any_y ys s ≡ false
        → (store.accept now (accepted_state acceptor challenge payment now) ys s).0 ≡ true
        → (verify_credential service acceptor store payment.credential none now s).0
          ≡ ok (pending_receipt service acceptor challenge now)
    unfolding verify_credential precheck resolve_challenge
    accepted-check acceptor challenge payment now s ys id stored checked unseen taken =
        let there = ap (λ i. store.get_challenge i s) id ∙ stored in
        rw (verify_credential, precheck, resolve_challenge, there, checked, unseen, taken) refl

    -- On a curve with its laws, where text reads back as it was written: let an agent hold no proof
    -- that is locked to the challenge's key, and let `payChallenge` return a payment, whatever the
    -- mint answered. Where the service holds the challenge as it created it, takes the agent's mint
    -- with the same keyset, and the challenge is not expired, where the payment's keys are distinct,
    -- and the store has seen none and records them, the service answers with a pending receipt.
    pub pay_with-accepted :
        (draw : ℕ → Text × Bytes) (text : TokenText) (salt : ℕ → Text) (locks : SecretText)
        (acceptor : Acceptor) (challenge : PicocashChallenge) (mint_url : Text)
        (proofs : List Proof) (payment : Payment) (trusted : TrustedMint) (now : ℕ) (s : S)
        → locked_to locks challenge.pubkey proofs ≡ []
        → pay_with mint curve hex draw text binds salt locks challenge mint_url proofs keyset
          ≡ ok payment
        → store.get_challenge challenge.challenge_id s ≡ some (open_state challenge)
        → ltb challenge.expiry now ≡ false
        → find_mint mint_url keyset.id acceptor.mints ≡ some trusted
        → trusted.keyset ≡ keyset
        → (length (unique_from [] (ys_of checks.y_of_secret payment.credential.proofs))
            == length (ys_of checks.y_of_secret payment.credential.proofs))
          ≡ true
        → store.has_any_y (ys_of checks.y_of_secret payment.credential.proofs) s ≡ false
        → (store.accept now
            (accepted_state acceptor challenge payment now)
            (ys_of checks.y_of_secret payment.credential.proofs)
            s).0
          ≡ true
        → (verify_credential service acceptor store payment.credential none now s).0
          ≡ ok (pending_receipt service acceptor challenge now)
    unfolding pay_with
    pay_with-accepted draw text salt locks acceptor challenge mint_url proofs payment trusted now s
          unlocked paid stored live found same fresh unseen taken =
        elim (Bool-cases (keyset.unit == challenge.unit)) [
          | inr other ↦ absurd (cc (rw (pay_with, other) at paid))
          | inl units ↦ elim (Bool-cases (allows mint curve hex challenge mint_url keyset)) [
            | inr shut ↦ absurd (cc (rw (pay_with, units, shut) at paid))
            | inl allowed ↦
                let p =
                  pay_bound-IsPayment draw text salt acceptor challenge mint_url proofs payment
                    (rw (pay_with, units, allowed, unlocked) at paid) in
                let fine =
                  payment-IsFine acceptor challenge mint_url payment trusted now p
                    (==→≡ keyset.unit challenge.unit units) live found same fresh in
                accepted-check acceptor challenge payment now s
                  (ys_of checks.y_of_secret payment.credential.proofs) p.id stored
                  (check-IsFine service acceptor (open_state challenge) payment.credential trusted
                    now fine)
                  unseen taken
          ]
        ]
