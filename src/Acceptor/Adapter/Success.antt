-- ===== src/Acceptor/Adapter/Success.antt =====
-- mppx.ts: what a success of `broadcast` means.
use picocash.Prelude.{
  ℕ, Text, ◌≡◌, refl, sym, ap, ◌∙◌, false, Option, some, List, inl, inr, Bool-cases, Option-cases,
}
use picocash.Result.{Result, ok, err, Result-cases, ok-eq-ok}
use picocash.Sdk.Store.{Proof}
use picocash.Acceptor.{
  Proofs, Acceptor, AcceptorStore, PicocashChallenge, PicocashReceipt, Settlement, settled,
  pending_receipt, precheck, verify_credential,
}
use picocash.Acceptor.Settle.{
  SwapFailure, SettleError, settle, swap_accepted, settled_receipt, is_pending,
}
use picocash.Acceptor.Settle.Final.{settled_receipt-is_pending}
use picocash.Acceptor.Adapter.{
  WireText, MppxChallenge, MppxReceipt, Payload, Mode, settle_first, accept_then_settle,
  is_double_spent, to_picocash_challenge, to_picocash_credential, settled_answer, conclude,
  accept_payload, broadcast,
}

module _ {S : Type 0} (store : AcceptorStore S) (sign : Option (List Proof → List Proof))
    (swap : List Proof → List ℕ → Result SwapFailure (List Proof)) where
  -- A settlement that answers with a receipt is over.
  settle-is_pending :
      (now : ℕ) (id : Text) (s : S) (receipt : PicocashReceipt)
      → (settle store sign swap now id s).0 ≡ ok receipt
      → is_pending receipt.settlement ≡ false
  unfolding settle
  settle-is_pending now id s receipt h = elim (Option-cases (store.get_challenge id s)) [
    | inl missing ↦ absurd (cc (rw (settle, missing) at h))
    | inr (state, found) ↦ elim (Option-cases state.receipt) [
      | inl unpaid ↦ absurd (cc (rw (settle, found, unpaid) at h))
      | inr (before, made) ↦ elim (Option-cases state.credential) [
        | inl bare ↦ absurd (cc (rw (settle, found, made, bare) at h))
        | inr (credential, given) ↦ elim (Bool-cases (is_pending before.settlement)) [
          | inr final ↦
              ap (λ (r : PicocashReceipt). is_pending r.settlement)
                (sym (ok-eq-ok (rw (settle, found, made, given, final) at h)))
              ∙ final
          | inl waiting ↦
              let answer = swap_accepted sign swap credential before.amount in
              elim (Option-cases (settled_receipt before answer)) [
                | inl failed ↦ absurd (cc (rw (settle, found, made, given, waiting, failed) at h))
                | inr (next, moved) ↦
                    ap (λ (r : PicocashReceipt). is_pending r.settlement)
                      (sym (ok-eq-ok (rw (settle, found, made, given, waiting, moved) at h)))
                    ∙ settled_receipt-is_pending before next answer moved
              ]
        ]
      ]
    ]
  ]

neither :
    (settlement : Settlement)
    → is_pending settlement ≡ false
    → is_double_spent settlement ≡ false
    → settlement ≡ settled
neither Settlement.pending p d = absurd (cc p)
neither Settlement.settled p d = refl
neither Settlement.double_spent p d = absurd (cc d)

settled_answer-settled :
    (now : ℕ) (answer : Result SettleError PicocashReceipt) (receipt : MppxReceipt)
    → ((r : PicocashReceipt) → answer ≡ ok r → is_pending r.settlement ≡ false)
    → settled_answer now answer ≡ ok receipt
    → receipt.settlement ≡ settled
settled_answer-settled now (err e) receipt over h = absurd (cc h)
settled_answer-settled now (ok r) receipt over h =
    elim (Bool-cases (is_double_spent r.settlement)) [
      | inl double ↦ absurd (cc (rw double at h))
      | inr fine ↦
          ap MppxReceipt.settlement (sym (ok-eq-ok (rw fine at h)))
          ∙ neither r.settlement (over r refl) fine
    ]

-- The settlement that a success tells of.
abbrev pub promised : Mode → Settlement
promised settle_first = Settlement.settled
promised accept_then_settle = Settlement.pending

module _ (w : WireText) (c : Proofs) (acceptor : Acceptor) {S : Type 0} (store : AcceptorStore S)
    (sign : Option (List Proof → List Proof))
    (swap : List Proof → List ℕ → Result SwapFailure (List Proof)) where
  conclude-promised :
      (mode : Mode) (now : ℕ) (accepted : PicocashReceipt) (s : S) (receipt : MppxReceipt)
      → accepted.settlement ≡ Settlement.pending
      → (conclude w c acceptor store sign swap mode now accepted s).0 ≡ ok receipt
      → receipt.settlement ≡ promised mode
  unfolding conclude
  conclude-promised settle_first now accepted s receipt waits h =
      settled_answer-settled now ((settle store sign swap now accepted.challenge_id s).0) receipt
        (settle-is_pending store sign swap now accepted.challenge_id s) h
  conclude-promised accept_then_settle now accepted s receipt waits h =
      ap MppxReceipt.settlement (sym (ok-eq-ok h)) ∙ waits

  -- What the acceptor answers with is pending.
  verify_credential-pending :
      (pc : PicocashChallenge) (payload : Payload) (now : ℕ) (s : S) (accepted : PicocashReceipt)
      → (verify_credential c acceptor store
          (to_picocash_credential pc.challenge_id payload)
          (some pc)
          now
          s).0
        ≡ ok accepted
      → accepted.settlement ≡ Settlement.pending
  unfolding verify_credential pending_receipt
  verify_credential-pending pc payload now s accepted h =
      let credential = to_picocash_credential pc.challenge_id payload in
      elim (Result-cases (precheck c acceptor store credential (some pc) now s)) [
        | inr (e, failed) ↦ absurd (cc (rw (verify_credential, failed) at h))
        | inl ((next, ys), checked) ↦ elim (Bool-cases ((store.accept now next ys s).0)) [
          | inr refused ↦ absurd (cc (rw (verify_credential, checked, refused) at h))
          | inl taken ↦
              ap PicocashReceipt.settlement
                (sym (ok-eq-ok (rw (verify_credential, checked, taken) at h)))
        ]
      ]

  -- A success of `broadcast` is of a credential that the acceptor has accepted for the challenge, and
  -- tells of a settlement that is settled where the mode is to settle first, and of one that is pending
  -- where it is to settle later.
  pub broadcast_success :
      (mode : Mode) (challenge : MppxChallenge) (payload : Payload) (now : ℕ) (s : S)
      (receipt : MppxReceipt)
      → (broadcast w c acceptor store sign swap mode challenge payload now s).0 ≡ ok receipt
      → (pc : PicocashChallenge) × (accepted : PicocashReceipt) × (to_picocash_challenge w challenge
            now
          ≡ ok pc)
        × ((verify_credential c acceptor store
              (to_picocash_credential pc.challenge_id payload)
              (some pc)
              now
              s).0
            ≡ ok accepted)
        × (receipt.settlement ≡ promised mode)
  unfolding broadcast accept_payload
  broadcast_success mode challenge payload now s receipt h =
      elim (Result-cases (to_picocash_challenge w challenge now)) [
        | inr (e, bad) ↦ absurd (cc (rw (broadcast, bad) at h))
        | inl (pc, made) ↦
            let verified =
              verify_credential c acceptor store (to_picocash_credential pc.challenge_id payload)
                (some pc) now s in
            elim (Result-cases verified.0) [
              | inr (e, refused) ↦ absurd (cc (rw (broadcast, made, accept_payload, refused) at h))
              | inl (accepted, taken) ↦ (
                pc,
                accepted,
                made,
                taken,
                conclude-promised mode now accepted verified.1 receipt
                    (verify_credential-pending pc payload now s accepted taken)
                    (rw (broadcast, made, accept_payload, taken) at h),
              )
            ]
      ]
