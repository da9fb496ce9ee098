-- ===== src/Acceptor/Settle/Final.antt =====
-- acceptor.ts: settlements after one that was answered, on the memory store.
use picocash.Prelude.{
  ◌==◌, ℕ, Text, ◌≡◌, refl, sym, ap, ◌∙◌, ◌⊎◌, false, Bool-cases, Option, some, List, arith,
  ==_refl, Option-cases, inl, inr,
}
use picocash.Result.{Result, ok, err, ok-eq-ok}
use picocash.Dict.{lookup, lookup-put}
use picocash.Sdk.Store.{Proof}
use picocash.Acceptor.{ChallengeState, PicocashReceipt, PicocashCredential}
use picocash.Acceptor.Memory.{
  MemoryStore, MemoryOptions, evict, sweep_challenges, memory_put, memory_store,
}
use picocash.Acceptor.Memory.Retention.{StoreCall, perform_calls}
use picocash.Acceptor.Settle.Kept.{Spares, perform_calls_kept}
use picocash.Acceptor.Settle.{
  SwapFailure, swap_accepted, settled_receipt, is_pending, settle, get_receipt,
}

-- Challenges stand under their own ids.
abbrev pub IsKeyed : MemoryStore → Type 0
IsKeyed s =
    (id : Text) (state : ChallengeState)
    → lookup id s.challenges ≡ some state
    → state.challenge.challenge_id ≡ id

pub settled_receipt-is_pending :
    (receipt next : PicocashReceipt) (r : Result SwapFailure (List Proof))
    → settled_receipt receipt r ≡ some next
    → is_pending next.settlement ≡ false
unfolding settled_receipt
settled_receipt-is_pending receipt next (ok fresh) h = cc
settled_receipt-is_pending receipt next (err SwapFailure.token_already_spent) h = cc
settled_receipt-is_pending receipt next (err SwapFailure.other_failure) h = cc

lookup-memory_put :
    (options : MemoryOptions) (now : ℕ) (id : Text) (state : ChallengeState) (s : MemoryStore)
    → state.challenge.challenge_id ≡ id
    → lookup id (memory_put options now state s).challenges ≡ some state
unfolding memory_put
lookup-memory_put options now id state s named =
    let kept = evict options.max_challenges (sweep_challenges now s.challenges) in
    let stored = lookup-put id state.challenge.challenge_id state kept in
    stored ∙ (rw (ap (λ n. n == id) named, ==_refl id) refl)

module _ (options : MemoryOptions) (sign : Option (List Proof → List Proof))
    (swap : List Proof → List ℕ → Result SwapFailure (List Proof)) where
  -- What a settlement finds where it answers, and what it leaves.
  settle-cases :
      (now : ℕ) (id : Text) (s s' : MemoryStore) (receipt : PicocashReceipt)
      → settle (memory_store options) sign swap now id s ≡ (ok receipt, s')
      → (state : ChallengeState) × (credential : PicocashCredential) × (before : PicocashReceipt)
        × (lookup id s.challenges ≡ some state)
        × (state.credential ≡ some credential)
        × (state.receipt ≡ some before)
        × (((is_pending before.settlement ≡ false) × (receipt ≡ before) × (s' ≡ s))
            ⊎ ((settled_receipt before (swap_accepted sign swap credential before.amount)
                  ≡ some receipt)
                × (s' ≡ memory_put options now (record state { receipt = some receipt }) s)))
  unfolding settle
  settle-cases now id s s' receipt h = elim (Option-cases (lookup id s.challenges)) [
    | inl missing ↦ absurd (ground (arith, h, missing))
    | inr (state, found) ↦ elim (Option-cases state.receipt) [
      | inl unpaid ↦ absurd (ground (arith, h, found, unpaid))
      | inr (before, made) ↦ elim (Option-cases state.credential) [
        | inl bare ↦ absurd (ground (arith, h, found, made, bare))
        | inr (credential, given) ↦ (
          state,
          credential,
          before,
          found,
          given,
          made,
          elim (Bool-cases (is_pending before.settlement)) [
            | inr final ↦
                let e = rw (settle, found, made, given, final) at h in
                inl (final, ok-eq-ok (sym (ap (λ r. r.0) e)), sym (ap (λ r. r.1) e))
            | inl waiting ↦
                elim (Option-cases
                  (settled_receipt before (swap_accepted sign swap credential before.amount))) [
                    | inl failed ↦
                        absurd (cc (rw (settle, found, made, given, waiting, failed) at h))
                    | inr (next, moved) ↦
                        let e = rw (settle, found, made, given, waiting, moved) at h in
                        let same = ok-eq-ok (ap (λ r. r.0) e) in
                        inr (
                          moved ∙ ap some same,
                          sym (ap (λ r. r.1) e)
                              ∙ ap
                                  (λ n.
                                    memory_put options now (record state { receipt = some n }) s)
                                  same,
                        )
                  ]
          ],
        )
      ]
    ]
  ]

  settle-final :
      (now : ℕ) (id : Text) (s : MemoryStore) (state : ChallengeState)
      (credential : PicocashCredential) (receipt : PicocashReceipt)
      → lookup id s.challenges ≡ some state
      → state.receipt ≡ some receipt
      → state.credential ≡ some credential
      → is_pending receipt.settlement ≡ false
      → settle (memory_store options) sign swap now id s ≡ (ok receipt, s)
  unfolding settle
  settle-final now id s state credential receipt found made given final =
      rw (settle, found, made, given, final) refl

  -- The store that a settlement leaves holds the receipt, and nothing to settle.
  settle-found :
      (now : ℕ) (id : Text) (s s' : MemoryStore) (receipt : PicocashReceipt)
      → IsKeyed s
      → settle (memory_store options) sign swap now id s ≡ (ok receipt, s')
      → (state : ChallengeState) × (credential : PicocashCredential) × (lookup id s'.challenges
          ≡ some state)
        × (state.receipt ≡ some receipt)
        × (state.credential ≡ some credential)
        × (is_pending receipt.settlement ≡ false)
  settle-found now id s s' receipt keyed h =
      let (state, credential, before, found, given, made, moves) =
        settle-cases now id s s' receipt h in
      elim moves [
        | inl (final, same, unchanged) ↦
            (state, credential, rw unchanged found, rw same made, given, rw same final)
        | inr (moved, written) ↦ (
          record state { receipt = some receipt },
          credential,
          rw written (
              lookup-memory_put options now id (record state { receipt = some receipt }) s
                (keyed id state found)),
          refl,
          given,
          settled_receipt-is_pending before receipt _ moved,
        )
      ]

module _ (options : MemoryOptions) (sign sign' : Option (List Proof → List Proof))
    (swap swap' : List Proof → List ℕ → Result SwapFailure (List Proof)) where
  -- Where challenges stand under their own ids: after a settlement answered with a receipt, and after
  -- whatever the store was asked to accept and to put since, as long as no put was for the challenge or
  -- met more challenges than the limit, a settlement answers with the same receipt, whatever the mint
  -- would say, and leaves the store as it is; `getReceipt` gives that receipt too.
  pub settle-again :
      (now later : ℕ) (id : Text) (s s' : MemoryStore) (receipt : PicocashReceipt)
      (since : List (ℕ × StoreCall))
      → IsKeyed s
      → settle (memory_store options) sign swap now id s ≡ (ok receipt, s')
      → Spares options id since s'
      → (settle (memory_store options) sign' swap' later id (perform_calls options since s')
          ≡ (ok receipt, perform_calls options since s'))
        × (get_receipt (memory_store options) id (perform_calls options since s') ≡ some receipt)
  unfolding get_receipt
  settle-again now later id s s' receipt since keyed h spares =
      let (state, credential, found, made, given, final) =
        settle-found options sign swap now id s s' receipt keyed h in
      let held = perform_calls_kept options id state receipt made since s' spares found in
      (
        settle-final options sign' swap' later id (perform_calls options since s') state credential
            receipt held made given final,
        rw (get_receipt, held, made) refl,
      )
