-- ===== src/Acceptor/Memory/Retention.antt =====
-- What the memory store remembers: a key that was accepted is refused until its retention ends.
use picocash.Prelude.{
  ℕ, ◌+◌, ◌≤◌, Text, ◌≡◌, refl, ◌∙◌, ◌⊎◌, true, false, some, List, [], ◌∷◌, arith, ◌==◌, ◌||◌,
  contains, Bool-cases, ==→≡, inl, inr,
}
use picocash.Dict.{lookup, put, lookup-put}
use picocash.Acceptor.{ChallengeState}
use picocash.Acceptor.Memory.{
  MemoryStore, MemoryOptions, sweep_ys, has_y, put_ys, has_receipt, memory_put, memory_accept,
}

pub data StoreCall : Type 0 where
  to_put : ChallengeState → StoreCall
  to_accept : ChallengeState → List Text → StoreCall

-- The store after operations, each with its time.
unfoldable pub perform_calls : MemoryOptions → List (ℕ × StoreCall) → MemoryStore → MemoryStore
perform_calls options [] s = s
perform_calls options ((now, to_put state) ∷ rest) s =
    perform_calls options rest (memory_put options now state s)
perform_calls options ((now, to_accept state ys) ∷ rest) s =
    perform_calls options rest (memory_accept options now state ys s).1

abbrev pub AllBefore : ℕ → List (ℕ × StoreCall) → Type 0
AllBefore limit [] = Unit
AllBefore limit ((now, o) ∷ rest) = (now ≤ limit) × AllBefore limit rest

-- The key is held until the limit at least.
abbrev pub HeldUntil : ℕ → Text → List (Text × ℕ) → Type 0
HeldUntil limit y seen = (exp : ℕ) × (lookup y seen ≡ some exp) × (limit ≤ exp)

sweep_ys-HeldUntil :
    (limit now : ℕ) (y : Text) (seen : List (Text × ℕ))
    → now ≤ limit
    → HeldUntil limit y seen
    → HeldUntil limit y (sweep_ys now seen)
unfolding sweep_ys lookup
sweep_ys-HeldUntil limit now y [] h (exp, e, le) = cc
sweep_ys-HeldUntil limit now y ((x, until) ∷ seen) h (exp, e, le) = elim (Bool-cases (x == y)) [
  | inl hit ↦ (exp, ground (arith, e, hit, le, h), le)
  | inr miss ↦
      let (exp', e', le') =
        sweep_ys-HeldUntil limit now y seen h (exp, ground (arith, e, miss), le) in
      (exp', ground (arith, e', miss), le')
]

put_ys-kept :
    (limit exp : ℕ) (y : Text) (ys : List Text) (seen : List (Text × ℕ))
    → limit ≤ exp
    → HeldUntil limit y seen
    → HeldUntil limit y (put_ys exp ys seen)
unfolding put_ys
put_ys-kept limit exp y [] seen h held = held
put_ys-kept limit exp y (x ∷ ys) seen h (old, e, le) =
    put_ys-kept limit exp y ys (put x exp seen) h (elim (Bool-cases (x == y)) [
      | inl hit ↦ (exp, ground (arith, lookup-put y x exp seen, hit), h)
      | inr miss ↦ (old, ground (arith, lookup-put y x exp seen, miss, e), le)
    ])

lookup-put_ys :
    (y : Text) (exp : ℕ) (ys : List Text) (seen : List (Text × ℕ))
    → contains y ys ≡ false
    → lookup y (put_ys exp ys seen) ≡ lookup y seen
unfolding put_ys
lookup-put_ys y exp [] seen m = refl
lookup-put_ys y exp (x ∷ ys) seen m =
    ground (arith, m, lookup-put_ys y exp ys (put x exp seen), lookup-put y x exp seen)

pub put_ys-HeldUntil :
    (limit exp : ℕ) (y : Text) (ys : List Text) (seen : List (Text × ℕ))
    → limit ≤ exp
    → contains y ys ≡ true
    → HeldUntil limit y (put_ys exp ys seen)
unfolding put_ys
put_ys-HeldUntil limit exp y [] seen h m = cc
put_ys-HeldUntil limit exp y (x ∷ ys) seen h m = elim (Bool-cases (x == y)) [
  | inl hit ↦
      put_ys-kept limit exp y ys (put x exp seen) h
        (exp, ground (arith, lookup-put y x exp seen, hit), h)
  | inr miss ↦ put_ys-HeldUntil limit exp y ys (put x exp seen) h (ground (arith, m, miss))
]

pub has_y-HeldUntil :
    (limit : ℕ) (y : Text) (ys : List Text) (seen : List (Text × ℕ))
    → contains y ys ≡ true
    → HeldUntil limit y seen
    → has_y seen ys ≡ true
unfolding has_y
has_y-HeldUntil limit y [] seen m held = cc
has_y-HeldUntil limit y (x ∷ ys) seen m (exp, e, le) = elim (Bool-cases (x == y)) [
  | inl hit ↦ ground (arith, e, ==→≡ x y hit)
  | inr miss ↦
      ground (arith, has_y-HeldUntil limit y ys seen (ground (arith, m, miss)) (exp, e, le))
]

module _ (options : MemoryOptions) where
  -- What `accept` answers, and when.
  pub memory_accept-cases :
      (now : ℕ) (state : ChallengeState) (ys : List Text) (s : MemoryStore)
      → (((has_receipt (lookup state.challenge.challenge_id s.challenges) || has_y s.ys ys) ≡ true)
          × (memory_accept options now state ys s ≡ (false, s)))
        ⊎ ((has_receipt (lookup state.challenge.challenge_id s.challenges) ≡ false)
            × (has_y s.ys ys ≡ false)
            × (memory_accept options now state ys s ≡ (
              true,
              record {
                challenges = put state.challenge.challenge_id state s.challenges;
                ys = put_ys (now + options.y_ttl_seconds) ys s.ys;
              },
            )))
  unfolding memory_accept
  memory_accept-cases now state ys s =
      elim (Bool-cases
        (has_receipt (lookup state.challenge.challenge_id s.challenges) || has_y s.ys ys)) [
          | inl known ↦ inl (known, rw known refl)
          | inr fresh ↦ inr (ground (arith, fresh), ground (arith, fresh), rw fresh refl)
        ]

  accept-HeldUntil :
      (limit now : ℕ) (y : Text) (state : ChallengeState) (ys : List Text) (s : MemoryStore)
      → HeldUntil limit y s.ys
      → HeldUntil limit y (memory_accept options now state ys s).1.ys
  accept-HeldUntil limit now y state ys s held = elim (memory_accept-cases now state ys s) [
    | inl (known, e) ↦ rw e held
    | inr (unpaid, unseen, e) ↦ elim (Bool-cases (contains y ys)) [
      | inl m ↦ absurd (cc (has_y-HeldUntil limit y ys s.ys m held, unseen))
      | inr m ↦
          rw e (held.0, lookup-put_ys y (now + options.y_ttl_seconds) ys s.ys m ∙ held.1, held.2)
    ]
  ]

  perform_calls-HeldUntil :
      (limit : ℕ) (y : Text) (os : List (ℕ × StoreCall)) (s : MemoryStore)
      → AllBefore limit os
      → HeldUntil limit y s.ys
      → HeldUntil limit y (perform_calls options os s).ys
  unfolding perform_calls memory_put
  perform_calls-HeldUntil limit y [] s b held = held
  perform_calls-HeldUntil limit y ((now, to_put state) ∷ os) s b held =
      perform_calls-HeldUntil limit y os (memory_put options now state s) b.1
        (sweep_ys-HeldUntil limit now y s.ys b.0 held)
  perform_calls-HeldUntil limit y ((now, to_accept state ys) ∷ os) s b held =
      perform_calls-HeldUntil limit y os (memory_accept options now state ys s).1 b.1
        (accept-HeldUntil limit now y state ys s held)

  -- A key that was accepted is not accepted again until its retention has passed, whatever the store
  -- is asked in between, and the attempt changes nothing.
  pub memory_accept-once :
      (first now : ℕ) (state next : ChallengeState) (ys zs : List Text) (y : Text)
      (s s' : MemoryStore) (os : List (ℕ × StoreCall))
      → memory_accept options first state ys s ≡ (true, s')
      → contains y ys ≡ true
      → contains y zs ≡ true
      → AllBefore (first + options.y_ttl_seconds) os
      → memory_accept options now next zs (perform_calls options os s')
        ≡ (false, perform_calls options os s')
  memory_accept-once first now state next ys zs y s s' os h m n b =
      let limit = first + options.y_ttl_seconds in
      let held : HeldUntil limit y s'.ys = elim (memory_accept-cases first state ys s) [
        | inl (known, e) ↦ absurd (cc (h, e))
        | inr (unpaid, unseen, e) ↦
            let same : s' ≡ record {
              challenges = put state.challenge.challenge_id state s.challenges;
              ys = put_ys limit ys s.ys;
            } =
              cc (h, e) in
            rw same (put_ys-HeldUntil limit limit y ys s.ys (omega arith) m)
      ] in
      elim (memory_accept-cases now next zs (perform_calls options os s')) [
        | inl (known, e) ↦ e
        | inr (unpaid, unseen, e) ↦ absurd (
            cc (
              has_y-HeldUntil limit y zs (perform_calls options os s').ys n
                  (perform_calls-HeldUntil limit y os s' b held),
              unseen,
            ))
      ]
