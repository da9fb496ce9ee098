-- ===== src/Acceptor/Settle/Kept.antt =====
-- The memory store keeps a challenge with a receipt until it is put again or pushed out.
use picocash.Prelude.{
  ℕ, ◌≤◌, Text, ◌≡◌, false, some, List, [], ◌∷◌, length, arith, ◌==◌, Bool-cases, inl, inr, ==→≡,
}
use picocash.Dict.{lookup, lookup-put}
use picocash.Acceptor.{ChallengeState, PicocashReceipt}
use picocash.Acceptor.Memory.{
  MemoryStore, MemoryOptions, sweep_challenges, evict, memory_put, memory_accept,
}
use picocash.Acceptor.Memory.Retention.{
  StoreCall, to_put, to_accept, perform_calls, memory_accept-cases,
}

-- Every challenge that is put is another one, and is put where no more than the limit are held.
abbrev pub Spares : MemoryOptions → Text → List (ℕ × StoreCall) → MemoryStore → Type 0
Spares options id [] s = Unit
Spares options id ((now, to_put state) ∷ rest) s =
    ((state.challenge.challenge_id == id) ≡ false)
    × (length s.challenges ≤ options.max_challenges)
    × Spares options id rest (memory_put options now state s)
Spares options id ((now, to_accept state ys) ∷ rest) s =
    Spares options id rest (memory_accept options now state ys s).1

lookup-sweep_challenges :
    (now : ℕ) (id : Text) (state : ChallengeState) (receipt : PicocashReceipt)
    (challenges : List (Text × ChallengeState))
    → state.receipt ≡ some receipt
    → lookup id challenges ≡ some state
    → lookup id (sweep_challenges now challenges) ≡ some state
unfolding sweep_challenges lookup
lookup-sweep_challenges now id state receipt [] made h = h
lookup-sweep_challenges now id state receipt ((key, held) ∷ rest) made h =
    let later = lookup-sweep_challenges now id state receipt rest made in
    elim (Bool-cases (key == id)) [
      | inl hit ↦
          let same : held ≡ state = ground (arith, h, hit) in ground (arith, hit, same, made)
      | inr miss ↦ ground (arith, miss, later (ground (arith, h, miss)))
    ]

length-sweep_challenges :
    (now : ℕ) (challenges : List (Text × ChallengeState))
    → length (sweep_challenges now challenges) ≤ length challenges
unfolding sweep_challenges
length-sweep_challenges now [] = omega arith
length-sweep_challenges now ((key, held) ∷ rest) = ground (arith, length-sweep_challenges now rest)

evict_lem :
    (limit : ℕ) (challenges : List (Text × ChallengeState))
    → length challenges ≤ limit
    → evict limit challenges ≡ challenges
unfolding evict
evict_lem limit challenges h = ground (arith, h)

module _ (options : MemoryOptions) (id : Text) (state : ChallengeState) (receipt : PicocashReceipt)
    (made : state.receipt ≡ some receipt) where
  put_kept :
      (now : ℕ) (other : ChallengeState) (s : MemoryStore)
      → (other.challenge.challenge_id == id) ≡ false
      → length s.challenges ≤ options.max_challenges
      → lookup id s.challenges ≡ some state
      → lookup id (memory_put options now other s).challenges ≡ some state
  unfolding memory_put
  put_kept now other s apart room h =
      let swept = sweep_challenges now s.challenges in
      let stays =
        evict_lem options.max_challenges swept
          (omega (arith, length-sweep_challenges now s.challenges, room)) in
      rw (stays, lookup-put id other.challenge.challenge_id other swept, apart)
        (lookup-sweep_challenges now id state receipt s.challenges made h)

  accept_kept :
      (now : ℕ) (other : ChallengeState) (ys : List Text) (s : MemoryStore)
      → lookup id s.challenges ≡ some state
      → lookup id (memory_accept options now other ys s).1.challenges ≡ some state
  accept_kept now other ys s h = elim (memory_accept-cases options now other ys s) [
    | inl (known, e) ↦ rw e h
    | inr (unpaid, unseen, e) ↦ elim (Bool-cases (other.challenge.challenge_id == id)) [
      | inl same ↦ absurd (cc (rw (==→≡ other.challenge.challenge_id id same, h, made) at unpaid))
      | inr apart ↦ rw (e, lookup-put id other.challenge.challenge_id other s.challenges, apart) h
    ]
  ]

  pub perform_calls_kept :
      (calls : List (ℕ × StoreCall)) (s : MemoryStore)
      → Spares options id calls s
      → lookup id s.challenges ≡ some state
      → lookup id (perform_calls options calls s).challenges ≡ some state
  unfolding perform_calls
  perform_calls_kept [] s spares h = h
  perform_calls_kept ((now, to_put other) ∷ rest) s (apart, room, spares) h =
      perform_calls_kept rest (memory_put options now other s) spares
        (put_kept now other s apart room h)
  perform_calls_kept ((now, to_accept other ys) ∷ rest) s spares h =
      perform_calls_kept rest (memory_accept options now other ys s).1 spares
        (accept_kept now other ys s h)
