-- ===== src/Acceptor/Memory/Atomic.antt =====
-- The memory store keeps the promise of `AcceptorStore`.
use picocash.Prelude.{
  ℕ, ◌+◌, Text, ◌≡◌, ◌==◌, refl, true, false, List, [], ◌∷◌, arith, inl, inr, Bool-cases,
  Option-cases, ==→≡, ==_refl,
}
use picocash.Dict.{lookup, put, lookup-put}
use picocash.Acceptor.{ChallengeState}
use picocash.Acceptor.Memory.{MemoryOptions, has_y, put_ys, has_receipt, memory_store}
use picocash.Acceptor.Memory.Retention.{memory_accept-cases, has_y-HeldUntil, put_ys-HeldUntil}
use picocash.Acceptor.Pipeline.{IsAtomic, IsLasting}

has_y-put :
    (y : Text) (exp : ℕ) (seen : List (Text × ℕ)) (zs : List Text)
    → has_y seen zs ≡ true
    → has_y (put y exp seen) zs ≡ true
unfolding has_y
has_y-put y exp seen [] h = cc
has_y-put y exp seen (z ∷ zs) h = elim (Option-cases (lookup z seen)) [
  | inl missing ↦
      ground (arith, lookup-put z y exp seen, has_y-put y exp seen zs (ground (arith, h, missing)))
  | inr (old, found) ↦ ground (arith, lookup-put z y exp seen, found)
]

has_y-put_ys :
    (exp : ℕ) (ys zs : List Text) (seen : List (Text × ℕ))
    → has_y seen zs ≡ true
    → has_y (put_ys exp ys seen) zs ≡ true
unfolding put_ys
has_y-put_ys exp [] zs seen h = h
has_y-put_ys exp (y ∷ ys) zs seen h =
    has_y-put_ys exp ys zs (put y exp seen) (has_y-put y exp seen zs h)

-- What is paid stays paid where another challenge is put.
has_receipt-put :
    (id key : Text) (state : ChallengeState) (challenges : List (Text × ChallengeState))
    → has_receipt (lookup key challenges) ≡ false
    → has_receipt (lookup id challenges) ≡ true
    → has_receipt (lookup id (put key state challenges)) ≡ true
has_receipt-put id key state challenges free paid = elim (Bool-cases (key == id)) [
  | inl same ↦ absurd (cc (rw (==→≡ key id same) at free, paid))
  | inr other ↦ rw (lookup-put id key state challenges, other) paid
]

module _ (options : MemoryOptions) where
  -- `accept` of the store in memory succeeds exactly when the challenge is unpaid and no key was seen;
  -- it then holds the challenge and the keys, and otherwise changes nothing.
  pub memory_store-IsAtomic : IsAtomic (memory_store options)
  memory_store-IsAtomic = record {
    accept_lem = λ now state ys s. elim (memory_accept-cases options now state ys s) [
      | inl (known, e) ↦ rw (e, known) refl
      | inr (unpaid, unseen, e) ↦ rw (e, unpaid, unseen) refl
    ];
    accept-false = λ now state ys s refused. elim (memory_accept-cases options now state ys s) [
      | inl (known, e) ↦ rw e refl
      | inr (unpaid, unseen, e) ↦ absurd (cc (rw e at refused))
    ];
    get-accept = λ now state ys s won. elim (memory_accept-cases options now state ys s) [
      | inl (known, e) ↦ absurd (cc (rw e at won))
      | inr (unpaid, unseen, e) ↦ rw e (
          ground (
            arith,
            lookup-put state.challenge.challenge_id state.challenge.challenge_id state s.challenges,
            ==_refl state.challenge.challenge_id,
          ))
    ];
    has-accept = λ now state ys zs y s won m n. elim (memory_accept-cases options now state ys s) [
      | inl (known, e) ↦ absurd (cc (rw e at won))
      | inr (unpaid, unseen, e) ↦ rw e (
          has_y-HeldUntil 0 y zs _ n
            (put_ys-HeldUntil 0 (now + options.y_ttl_seconds) y ys s.ys (omega arith) m))
    ];
  }

  pub memory_store-IsLasting : IsLasting (memory_store options)
  memory_store-IsLasting = record {
    has_receipt-accept = λ now state ys s id paid.
        elim (memory_accept-cases options now state ys s) [
          | inl (known, e) ↦ rw e paid
          | inr (unpaid, unseen, e) ↦
              rw e (has_receipt-put id state.challenge.challenge_id state s.challenges unpaid paid)
        ];
    has_any_y-accept = λ now state ys zs s h. elim (memory_accept-cases options now state ys s) [
      | inl (known, e) ↦ rw e h
      | inr (unpaid, unseen, e) ↦ rw e (has_y-put_ys (now + options.y_ttl_seconds) ys zs s.ys h)
    ];
  }
