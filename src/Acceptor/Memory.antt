-- ===== src/Acceptor/Memory.antt =====
-- acceptor.ts, `MemoryAcceptorStore`: two maps, swept as challenges are put.
pub mod Retention
pub mod Atomic
use picocash.Prelude.{
  ℕ, zero, suc, ◌+◌, ◌-◌, Text, Bool, true, false, Option, none, some, List, [], ◌∷◌, length, ◌==◌,
  ◌||◌, ltb, if◌then◌else◌,
}
use picocash.Dict.{lookup, put}
use picocash.Acceptor.{AcceptorStore, ChallengeState, PicocashReceipt}

pub record MemoryStore : Type 0 where
  pub challenges : List (Text × ChallengeState)
  pub ys : List (Text × ℕ)

pub record MemoryOptions : Type 0 where
  pub max_challenges : ℕ
  pub y_ttl_seconds : ℕ

abbrev pub default_options : MemoryOptions
default_options = record { max_challenges = 10000; y_ttl_seconds = 86400 }

-- `st.challenge.expiry < now && !st.receipt`
abbrev pub is_stale : ℕ → ChallengeState → Bool
is_stale now state = elim state.receipt [
  | some receipt ↦ false
  | none ↦ ltb state.challenge.expiry now
]

unfoldable pub sweep_challenges : ℕ → List (Text × ChallengeState) → List (Text × ChallengeState)
sweep_challenges now [] = []
sweep_challenges now ((id, state) ∷ rest) =
    if is_stale now state
    then sweep_challenges now rest
    else (id, state) ∷ sweep_challenges now rest

unfoldable pub sweep_ys : ℕ → List (Text × ℕ) → List (Text × ℕ)
sweep_ys now [] = []
sweep_ys now ((y, exp) ∷ rest) =
    if ltb exp now then sweep_ys now rest else (y, exp) ∷ sweep_ys now rest

abbrev pub drop {ℓ} : {A : Type ℓ} → ℕ → List A → List A
drop zero xs = xs
drop (suc n) [] = []
drop (suc n) (x ∷ xs) = drop n xs

-- The oldest challenges go where there are more than the limit.
unfoldable pub evict : ℕ → List (Text × ChallengeState) → List (Text × ChallengeState)
evict limit challenges =
    if ltb limit (length challenges)
    then drop (length challenges - limit) challenges
    else challenges

unfoldable pub has_y : List (Text × ℕ) → List Text → Bool
has_y seen [] = false
has_y seen (y ∷ ys) = (elim (lookup y seen) [ none ↦ false | some exp ↦ true ]) || has_y seen ys

unfoldable pub put_ys : ℕ → List Text → List (Text × ℕ) → List (Text × ℕ)
put_ys exp [] seen = seen
put_ys exp (y ∷ ys) seen = put_ys exp ys (put y exp seen)

abbrev pub has_receipt : Option ChallengeState → Bool
has_receipt none = false
has_receipt (some state) = elim state.receipt [ none ↦ false | some receipt ↦ true ]

module _ (options : MemoryOptions) where
  unfoldable pub memory_put : ℕ → ChallengeState → MemoryStore → MemoryStore
  memory_put now state s = record {
    challenges =
        put state.challenge.challenge_id state
          (evict options.max_challenges (sweep_challenges now s.challenges));
    ys = sweep_ys now s.ys;
  }

  unfoldable pub memory_accept : ℕ → ChallengeState → List Text → MemoryStore → Bool × MemoryStore
  memory_accept now state ys s =
      if has_receipt (lookup state.challenge.challenge_id s.challenges) || has_y s.ys ys
      then (false, s)
      else (
        true,
        record {
          challenges = put state.challenge.challenge_id state s.challenges;
          ys = put_ys (now + options.y_ttl_seconds) ys s.ys;
        },
      )

  abbrev pub memory_store : AcceptorStore MemoryStore
  memory_store = record {
    get_challenge = λ id s. lookup id s.challenges;
    put_challenge = memory_put;
    has_any_y = λ ys s. has_y s.ys ys;
    accept = memory_accept;
  }
