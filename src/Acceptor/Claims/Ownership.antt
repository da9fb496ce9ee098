-- ===== src/Acceptor/Claims/Ownership.antt =====
-- Which thread owns which claim of kv-store.ts, and that no take_step makes two threads own one.
use picocash.Prelude.{
  ℕ, zero, suc, ◌+◌, ◌≤◌, Text, ◌≡◌, ap, true, false, some, List, [], ◌∷◌, if◌then◌else◌, sum_by,
  arith, Bool-cases, Option-cases, inl, inr, ==→≡,
}
use picocash.Acceptor.Claims.{
  ClaimKey, paid_key, y_key, same_key, Kv, has_key, delete_key, Phase, Thread, Event, proceed,
  delete_nth, skip_nth, die, take_nth, to_phase, advance_phase,
}

abbrev pub names_key : ClaimKey → ClaimKey → ℕ
names_key k j = if same_key k j then 1 else 0

-- How often a key stands among these proofs' keys.
abbrev pub count : ClaimKey → List Text → ℕ
count k ys = sum_by (λ y. names_key k (y_key y)) ys

abbrev pub present : ClaimKey → Kv → ℕ
present k kv = if has_key k kv then 1 else 0

-- The claims that a thread may still delete, or has kept for good.
abbrev pub owns_in : ClaimKey → Thread → Phase → ℕ
owns_in k t Phase.fresh = 0
owns_in k t (Phase.claiming claimed left) = names_key k (paid_key t.id) + count k claimed
owns_in k t (Phase.rolling_back left) = names_key k (paid_key t.id) + count k left
owns_in k t Phase.accepted = names_key k (paid_key t.id) + count k t.ys
owns_in k t Phase.refused = 0
owns_in k t Phase.died = 0

abbrev pub owns : ClaimKey → Thread → ℕ
owns k t = owns_in k t t.phase

-- A thread claims its own keys, each once.
abbrev pub ClaimsIn : Thread → Phase → Type 0
ClaimsIn t (Phase.claiming claimed left) =
    (k : ClaimKey) → count k claimed + count k left ≡ count k t.ys
ClaimsIn t _ = Unit

abbrev pub IsClaiming : Thread → Type 0
IsClaiming t = ClaimsIn t t.phase

same_key→≡ : (k j : ClaimKey) → same_key k j ≡ true → k ≡ j
same_key→≡ (paid_key a) (paid_key b) h = ap paid_key (==→≡ a b h)
same_key→≡ (paid_key a) (y_key b) h = cc
same_key→≡ (y_key a) (paid_key b) h = cc
same_key→≡ (y_key a) (y_key b) h = ap y_key (==→≡ a b h)

has_key-delete_key :
    (k j : ClaimKey) (kv : Kv)
    → has_key k (delete_key j kv) ≡ (if same_key k j then false else has_key k kv)
unfolding has_key delete_key
has_key-delete_key k j [] = ground arith
has_key-delete_key k j (i ∷ kv) =
    ground (arith, has_key-delete_key k j kv, same_key→≡ k j, same_key→≡ k i, same_key→≡ j i)

count-take_nth :
    (k : ClaimKey) (n : ℕ) (ys : List Text) (y : Text) (rest : List Text)
    → take_nth n ys ≡ some (y, rest)
    → names_key k (y_key y) + count k rest ≡ count k ys
count-take_nth k n [] y rest e = cc
count-take_nth k zero (x ∷ ys) y rest e = ground arith
count-take_nth k (suc n) (x ∷ ys) y rest e = elim (Option-cases (take_nth n ys)) [
  | inl missing ↦ absurd (cc (rw missing at e))
  | inr ((y', rest'), found) ↦
      let e' = rw found at e in
      let same : y' ≡ y = cc e' in
      let tail : x ∷ rest' ≡ rest = cc e' in
      rw (← same, ← tail) (omega (arith, count-take_nth k n ys y' rest' found))
]

-- A claim that was not there is now owned once; one that is given up is owned no more.
present-insert :
    (k j : ClaimKey) (kv : Kv) (own rest : ℕ)
    → has_key j kv ≡ false
    → own + rest ≤ present k kv
    → names_key k j + own + rest ≤ present k (j ∷ kv)
unfolding has_key
present-insert k j kv own rest free h = elim (Bool-cases (same_key k j)) [
  | inl hit ↦
      let gone : has_key k kv ≡ false = rw (same_key→≡ k j hit) free in ground (arith, h, gone, hit)
  | inr miss ↦ ground (arith, h, miss)
]

present-delete :
    (k j : ClaimKey) (kv : Kv) (own rest : ℕ)
    → names_key k j + own + rest ≤ present k kv
    → own + rest ≤ present k (delete_key j kv)
present-delete k j kv own rest h = ground (arith, h, has_key-delete_key k j kv)

module _ (k : ClaimKey) (rest : ℕ) where
  claim_owns :
      (t : Thread) (y : Text) (claimed : List Text) (kv : Kv)
      → has_key (y_key y) kv ≡ false
      → names_key k (paid_key t.id) + count k claimed + rest ≤ present k kv
      → names_key k (paid_key t.id) + count k (y ∷ claimed) + rest ≤ present k (y_key y ∷ kv)
  claim_owns t y claimed kv free h = omega (
    arith,
    present-insert k (y_key y) kv (names_key k (paid_key t.id) + count k claimed) rest free h,
  )

  give_up-owns :
      (t : Thread) (y : Text) (left others : List Text) (kv : Kv) (n : ℕ)
      → take_nth n left ≡ some (y, others)
      → names_key k (paid_key t.id) + count k left + rest ≤ present k kv
      → names_key k (paid_key t.id) + count k others + rest ≤ present k (delete_key (y_key y) kv)
  give_up-owns t y left others kv n e h =
      present-delete k (y_key y) kv (names_key k (paid_key t.id) + count k others) rest
        (omega (arith, h, count-take_nth k n left y others e))

  owned_fewer :
      (t : Thread) (y : Text) (left others : List Text) (kv : Kv) (n : ℕ)
      → take_nth n left ≡ some (y, others)
      → names_key k (paid_key t.id) + count k left + rest ≤ present k kv
      → names_key k (paid_key t.id) + count k others + rest ≤ present k kv
  owned_fewer t y left others kv n e h = omega (arith, h, count-take_nth k n left y others e)

  pub advance_phase-owns :
      (event : Event) (t : Thread) (phase : Phase) (kv : Kv)
      → ClaimsIn t phase
      → owns_in k t phase + rest ≤ present k kv
      → let r = advance_phase event (record t { phase = phase }) phase kv in
        owns k r.0 + rest ≤ present k r.1
  unfolding advance_phase to_phase
  advance_phase-owns proceed t Phase.fresh kv c h = elim (Bool-cases (has_key (paid_key t.id) kv)) [
    | inl taken ↦ rw taken h
    | inr free ↦ rw free (omega (arith, present-insert k (paid_key t.id) kv 0 rest free h))
  ]
  advance_phase-owns proceed t (Phase.claiming claimed []) kv c h = omega (arith, h, c k)
  advance_phase-owns proceed t (Phase.claiming claimed (y ∷ left)) kv c h =
      elim (Bool-cases (has_key (y_key y) kv)) [
        | inl taken ↦ rw taken h
        | inr free ↦ rw free (claim_owns t y claimed kv free h)
      ]
  advance_phase-owns proceed t (Phase.rolling_back []) kv c h =
      present-delete k (paid_key t.id) kv 0 rest (omega (arith, h))
  advance_phase-owns proceed t (Phase.rolling_back (x ∷ left)) kv c h = h
  advance_phase-owns proceed t Phase.accepted kv c h = h
  advance_phase-owns proceed t Phase.refused kv c h = h
  advance_phase-owns proceed t Phase.died kv c h = h
  advance_phase-owns (delete_nth n) t Phase.fresh kv c h = h
  advance_phase-owns (delete_nth n) t (Phase.claiming claimed left) kv c h = h
  advance_phase-owns (delete_nth n) t (Phase.rolling_back left) kv c h =
      elim (Option-cases (take_nth n left)) [
        | inl missing ↦ rw (advance_phase, missing) h
        | inr ((y, others), e) ↦ rw (advance_phase, e) (give_up-owns t y left others kv n e h)
      ]
  advance_phase-owns (delete_nth n) t Phase.accepted kv c h = h
  advance_phase-owns (delete_nth n) t Phase.refused kv c h = h
  advance_phase-owns (delete_nth n) t Phase.died kv c h = h
  advance_phase-owns (skip_nth n) t Phase.fresh kv c h = h
  advance_phase-owns (skip_nth n) t (Phase.claiming claimed left) kv c h = h
  advance_phase-owns (skip_nth n) t (Phase.rolling_back []) kv c h = omega (arith, h)
  advance_phase-owns (skip_nth n) t (Phase.rolling_back (x ∷ left)) kv c h =
      elim (Option-cases (take_nth n (x ∷ left))) [
        | inl missing ↦ rw (advance_phase, missing) h
        | inr ((y, others), e) ↦ rw (advance_phase, e) (owned_fewer t y (x ∷ left) others kv n e h)
      ]
  advance_phase-owns (skip_nth n) t Phase.accepted kv c h = h
  advance_phase-owns (skip_nth n) t Phase.refused kv c h = h
  advance_phase-owns (skip_nth n) t Phase.died kv c h = h
  advance_phase-owns die t Phase.fresh kv c h = h
  advance_phase-owns die t (Phase.claiming claimed left) kv c h = omega (arith, h)
  advance_phase-owns die t (Phase.rolling_back left) kv c h = omega (arith, h)
  advance_phase-owns die t Phase.accepted kv c h = h
  advance_phase-owns die t Phase.refused kv c h = h
  advance_phase-owns die t Phase.died kv c h = h

pub advance_phase-IsClaiming :
    (event : Event) (t : Thread) (phase : Phase) (kv : Kv)
    → ClaimsIn t phase
    → IsClaiming (advance_phase event (record t { phase = phase }) phase kv).0
unfolding advance_phase to_phase
advance_phase-IsClaiming proceed t Phase.fresh kv c =
    elim (Bool-cases (has_key (paid_key t.id) kv)) [
      | inl taken ↦ rw (advance_phase, taken) tt
      | inr free ↦ rw (advance_phase, free) (λ k. omega arith)
    ]
advance_phase-IsClaiming proceed t (Phase.claiming claimed []) kv c = tt
advance_phase-IsClaiming proceed t (Phase.claiming claimed (y ∷ left)) kv c =
    elim (Bool-cases (has_key (y_key y) kv)) [
      | inl taken ↦ rw (advance_phase, taken) tt
      | inr free ↦ rw (advance_phase, free) (λ k. omega (arith, c k))
    ]
advance_phase-IsClaiming proceed t (Phase.rolling_back []) kv c = tt
advance_phase-IsClaiming proceed t (Phase.rolling_back (x ∷ left)) kv c = tt
advance_phase-IsClaiming (delete_nth n) t (Phase.rolling_back left) kv c =
    elim (Option-cases (take_nth n left)) [
      | inl missing ↦ rw (advance_phase, missing) tt
      | inr ((y, others), e) ↦ rw (advance_phase, e) tt
    ]
advance_phase-IsClaiming (skip_nth n) t (Phase.rolling_back []) kv c = tt
advance_phase-IsClaiming (skip_nth n) t (Phase.rolling_back (x ∷ left)) kv c =
    elim (Option-cases (take_nth n (x ∷ left))) [
      | inl missing ↦ rw (advance_phase, missing) tt
      | inr ((y, others), e) ↦ rw (advance_phase, e) tt
    ]
advance_phase-IsClaiming die t (Phase.rolling_back left) kv c = tt
advance_phase-IsClaiming die t Phase.fresh kv c = tt
advance_phase-IsClaiming die t (Phase.claiming claimed left) kv c = tt
advance_phase-IsClaiming (delete_nth n) t Phase.fresh kv c = tt
advance_phase-IsClaiming (delete_nth n) t (Phase.claiming claimed left) kv c = c
advance_phase-IsClaiming (skip_nth n) t Phase.fresh kv c = tt
advance_phase-IsClaiming (skip_nth n) t (Phase.claiming claimed left) kv c = c
advance_phase-IsClaiming proceed t Phase.accepted kv c = tt
advance_phase-IsClaiming proceed t Phase.refused kv c = tt
advance_phase-IsClaiming proceed t Phase.died kv c = tt
advance_phase-IsClaiming (delete_nth n) t Phase.accepted kv c = tt
advance_phase-IsClaiming (delete_nth n) t Phase.refused kv c = tt
advance_phase-IsClaiming (delete_nth n) t Phase.died kv c = tt
advance_phase-IsClaiming (skip_nth n) t Phase.accepted kv c = tt
advance_phase-IsClaiming (skip_nth n) t Phase.refused kv c = tt
advance_phase-IsClaiming (skip_nth n) t Phase.died kv c = tt
advance_phase-IsClaiming die t Phase.accepted kv c = tt
advance_phase-IsClaiming die t Phase.refused kv c = tt
advance_phase-IsClaiming die t Phase.died kv c = tt
