-- ===== src/Acceptor/Claims/Exclusive.antt =====
-- No schedule of the threads of kv-store.ts lets two of them accept one proof or one challenge, nor any
-- of them accept what was claimed before.
use picocash.Prelude.{
  ◌==◌, ℕ, zero, suc, ◌+◌, ◌≤◌, Text, ◌≡◌, ◌≢◌, refl, ap, sym, subst, true, false, Option, none,
  some, List, [], ◌∷◌, All, contains, ==_refl, ==→≡, sum_by, arith, Bool-cases, inl, inr,
}
use picocash.Sdk.Store.Keys.{NoRepeat}
use picocash.Acceptor.Claims.{
  ClaimKey, paid_key, y_key, Kv, has_key, has_any_claim, Phase, Thread, Event, advance, take_step,
  run_schedule,
}
use picocash.Acceptor.Claims.Ownership.{
  count, present, owns, IsClaiming, advance_phase-owns, advance_phase-IsClaiming,
}

-- How often the threads own a key together.
abbrev total : ClaimKey → List Thread → ℕ
total k ts = sum_by (owns k) ts

module _ (k : ClaimKey) where
  take_step-total :
      (n : ℕ) (event : Event) (ts : List Thread) (kv : Kv) (rest : ℕ)
      → All IsClaiming ts
      → total k ts + rest ≤ present k kv
      → total k (take_step n event ts kv).0 + rest ≤ present k (take_step n event ts kv).1
  unfolding take_step advance
  take_step-total n event [] kv rest c h = h
  take_step-total zero event (t ∷ ts) kv rest c h =
      omega
        (arith, advance_phase-owns k (total k ts + rest) event t t.phase kv c.0 (omega (arith, h)))
  take_step-total (suc n) event (t ∷ ts) kv rest c h =
      omega (arith, take_step-total n event ts kv (owns k t + rest) c.1 (omega (arith, h)))

take_step-IsClaiming :
    (n : ℕ) (event : Event) (ts : List Thread) (kv : Kv)
    → All IsClaiming ts
    → All IsClaiming (take_step n event ts kv).0
unfolding take_step advance
take_step-IsClaiming n event [] kv c = tt
take_step-IsClaiming zero event (t ∷ ts) kv c =
    (advance_phase-IsClaiming event t t.phase kv c.0, c.1)
take_step-IsClaiming (suc n) event (t ∷ ts) kv c = (c.0, take_step-IsClaiming n event ts kv c.1)

run_schedule-total :
    (k : ClaimKey) (schedule : List (ℕ × Event)) (ts : List Thread) (kv : Kv) (rest : ℕ)
    → All IsClaiming ts
    → total k ts + rest ≤ present k kv
    → total k (run_schedule schedule ts kv).0 + rest ≤ present k (run_schedule schedule ts kv).1
unfolding run_schedule
run_schedule-total k [] ts kv rest c h = h
run_schedule-total k ((n, event) ∷ schedule) ts kv rest c h =
    run_schedule-total k schedule (take_step n event ts kv).0 (take_step n event ts kv).1 rest
      (take_step-IsClaiming n event ts kv c) (take_step-total k n event ts kv rest c h)

-- The threads before any of them has begun.
abbrev pub AllFresh : List Thread → Type 0
AllFresh ts = All (λ (t : Thread). t.phase ≡ Phase.fresh) ts

AllFresh-total : (k : ClaimKey) (ts : List Thread) → AllFresh ts → total k ts ≡ 0
AllFresh-total k [] h = refl
AllFresh-total k (t ∷ ts) h = rw (h.0) (omega (arith, AllFresh-total k ts h.1))

AllFresh-IsClaiming : (ts : List Thread) → AllFresh ts → All IsClaiming ts
AllFresh-IsClaiming [] h = tt
AllFresh-IsClaiming (t ∷ ts) h = (rw (h.0) tt, AllFresh-IsClaiming ts h.1)

abbrev pub get_elem? {ℓ} : {A : Type ℓ} → List A → ℕ → Option A
get_elem? [] i = none
get_elem? (x ∷ xs) zero = some x
get_elem? (x ∷ xs) (suc i) = get_elem? xs i

owns-le-total :
    (k : ClaimKey) (ts : List Thread) (i : ℕ) (a : Thread)
    → get_elem? ts i ≡ some a
    → owns k a ≤ total k ts
owns-le-total k [] i a e = cc
owns-le-total k (t ∷ ts) zero a e = let same : t ≡ a = cc e in rw (← same) (omega arith)
owns-le-total k (t ∷ ts) (suc i) a e = omega (arith, owns-le-total k ts i a e)

owns_both-le-total :
    (k : ClaimKey) (ts : List Thread) (i j : ℕ) (a b : Thread)
    → i ≢ j
    → get_elem? ts i ≡ some a
    → get_elem? ts j ≡ some b
    → owns k a + owns k b ≤ total k ts
owns_both-le-total k [] i j a b ne e f = cc
owns_both-le-total k (t ∷ ts) zero zero a b ne e f = absurd (ne refl)
owns_both-le-total k (t ∷ ts) zero (suc j) a b ne e f =
    let same : t ≡ a = cc e in rw (← same) (omega (arith, owns-le-total k ts j b f))
owns_both-le-total k (t ∷ ts) (suc i) zero a b ne e f =
    let same : t ≡ b = cc f in rw (← same) (omega (arith, owns-le-total k ts i a e))
owns_both-le-total k (t ∷ ts) (suc i) (suc j) a b ne e f =
    omega (arith, owns_both-le-total k ts i j a b (λ same. ne (ap suc same)) e f)

present_le : (k : ClaimKey) (kv : Kv) → present k kv ≤ 1
present_le k kv = ground arith

-- Whatever key it is, the owners among the threads and what was set at first come to one at most.
run_schedule_owned :
    (k : ClaimKey) (schedule : List (ℕ × Event)) (ts : List Thread) (kv : Kv)
    → AllFresh ts
    → total k (run_schedule schedule ts kv).0 + present k kv ≤ 1
run_schedule_owned k schedule ts kv f =
    let owned =
      run_schedule-total k schedule ts kv (present k kv) (AllFresh-IsClaiming ts f)
        (omega (arith, AllFresh-total k ts f)) in
    omega (arith, owned, present_le k (run_schedule schedule ts kv).1)

count_pos : (y : Text) (ys : List Text) → contains y ys ≡ true → 1 ≤ count (y_key y) ys
count_pos y [] m = cc
count_pos y (x ∷ ys) m = ground (arith, m, count_pos y ys, ==→≡ x y, ==_refl y)

accepted-owns :
    (a : Thread) (y : Text)
    → a.phase ≡ Phase.accepted
    → (contains y a.ys ≡ true → 1 ≤ owns (y_key y) a) × (1 ≤ owns (paid_key a.id) a)
accepted-owns a y e =
    (λ m. rw e (omega (arith, count_pos y a.ys m)), rw e (ground (arith, ==_refl a.id)))

NoRepeat-count : (ys : List Text) → ((y : Text) → count (y_key y) ys ≤ 1) → NoRepeat ys
NoRepeat-count [] h = tt
NoRepeat-count (x ∷ ys) h = (
  elim (Bool-cases (contains x ys)) [
    | inr new ↦ new
    | inl old ↦ absurd (ground (arith, h x, count_pos x ys old, ==_refl x))
  ],
  NoRepeat-count ys (λ y. ground (arith, h y)),
)

owned_once :
    (k : ClaimKey) (schedule : List (ℕ × Event)) (ts : List Thread) (kv : Kv) (i : ℕ) (a : Thread)
    → AllFresh ts
    → get_elem? (run_schedule schedule ts kv).0 i ≡ some a
    → owns k a + present k kv ≤ 1
owned_once k schedule ts kv i a f e = omega (
  arith,
  run_schedule_owned k schedule ts kv f,
  owns-le-total k (run_schedule schedule ts kv).0 i a e,
)

-- Whatever the schedule and the failures of deletions, two calls of `accept` that both succeed have
-- different challenges and no proof's key in common.
pub run_schedule-exclusive :
    (schedule : List (ℕ × Event)) (ts : List Thread) (kv : Kv) (i j : ℕ) (a b : Thread)
    → AllFresh ts
    → i ≢ j
    → get_elem? (run_schedule schedule ts kv).0 i ≡ some a
    → get_elem? (run_schedule schedule ts kv).0 j ≡ some b
    → a.phase ≡ Phase.accepted
    → b.phase ≡ Phase.accepted
    → (a.id ≢ b.id) × ((y : Text) → contains y a.ys ≡ true → contains y b.ys ≡ false)
run_schedule-exclusive schedule ts kv i j a b f ne e g p q = (
  λ same.
      let owned = subst (λ id. 1 ≤ owns (paid_key id) b) (sym same) (accepted-owns b 0 q).1 in
      absurd (
        omega (
          arith,
          run_schedule_owned (paid_key a.id) schedule ts kv f,
          owns_both-le-total (paid_key a.id) (run_schedule schedule ts kv).0 i j a b ne e g,
          (accepted-owns a 0 p).1,
          owned,
        )),
  λ y m. elim (Bool-cases (contains y b.ys)) [
    | inr apart ↦ apart
    | inl both ↦ absurd (
        omega (
          arith,
          run_schedule_owned (y_key y) schedule ts kv f,
          owns_both-le-total (y_key y) (run_schedule schedule ts kv).0 i j a b ne e g,
          (accepted-owns a y p).0 m,
          (accepted-owns b y q).0 both,
        ))
  ],
)

-- A key that a thread owns is set.
run_schedule_held :
    (k : ClaimKey) (schedule : List (ℕ × Event)) (ts : List Thread) (kv : Kv) (i : ℕ) (a : Thread)
    → AllFresh ts
    → get_elem? (run_schedule schedule ts kv).0 i ≡ some a
    → 1 ≤ owns k a
    → has_key k (run_schedule schedule ts kv).1 ≡ true
run_schedule_held k schedule ts kv i a f e own =
    let owned =
      run_schedule-total k schedule ts kv 0 (AllFresh-IsClaiming ts f)
        (omega (arith, AllFresh-total k ts f)) in
    ground (arith, owned, own, owns-le-total k (run_schedule schedule ts kv).0 i a e)

has_any_claim-key :
    (y : Text) (zs : List Text) (kv : Kv)
    → has_key (y_key y) kv ≡ true
    → contains y zs ≡ true
    → has_any_claim zs kv ≡ true
unfolding has_any_claim
has_any_claim-key y [] kv h m = cc
has_any_claim-key y (z ∷ zs) kv h m = elim (Bool-cases (z == y)) [
  | inl hit ↦
      let held : has_key (y_key z) kv ≡ true =
        subst (λ x. has_key (y_key x) kv ≡ true) (sym (==→≡ z y hit)) h in
      rw (has_any_claim, held) refl
  | inr miss ↦ ground (arith, m, miss, has_any_claim-key y zs kv h)
]

-- A call that succeeds had a challenge and proofs of which nothing was claimed at first, and none of
-- its proofs' keys stands twice; at the end of the schedule the challenge's key is set, and `hasAnyY`
-- tells of each of the proofs.
pub run_schedule-unclaimed :
    (schedule : List (ℕ × Event)) (ts : List Thread) (kv : Kv) (i : ℕ) (a : Thread)
    → AllFresh ts
    → get_elem? (run_schedule schedule ts kv).0 i ≡ some a
    → a.phase ≡ Phase.accepted
    → (has_key (paid_key a.id) kv ≡ false)
      × ((y : Text) → contains y a.ys ≡ true → has_key (y_key y) kv ≡ false)
      × NoRepeat a.ys
      × (has_key (paid_key a.id) (run_schedule schedule ts kv).1 ≡ true)
      × ((y : Text) (zs : List Text)
          → contains y a.ys ≡ true
          → contains y zs ≡ true
          → has_any_claim zs (run_schedule schedule ts kv).1 ≡ true)
run_schedule-unclaimed schedule ts kv i a f e p =
    let once = λ (k : ClaimKey). owned_once k schedule ts kv i a f e in
    (
      ground (arith, once (paid_key a.id), (accepted-owns a 0 p).1),
      λ y m. ground (arith, once (y_key y), (accepted-owns a y p).0 m),
      NoRepeat-count a.ys (λ y. ground (arith, once (y_key y), p)),
      run_schedule_held (paid_key a.id) schedule ts kv i a f e (accepted-owns a 0 p).1,
      λ y zs m n.
          has_any_claim-key y zs (run_schedule schedule ts kv).1
            (run_schedule_held (y_key y) schedule ts kv i a f e ((accepted-owns a y p).0 m)) n,
    )
