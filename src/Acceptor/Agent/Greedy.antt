-- ===== src/Acceptor/Agent/Greedy.antt =====
-- agent.ts: the greedy picker finds an exact sum of denominations wherever there is one.
use Prim.Native.Nat.{◌∣◌}
use native.Mathlib.Nat.{
  dvd_refl, dvd_trans, dvd-sub, dvd-mul_left_of_dvd, le_of_dvd, pow-le-pow_right,
}
use picocash.Prelude.{
  ℕ, zero, suc, ◌+◌, ◌-◌, ◌^◌, ◌≤◌, ◌≡◌, ◌⊎◌, refl, sym, subst, some, List, [], ◌∷◌, All, sum_by,
  insert_desc, sort_desc, arith, ◌==◌, leb, inl, inr, Bool-cases, ==→≡,
}
use picocash.Acceptor.Agent.{Indexed, weight, greedy, pick_exact}

-- Some of the proofs sum to the amount.
unfoldable pub Reaches : List Indexed → ℕ → Type 0
Reaches [] n = n ≡ 0
Reaches (p ∷ ps) n = Reaches ps n ⊎ ((weight p ≤ n) × Reaches ps (n - weight p))

abbrev pub IsDenomination : Indexed → Type 0
IsDenomination p = (e : ℕ) × (weight p ≡ 2 ^ e)

unfoldable Chain : List Indexed → Type 0
Chain [] = Unit
Chain (p ∷ ps) = All (λ q. weight q ∣ weight p) ps × Chain ps

All_both :
    {A : Type 0} (P Q R : A → Type 0) (xs : List A)
    → ((x : A) → P x → Q x → R x)
    → All P xs
    → All Q xs
    → All R xs
All_both P Q R [] f p q = tt
All_both P Q R (x ∷ xs) f p q = (f x p.0 q.0, All_both P Q R xs f p.1 q.1)

-- What sums to `n` sums to `n - r` too, where every part divides `r`.
exchange :
    (ps : List Indexed) (n r : ℕ)
    → Chain ps
    → All (λ q. weight q ∣ r) ps
    → r ≤ n
    → Reaches ps n
    → Reaches ps (n - r)
unfolding Reaches Chain
exchange [] n r chain divides low reached = omega arith
exchange (q ∷ qs) n r chain divides low (inl skipped) =
    inl (exchange qs n r chain.1 divides.1 low skipped)
exchange (q ∷ qs) n r chain divides low (inr (fits, taken)) = elim (Bool-cases (r == 0)) [
  | inl zeroed ↦
      subst (λ m. Reaches (q ∷ qs) m) (omega (arith, ==→≡ r 0 zeroed)) (inr (fits, taken))
  | inr positive ↦
      let small : weight q ≤ r = le_of_dvd (ground (arith, positive)) divides.0 in
      let rest =
        All_both (λ x. weight x ∣ r) (λ x. weight x ∣ weight q) (λ x. weight x ∣ r - weight q) qs
          (λ x a b. dvd-sub (weight x) a b) divides.1 chain.0 in
      inl (
        subst (Reaches qs) (omega (arith, small, fits, low)) (
          exchange qs (n - weight q) (r - weight q) chain.1 rest (omega (arith, small, fits, low))
            taken))
]

greedy-Reaches :
    (ps : List Indexed) (left : ℕ) → Chain ps → Reaches ps left → (greedy left ps).1 ≡ 0
unfolding greedy Reaches Chain
greedy-Reaches [] left chain reached = reached
greedy-Reaches (p ∷ ps) left chain reached = elim (Bool-cases (leb (weight p) left)) [
  | inl fits ↦
      let next = left - weight p in
      let on : Reaches ps next = elim reached [
        | inl skipped ↦ exchange ps left (weight p) chain.1 chain.0 (ground (arith, fits)) skipped
        | inr (low, taken) ↦ taken
      ] in
      let done = greedy-Reaches ps next chain.1 on in
      elim (Bool-cases (next == 0)) [
        | inl zeroed ↦ rw (greedy, fits, zeroed) refl
        | inr more ↦ rw (greedy, fits, more) done
      ]
  | inr large ↦
      let on : Reaches ps left = elim reached [
        | inl skipped ↦ skipped
        | inr (low, taken) ↦ absurd (ground (arith, large, low))
      ] in
      let done = greedy-Reaches ps left chain.1 on in
      elim (Bool-cases (left == 0)) [
        | inl zeroed ↦ rw (greedy, large, zeroed) refl
        | inr more ↦ rw (greedy, large, more) done
      ]
]

greedy_total :
    (ps : List Indexed) (left : ℕ) → sum_by weight (greedy left ps).0 + (greedy left ps).1 ≡ left
unfolding greedy
greedy_total [] left = omega arith
greedy_total (p ∷ ps) left = ground (arith, greedy_total ps left, greedy_total ps (left - weight p))

-- Denominations in descending order divide each other.
pow_divides : (i j : ℕ) → 2 ^ i ≤ 2 ^ j → 2 ^ i ∣ 2 ^ j
pow_divides i zero h = elim (Bool-cases (i == 0)) [
  | inl zeroed ↦ subst (λ k. 2 ^ k ∣ 2 ^ 0) (sym (==→≡ i 0 zeroed)) (dvd_refl (2 ^ 0))
  | inr positive ↦
      let above : 1 ≤ i = ground (arith, positive) in
      let two : 2 ^ 1 ≤ 2 ^ i = pow-le-pow_right (omega arith) above in
      absurd (omega (arith, two, h))
]
pow_divides i (suc j) h = elim (Bool-cases (leb i j)) [
  | inl below ↦
      subst (λ m. 2 ^ i ∣ m) (omega arith)
        (dvd-mul_left_of_dvd (2 ^ i)
          (let low : i ≤ j = ground (arith, below) in
            pow_divides i j (pow-le-pow_right (omega arith) low))
          2)
  | inr above ↦ elim (Bool-cases (i == suc j)) [
    | inl same ↦ subst (λ k. 2 ^ k ∣ 2 ^ suc j) (sym (==→≡ i (suc j) same)) (dvd_refl (2 ^ suc j))
    | inr beyond ↦
        let far : suc (suc j) ≤ i = ground (arith, above, beyond) in
        let more : 2 ^ suc (suc j) ≤ 2 ^ i = pow-le-pow_right (omega arith) far in
        let low : 0 ≤ j = omega arith in
        let positive : 2 ^ 0 ≤ 2 ^ j = pow-le-pow_right (omega arith) low in
        absurd (omega (arith, more, positive, h))
  ]
]

divides :
    (p q : Indexed)
    → IsDenomination p
    → IsDenomination q
    → weight q ≤ weight p
    → weight q ∣ weight p
divides p q (e, here) (f, there) h =
    subst (λ a. a ∣ weight p) (sym there)
      (subst (λ b. 2 ^ f ∣ b) (sym here) (pow_divides f e (omega (arith, here, there, h))))

All-insert_desc :
    (P : Indexed → Type 0) (p : Indexed) (ps : List Indexed)
    → P p
    → All P ps
    → All P (insert_desc weight p ps)
All-insert_desc P p [] h hs = (h, tt)
All-insert_desc P p (q ∷ qs) h hs = elim (Bool-cases (leb (weight q) (weight p))) [
  | inl here ↦ rw here (h, hs)
  | inr later ↦ rw later (hs.0, All-insert_desc P p qs h hs.1)
]

All-sort_desc : (P : Indexed → Type 0) (ps : List Indexed) → All P ps → All P (sort_desc weight ps)
All-sort_desc P [] h = tt
All-sort_desc P (p ∷ ps) h = All-insert_desc P p (sort_desc weight ps) h.0 (All-sort_desc P ps h.1)

insert_desc-Chain :
    (p : Indexed) (ps : List Indexed)
    → IsDenomination p
    → All IsDenomination ps
    → Chain ps
    → Chain (insert_desc weight p ps)
unfolding Chain
insert_desc-Chain p [] d ds chain = (tt, tt)
insert_desc-Chain p (q ∷ qs) d ds chain = elim (Bool-cases (leb (weight q) (weight p))) [
  | inl here ↦
      let first : weight q ∣ weight p = divides p q d ds.0 (ground (arith, here)) in
      let others =
        All_both (λ x. weight x ∣ weight q) (λ x. weight x ∣ weight q) (λ x. weight x ∣ weight p) qs
          (λ x a b. dvd_trans (weight x) a first) chain.0 chain.0 in
      rw here ((first, others), chain)
  | inr later ↦
      let first : weight p ∣ weight q = divides q p ds.0 d (ground (arith, later)) in
      rw later (
        All-insert_desc (λ x. weight x ∣ weight q) p qs first chain.0,
        insert_desc-Chain p qs d ds.1 chain.1,
      )
]

sort_desc-Chain : (ps : List Indexed) → All IsDenomination ps → Chain (sort_desc weight ps)
unfolding Chain
sort_desc-Chain [] d = tt
sort_desc-Chain (p ∷ ps) d =
    insert_desc-Chain p (sort_desc weight ps) d.0 (All-sort_desc IsDenomination ps d.1)
      (sort_desc-Chain ps d.1)

swap-Reaches :
    (p q : Indexed) (ps : List Indexed) (n : ℕ) → Reaches (p ∷ q ∷ ps) n → Reaches (q ∷ p ∷ ps) n
unfolding Reaches
swap-Reaches p q ps n (inl (inl none_taken)) = inl (inl none_taken)
swap-Reaches p q ps n (inl (inr (low, taken))) = inr (low, inl taken)
swap-Reaches p q ps n (inr (low, inl taken)) = inl (inr (low, taken))
swap-Reaches p q ps n (inr (low, inr (low', taken))) = inr (
  omega (arith, low, low'),
  inr (omega (arith, low, low'), subst (Reaches ps) (omega arith) taken),
)

insert_desc-Reaches :
    (p : Indexed) (ps : List Indexed) (n : ℕ)
    → Reaches (p ∷ ps) n
    → Reaches (insert_desc weight p ps) n
unfolding Reaches
insert_desc-Reaches p [] n h = h
insert_desc-Reaches p (q ∷ qs) n h = elim (Bool-cases (leb (weight q) (weight p))) [
  | inl here ↦ rw here h
  | inr later ↦ rw later (elim (swap-Reaches p q qs n h) [
    | inl rest ↦ inl (insert_desc-Reaches p qs n rest)
    | inr (low, rest) ↦ inr (low, insert_desc-Reaches p qs (n - weight q) rest)
  ])
]

sort_desc-Reaches : (ps : List Indexed) (n : ℕ) → Reaches ps n → Reaches (sort_desc weight ps) n
unfolding Reaches
sort_desc-Reaches [] n h = h
sort_desc-Reaches (p ∷ ps) n h = insert_desc-Reaches p (sort_desc weight ps) n (elim h [
  | inl skipped ↦ inl (sort_desc-Reaches ps n skipped)
  | inr (low, taken) ↦ inr (low, sort_desc-Reaches ps (n - weight p) taken)
])

-- Where every amount is a power of two and some of the proofs sum to the amount asked for,
-- `pickExact` finds proofs, and they sum to it.
pub pick_exact_complete :
    (proofs : List Indexed) (amount : ℕ)
    → All IsDenomination proofs
    → Reaches proofs amount
    → (picked : List Indexed) × (pick_exact proofs amount ≡ some picked)
      × (sum_by weight picked ≡ amount)
unfolding pick_exact
pick_exact_complete proofs amount d reached =
    let sorted = sort_desc weight proofs in
    let done =
      greedy-Reaches sorted amount (sort_desc-Chain proofs d)
        (sort_desc-Reaches proofs amount reached) in
    let total = greedy_total sorted amount in
    ((greedy amount sorted).0, rw (pick_exact, done) refl, omega (arith, done, total))
