-- ===== src/Sdk/Blinding/Decompose.antt =====
-- The split of an amount is its binary expansion, and it exists exactly below 2 ^ 31.
use native.Mathlib.Nat.{pow-suc}
use native.Mathlib.Decide.{dec_lt}
use picocash.Prelude.{
  ℕ, zero, suc, ◌+◌, ◌-◌, ◌^◌, ◌≤◌, ◌<◌, ◌≡◌, refl, List, [], ◌∷◌, inl, inr, arith, leb, leb→le,
  sum_by, Bool-cases, ap, ap₂, sym, ◌∙◌, subst,
}
use picocash.Result.{ok}
use picocash.Sdk.Blinding.{split, decompose}

-- Powers of two with falling exponents, all below `n`.
abbrev pub Denominations : ℕ → List ℕ → Type 0
Denominations n [] = Unit
Denominations n (d ∷ ds) = (k : ℕ) × (k < n) × (d ≡ 2 ^ k) × Denominations k ds

abbrev pub sum : List ℕ → ℕ
sum = sum_by (λ d. d)

double : (n : ℕ) → 2 ^ suc n ≡ 2 ^ n + 2 ^ n
double n = rw pow-suc (omega arith)

Denominations-weaken : (m n : ℕ) (ds : List ℕ) → m ≤ n → Denominations m ds → Denominations n ds
Denominations-weaken m n [] h d = tt
Denominations-weaken m n (x ∷ xs) h (k, lt, e, rest) = (k, omega arith, e, rest)

sum-split : (n amount : ℕ) → sum (split n amount).0 + (split n amount).1 ≡ amount
unfolding split
sum-split zero amount = omega arith
sum-split (suc n) amount = elim (Bool-cases (leb (2 ^ n) amount)) [
  | inl fits ↦ rw fits (omega (arith, sum-split n (amount - 2 ^ n), leb→le (2 ^ n) amount fits))
  | inr big ↦ rw big (sum-split n amount)
]

Denominations-split : (n amount : ℕ) → Denominations n (split n amount).0
unfolding split
Denominations-split zero amount = tt
Denominations-split (suc n) amount = elim (Bool-cases (leb (2 ^ n) amount)) [
  | inl fits ↦ rw fits (n, omega arith, refl, Denominations-split n (amount - 2 ^ n))
  | inr big ↦ rw big (Denominations-weaken n (suc n) _ (omega arith) (Denominations-split n amount))
]

pow_pos : (n : ℕ) → 0 < 2 ^ n
pow_pos zero = omega arith
pow_pos (suc n) = omega (arith, pow_pos n, double n)

pow_mono : (m n : ℕ) → m ≤ n → 2 ^ m ≤ 2 ^ n
pow_mono zero n h = pow_pos n
pow_mono (suc m) zero h = absurd (omega arith)
pow_mono (suc m) (suc n) h = omega (arith, double m, double n, pow_mono m n (omega arith))

-- Such powers sum to less than the next one.
sum-Denominations : (n : ℕ) (ds : List ℕ) → Denominations n ds → sum ds < 2 ^ n
sum-Denominations n [] d = pow_pos n
sum-Denominations n (x ∷ xs) (k, lt, e, rest) =
    omega (arith, e, sum-Denominations k xs rest, double k, pow_mono (suc k) n lt)

-- Nothing is left of an amount below the next power of two.
split-rest : (n amount : ℕ) → amount < 2 ^ n → (split n amount).1 ≡ 0
unfolding split
split-rest zero amount h = omega arith
split-rest (suc n) amount h = elim (Bool-cases (leb (2 ^ n) amount)) [
  | inl fits ↦
      rw fits
        (split-rest n (amount - 2 ^ n) (omega (arith, double n, h, leb→le (2 ^ n) amount fits)))
  | inr big ↦ rw big (split-rest n amount (ground arith))
]

-- An amount splits in at most one way.
Denominations-unique :
    (m n : ℕ) (ds es : List ℕ) → Denominations m ds → Denominations n es → sum ds ≡ sum es → ds ≡ es
Denominations-unique m n [] [] p q h = refl
Denominations-unique m n [] (y ∷ ys) p (j, _, f, _) h = absurd (omega (arith, f, pow_pos j, h))
Denominations-unique m n (x ∷ xs) [] (k, _, e, _) q h = absurd (omega (arith, e, pow_pos k, h))
Denominations-unique m n (x ∷ xs) (y ∷ ys) (k, _, e, p) (j, _, f, q) h =
    ap₂ ◌∷◌ heads (Denominations-unique k j xs ys p q (omega (arith, heads, h)))
  where
    below : (k j : ℕ) (x y a b : ℕ) → k < j → x ≡ 2 ^ k → y ≡ 2 ^ j → a < 2 ^ k → x + a ≡ y + b → ⊥
    below k j x y a b lt e f small h = omega (arith, double k, pow_mono (suc k) j lt)

    same : k ≡ j
    same = elim (dec_lt k j) [
      | yes lt ↦ absurd (below k j x y (sum xs) (sum ys) lt e f (sum-Denominations k xs p) h)
      | no ge ↦ elim (dec_lt j k) [
        | yes gt ↦
            absurd (below j k y x (sum ys) (sum xs) gt f e (sum-Denominations j ys q) (sym h))
        | no le ↦ omega arith
      ]
    ]

    heads : x ≡ y
    heads = cc (e, f, ap (λ (k : ℕ). 2 ^ k) same)

-- A positive amount below 2 ^ 31 is split into falling powers of two up to 2 ^ 30 that sum to it.
pub decompose_total :
    (amount : ℕ)
    → 0 < amount
    → amount < 2 ^ 31
    → (parts : List ℕ) × (decompose amount ≡ ok parts)
      × Denominations 31 parts
      × (sum parts ≡ amount)
unfolding decompose
decompose_total amount p h = (
  (split 31 amount).0,
  ground (arith, split-rest 31 amount h),
  Denominations-split 31 amount,
  omega (arith, sum-split 31 amount, split-rest 31 amount h),
)

-- What an amount is split into is its one list of falling powers of two; a split exists only for
-- positive amounts below 2 ^ 31.
pub decompose_unique :
    (amount : ℕ) (parts : List ℕ)
    → decompose amount ≡ ok parts
    → (0 < amount)
      × (amount < 2 ^ 31)
      × Denominations 31 parts
      × (sum parts ≡ amount)
      × ((others : List ℕ) → Denominations 31 others → sum others ≡ amount → others ≡ parts)
unfolding decompose
decompose_unique amount parts h =
    let same : (split 31 amount).0 ≡ parts = ground arith in
    let left : (split 31 amount).1 ≡ 0 = ground arith in
    let powers = subst (Denominations 31) same (Denominations-split 31 amount) in
    let total = subst (λ ps. sum ps ≡ amount) same (omega (arith, sum-split 31 amount, left)) in
    (
      ground arith,
      omega (arith, sum-Denominations 31 parts powers, total),
      powers,
      total,
      λ others d e. Denominations-unique 31 31 others parts d powers (e ∙ sym total),
    )
