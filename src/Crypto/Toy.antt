-- ===== src/Crypto/Toy.antt =====
-- A curve of three points, which has every law of `IsCurve`, for runs on concrete inputs.
use picocash.Prelude.{
  ℕ, zero, suc, ◌+◌, ◌*◌, ◌/◌, ◌%◌, ◌≤◌, ◌<◌, ◌≡◌, ◌≢◌, refl, sym, ap, ◌∙◌, Bool, true, false,
  Option, none, some, [], ◌∷◌, arith, ◌==◌, if◌then◌else◌,
}
use native.Mathlib.Nat.{suc-mul, zero-mul}
use picocash.Crypto.Curve.{Bytes, Curve}
use picocash.Crypto.Curve.Laws.{IsCurve}

pub data Residue : Type 0 where
  r0 r1 r2 : Residue

abbrev succ : Residue → Residue
succ r0 = r1
succ r1 = r2
succ r2 = r0

abbrev plus : Residue → Residue → Residue
plus r0 q = q
plus r1 q = succ q
plus r2 q = succ (succ q)

abbrev negate : Residue → Residue
negate r0 = r0
negate r1 = r2
negate r2 = r1

abbrev mul : Residue → Residue → Residue
mul r0 q = r0
mul r1 q = q
mul r2 q = plus q q

abbrev of_nat : ℕ → Residue
of_nat zero = r0
of_nat (suc n) = succ (of_nat n)

abbrev same : Residue → Residue → Bool
same r0 r0 = true
same r1 r1 = true
same r2 r2 = true
same _ _ = false

abbrev total : Bytes → ℕ
total [] = 0
total (b ∷ bytes) = b + total bytes

-- A byte before thirty-one zeros.
abbrev pub padded : ℕ → Bytes
padded x =
    x ∷ 0 ∷ 0 ∷ 0 ∷ 0 ∷ 0 ∷ 0 ∷ 0 ∷ 0 ∷ 0 ∷ 0 ∷ 0 ∷ 0 ∷ 0 ∷ 0 ∷ 0 ∷ 0 ∷ 0 ∷ 0 ∷ 0 ∷ 0 ∷ 0 ∷ 0 ∷ 0
    ∷ 0 ∷ 0 ∷ 0 ∷ 0 ∷ 0 ∷ 0 ∷ 0 ∷ 0 ∷ []

-- Thirty-one zeros before a byte.
abbrev pub scalar : ℕ → Bytes
scalar x =
    0 ∷ 0 ∷ 0 ∷ 0 ∷ 0 ∷ 0 ∷ 0 ∷ 0 ∷ 0 ∷ 0 ∷ 0 ∷ 0 ∷ 0 ∷ 0 ∷ 0 ∷ 0 ∷ 0 ∷ 0 ∷ 0 ∷ 0 ∷ 0 ∷ 0 ∷ 0 ∷ 0
    ∷ 0 ∷ 0 ∷ 0 ∷ 0 ∷ 0 ∷ 0 ∷ 0 ∷ x ∷ []

abbrev point_of : ℕ → Option Residue
point_of x = if x == 1 then some r1 else if x == 2 then some r2 else none

abbrev read_point : Bytes → Option Residue
read_point (tag ∷ x ∷ rest) = point_of x
read_point _ = none

abbrev write_point : Residue → Option Bytes
write_point r0 = none
write_point r1 = some (2 ∷ 1 ∷ [])
write_point r2 = some (2 ∷ 2 ∷ [])

abbrev pub toy : Curve Residue
toy = record {
  infinity = r0;
  base = r1;
  add = plus;
  subtract = λ p q. plus p (negate q);
  multiply = λ k p. mul (of_nat k) p;
  equals = same;
  order = 3;
  from_hex = read_point;
  to_raw_bytes = λ compressed p. write_point p;
  sha256 = λ bytes. padded (total bytes % 3);
  hmac_sha256 = λ key bytes. scalar ((total key + total bytes) % 2 + 1);
}

succ-add : (p q : Residue) → succ (plus p q) ≡ plus (succ p) q
succ-add p q = ground arith

of_nat-add : (a b : ℕ) → of_nat (a + b) ≡ plus (of_nat a) (of_nat b)
of_nat-add zero b = let e : 0 + b ≡ b = omega arith in ap of_nat e
of_nat-add (suc a) b =
    let e : suc a + b ≡ suc (a + b) = omega arith in
    ap of_nat e ∙ ap succ (of_nat-add a b) ∙ succ-add (of_nat a) (of_nat b)

mul-add : (k p q : Residue) → mul k (plus p q) ≡ plus (mul k p) (mul k q)
mul-add k p q = ground arith

add-mul : (j k p : Residue) → mul (plus j k) p ≡ plus (mul j p) (mul k p)
add-mul j k p = ground arith

mul-mul : (j k p : Residue) → mul j (mul k p) ≡ mul (mul j k) p
mul-mul j k p = ground arith

succ-mul : (k q : Residue) → mul (succ k) q ≡ plus (mul k q) q
succ-mul k q = ground arith

of_nat-mul : (a b : ℕ) → of_nat (a * b) ≡ mul (of_nat a) (of_nat b)
of_nat-mul zero b = ap of_nat (zero-mul b)
of_nat-mul (suc a) b =
    ap of_nat (suc-mul a b)
    ∙ of_nat-add (a * b) b
    ∙ ap (λ m. plus m (of_nat b)) (of_nat-mul a b)
    ∙ sym (succ-mul (of_nat a) (of_nat b))

mul-r0 : (k : Residue) → mul k r0 ≡ r0
mul-r0 k = ground arith

add-negate : (p q : Residue) → plus (plus p q) (negate q) ≡ p
add-negate p q = ground arith

negate-add : (p q : Residue) → plus (plus p (negate q)) q ≡ p
negate-add p q = ground arith

same→≡ : (p q : Residue) → same p q ≡ true → p ≡ q
same→≡ p q h = ground (arith, h)

same_refl : (p : Residue) → same p p ≡ true
same_refl p = ground arith

of_nat_triple : (n : ℕ) → of_nat (n * 3) ≡ r0
of_nat_triple n = of_nat-mul n 3 ∙ mul-r0 (of_nat n)

of_nat-modulo : (n : ℕ) → of_nat (n % 3) ≡ of_nat n
of_nat-modulo n =
    let e : n ≡ n / 3 * 3 + n % 3 = omega arith in
    sym (
      ap of_nat e
      ∙ of_nat-add (n / 3 * 3) (n % 3)
      ∙ ap (λ m. plus m (of_nat (n % 3))) (of_nat_triple (n / 3)))

small_finite : (k : ℕ) (p : Residue) → 1 ≤ k → k < 3 → p ≢ r0 → mul (of_nat k) p ≢ r0
small_finite zero p a b h = absurd (omega (arith, a))
small_finite (suc zero) p a b h = h
small_finite (suc (suc zero)) p a b h = ground (arith, h)
small_finite (suc (suc (suc k))) p a b h = absurd (omega (arith, b))

read_point-finite : (b : Bytes) (p : Residue) → read_point b ≡ some p → p ≢ r0
read_point-finite [] p h = cc
read_point-finite (tag ∷ []) p h = cc
read_point-finite (tag ∷ x ∷ rest) p h = ground (arith, h)

abbrev read_written : Option Bytes → Option Residue
read_written none = none
read_written (some b) = read_point b

read_point-write_point : (p : Residue) (b : Bytes) → write_point p ≡ some b → read_point b ≡ some p
read_point-write_point r0 b h = cc
read_point-write_point r1 b h = ap (λ o. read_written o) (sym h)
read_point-write_point r2 b h = ap (λ o. read_written o) (sym h)

write_point-finite : (p : Residue) → p ≢ r0 → (b : Bytes) × (write_point p ≡ some b)
write_point-finite r0 h = absurd (h refl)
write_point-finite r1 h = (2 ∷ 1 ∷ [], refl)
write_point-finite r2 h = (2 ∷ 2 ∷ [], refl)

pub toy-IsCurve : IsCurve toy
toy-IsCurve = record {
  subtract-add = λ p q. add-negate p q;
  add-subtract = λ p q. negate-add p q;
  multiply-add = λ k p q. mul-add (of_nat k) p q;
  add_multiply = λ a b p. ap (λ m. mul m p) (of_nat-add a b) ∙ add-mul (of_nat a) (of_nat b) p;
  multiply-multiply =
      λ a b p. mul-mul (of_nat a) (of_nat b) p ∙ ap (λ m. mul m p) (sym (of_nat-mul a b));
  multiply_zero = λ p. refl;
  multiply_modulo = λ k p. ap (λ m. mul m p) (of_nat-modulo k);
  multiply_finite = small_finite;
  base_finite = λ e. cc e;
  equals→≡ = same→≡;
  equals_refl = same_refl;
  from_hex_finite = read_point-finite;
  from_hex-to_raw_bytes = λ c p b h. read_point-write_point p b h;
  to_raw_bytes_finite = λ c p h. write_point-finite p h;
  order_bound = (omega arith, omega arith);
  length-sha256 = λ b. refl;
}
