-- ===== src/Crypto/Curve/Laws.antt =====
-- What the code relies on of the curve, and what follows for points.ts.
use picocash.Prelude.{
  ℕ, zero, suc, ◌+◌, ◌*◌, ◌/◌, ◌%◌, ◌^◌, ◌≤◌, ◌<◌, ◌≡◌, ◌≢◌, refl, ap, ◌∙◌, Bool, true, some, [],
  ◌∷◌, length, arith, Bool-cases, Option-cases, inl, inr, ◌==◌, ==_refl, ==→≡,
}
use picocash.Result.{ok, ok-eq-ok}
use picocash.Crypto.Curve.{
  Bytes, Curve, read_be, bytes_to_bigint, write_be, bytes_equal, modulo, bytes_to_scalar,
  scalar_to_bytes, parse_point, mul_point, to_bytes,
}

-- A group of an order of at most 2 ^ 256, in which a smaller factor takes no point but the infinite one
-- to infinity, whose other points have an encoding that parses back, and a hash of 32 bytes.
pub record IsCurve {P : Type 0} (curve : Curve P) : Type 0 where
  pub subtract-add : (p q : P) → curve.subtract (curve.add p q) q ≡ p
  pub add-subtract : (p q : P) → curve.add (curve.subtract p q) q ≡ p
  pub multiply-add :
      (k : ℕ) (p q : P)
      → curve.multiply k (curve.add p q) ≡ curve.add (curve.multiply k p) (curve.multiply k q)
  pub add_multiply :
      (a b : ℕ) (p : P)
      → curve.multiply (a + b) p ≡ curve.add (curve.multiply a p) (curve.multiply b p)
  pub multiply-multiply :
      (a b : ℕ) (p : P) → curve.multiply a (curve.multiply b p) ≡ curve.multiply (a * b) p
  pub multiply_zero : (p : P) → curve.multiply 0 p ≡ curve.infinity
  pub multiply_modulo : (k : ℕ) (p : P) → curve.multiply (k % curve.order) p ≡ curve.multiply k p
  pub multiply_finite :
      (k : ℕ) (p : P)
      → 1 ≤ k
      → k < curve.order
      → p ≢ curve.infinity
      → curve.multiply k p ≢ curve.infinity
  pub base_finite : curve.base ≢ curve.infinity
  pub equals→≡ : (p q : P) → curve.equals p q ≡ true → p ≡ q
  pub equals_refl : (p : P) → curve.equals p p ≡ true
  pub from_hex_finite : (b : Bytes) (p : P) → curve.from_hex b ≡ some p → p ≢ curve.infinity
  pub from_hex-to_raw_bytes :
      (c : Bool) (p : P) (b : Bytes) → curve.to_raw_bytes c p ≡ some b → curve.from_hex b ≡ some p
  pub to_raw_bytes_finite :
      (c : Bool) (p : P) → p ≢ curve.infinity → (b : Bytes) × (curve.to_raw_bytes c p ≡ some b)
  pub order_bound : (0 < curve.order) × (curve.order ≤ 256 ^ 32)
  pub length-sha256 : (b : Bytes) → length (curve.sha256 b) ≡ 32

read_be-write_be :
    (width x : ℕ) (rest : Bytes)
    → x < 256 ^ width
    → read_be 0 (write_be width x rest) ≡ read_be x rest
unfolding read_be write_be
read_be-write_be zero x rest h = ap (λ n. read_be n rest) (omega (arith, h))
read_be-write_be (suc width) x rest h =
    read_be-write_be width (x / 256) ((x % 256) ∷ rest) (omega (arith, h))
    ∙ ap (λ n. read_be n rest) (omega arith)

length-write_be :
    (width x : ℕ) (rest : Bytes) → length (write_be width x rest) ≡ width + length rest
unfolding write_be
length-write_be zero x rest = omega arith
length-write_be (suc width) x rest =
    omega (arith, length-write_be width (x / 256) ((x % 256) ∷ rest))

pub bytes_equal_refl : (b : Bytes) → bytes_equal b b ≡ true
unfolding bytes_equal
bytes_equal_refl [] = refl
bytes_equal_refl (x ∷ b) = ground (arith, ==_refl x, bytes_equal_refl b)

module _ {P : Type 0} (curve : Curve P) where
  pub bytes_to_scalar_range :
      (b : Bytes) (k : ℕ) → bytes_to_scalar curve b ≡ ok k → (1 ≤ k) × (k < curve.order)
  unfolding bytes_to_scalar
  bytes_to_scalar_range b k h = (ground (arith, h), ground (arith, h))

  module _ (laws : IsCurve curve) where
    pub length-scalar_to_bytes : (x : ℕ) → length (scalar_to_bytes curve x) ≡ 32
    unfolding scalar_to_bytes
    length-scalar_to_bytes x = length-write_be 32 (modulo curve x) []

    pub bytes_to_bigint-scalar_to_bytes :
        (x : ℕ) → bytes_to_bigint (scalar_to_bytes curve x) ≡ modulo curve x
    unfolding bytes_to_bigint scalar_to_bytes modulo read_be
    bytes_to_bigint-scalar_to_bytes x =
        read_be-write_be 32 (modulo curve x) []
          (grind (arith, laws.order_bound.0, laws.order_bound.1))

    pub mul_point_lem : (p : P) (k : ℕ) → mul_point curve p k ≡ curve.multiply k p
    unfolding mul_point modulo
    mul_point_lem p k = elim (Bool-cases (k == 0)) [
      | inl nothing ↦ rw nothing (cc (laws.multiply_zero p, ==→≡ k 0 nothing))
      | inr positive ↦ rw positive (laws.multiply_modulo k p)
    ]

    pub to_bytes_finite :
        (c : Bool) (p : P) → p ≢ curve.infinity → (b : Bytes) × (to_bytes curve c p ≡ ok b)
    to_bytes_finite c p finite = let (b, e) = laws.to_raw_bytes_finite c p finite in (b, rw e refl)

    pub parse_point-to_bytes :
        (c : Bool) (p : P) (b : Bytes) → to_bytes curve c p ≡ ok b → parse_point curve b ≡ ok p
    unfolding parse_point
    parse_point-to_bytes c p b h = elim (Option-cases (curve.to_raw_bytes c p)) [
      | inl infinite ↦ absurd (cc (rw infinite at h))
      | inr (raw, e) ↦
          let same : raw ≡ b = ok-eq-ok (rw e at h) in
          let parsed : curve.from_hex b ≡ some p =
            laws.from_hex-to_raw_bytes c p b (e ∙ ap some same) in
          rw (parse_point, parsed)
            (elim (Bool-cases (curve.equals p curve.infinity)) [
              | inr apart ↦ rw apart refl
              | inl infinite ↦
                  absurd (laws.from_hex_finite b p parsed (laws.equals→≡ p curve.infinity infinite))
            ])
    ]

    pub to_bytes-finite :
        (c : Bool) (p : P) (b : Bytes) → to_bytes curve c p ≡ ok b → p ≢ curve.infinity
    to_bytes-finite c p b h = elim (Option-cases (curve.to_raw_bytes c p)) [
      | inl infinite ↦ absurd (cc (rw infinite at h))
      | inr (raw, e) ↦ laws.from_hex_finite raw p (laws.from_hex-to_raw_bytes c p raw e)
    ]
