-- ===== src/Acceptor/Adapter/BaseUnits.antt =====
-- mppx.ts, `toBaseUnits`: a decimal price as base units. The text is the list of its characters; `split`
-- at the points leaves what stands before the first, and what stands between it and the second.
use picocash.Prelude.{
  ℕ, zero, suc, ◌+◌, ◌-◌, ◌*◌, ◌^◌, ◌≡◌, refl, sym, ap, ◌∙◌, Bool, true, false, List, [], ◌∷◌, ◌++◌,
  length, arith, ◌==◌, leb, ◌&&◌, ==→≡, if◌then◌else◌, inl, inr, Bool-cases,
}
use picocash.Result.{Result, ok, ensure, ◌>>◌, >>=-eq-ok, ok-eq-ok}

pub data Character : Type 0 where
  digit : ℕ → Character
  point minus : Character
  other : ℕ → Character

pub data UnitsError : Type 0 where
  too_precise : UnitsError

abbrev pub starts_minus : List Character → Bool
starts_minus (minus ∷ cs) = true
starts_minus _ = false

abbrev pub drop_sign : List Character → List Character
drop_sign (minus ∷ cs) = cs
drop_sign cs = cs

-- The part before the next point, and the part behind it.
abbrev pub until_point : List Character → List Character × List Character
until_point [] = ([], [])
until_point (point ∷ cs) = ([], cs)
until_point (c ∷ cs) = let (before, behind) = until_point cs in (c ∷ before, behind)

abbrev pub zeros : ℕ → List Character
zeros zero = []
zeros (suc n) = digit 0 ∷ zeros n

-- `frac.padEnd(decimals, '0')`
abbrev pub pad_end : List Character → ℕ → List Character
pad_end cs n = cs ++ zeros (n - length cs)

abbrev pub is_zero : Character → Bool
is_zero (digit d) = d == 0
is_zero _ = false

abbrev pub starts_digit : List Character → Bool
starts_digit (digit d ∷ cs) = true
starts_digit _ = false

-- `replace(/^0+(?=\d)/, '')`: zeros go as long as a digit follows.
unfoldable pub strip_zeros : List Character → List Character
strip_zeros [] = []
strip_zeros (c ∷ cs) =
    let rest = strip_zeros cs in if is_zero c && starts_digit cs then rest else c ∷ cs

abbrev pub or_zero : List Character → List Character
or_zero [] = digit 0 ∷ []
or_zero cs = cs

unfoldable pub to_base_units : List Character → ℕ → Result UnitsError (List Character)
to_base_units amount decimals = do
  let (whole, behind) = until_point (drop_sign amount)
  let (frac, more) = until_point behind
  ensure (leb (length frac) decimals) too_precise
  let digits = or_zero (strip_zeros (whole ++ pad_end frac decimals))
  ok (if starts_minus amount then minus ∷ digits else digits)

abbrev pub digit_of : Character → ℕ
digit_of (digit d) = d
digit_of _ = 0

-- The number that digits write, behind what was read before.
abbrev pub value : ℕ → List Character → ℕ
value n [] = n
value n (c ∷ cs) = value (n * 10 + digit_of c) cs

value-append : (n : ℕ) (xs ys : List Character) → value n (xs ++ ys) ≡ value (value n xs) ys
value-append n [] ys = refl
value-append n (x ∷ xs) ys = value-append (n * 10 + digit_of x) xs ys

value-zeros : (n k : ℕ) → value n (zeros k) ≡ n * 10 ^ k
value-zeros n zero = omega arith
value-zeros n (suc k) =
    let power : 10 ^ suc k ≡ 10 * 10 ^ k = omega arith in
    value-zeros (n * 10 + 0) k ∙ rw power (grind arith)

is_zero-digit_of : (c : Character) → is_zero c ≡ true → digit_of c ≡ 0
is_zero-digit_of (digit d) h = ==→≡ d 0 h
is_zero-digit_of point h = refl
is_zero-digit_of minus h = refl
is_zero-digit_of (other n) h = refl

value-strip_zeros : (cs : List Character) → value 0 (strip_zeros cs) ≡ value 0 cs
unfolding strip_zeros
value-strip_zeros [] = refl
value-strip_zeros (c ∷ cs) = elim (Bool-cases (is_zero c && starts_digit cs)) [
  | inr kept ↦ rw kept refl
  | inl gone ↦
      let zeroed = is_zero-digit_of c (ground (arith, gone)) in
      rw (gone, zeroed) (value-strip_zeros cs)
]

value-or_zero : (cs : List Character) → value 0 (or_zero cs) ≡ value 0 cs
value-or_zero [] = refl
value-or_zero (c ∷ cs) = refl

drop_sign_plain : (cs : List Character) → starts_minus cs ≡ false → drop_sign cs ≡ cs
drop_sign_plain [] h = refl
drop_sign_plain (digit d ∷ cs) h = refl
drop_sign_plain (point ∷ cs) h = refl
drop_sign_plain (minus ∷ cs) h = absurd (cc h)
drop_sign_plain (other n ∷ cs) h = refl

abbrev units_of : List Character → List Character → ℕ → List Character
units_of whole frac decimals = or_zero (strip_zeros (whole ++ pad_end frac decimals))

value-units_of :
    (whole frac : List Character) (decimals : ℕ)
    → value 0 (units_of whole frac decimals)
      ≡ value 0 (whole ++ frac) * 10 ^ (decimals - length frac)
value-units_of whole frac decimals =
    let k = decimals - length frac in
    value-or_zero (strip_zeros (whole ++ pad_end frac decimals))
    ∙ value-strip_zeros (whole ++ pad_end frac decimals)
    ∙ value-append 0 whole (frac ++ zeros k)
    ∙ value-append (value 0 whole) frac (zeros k)
    ∙ ap (λ n. value n (zeros k)) (sym (value-append 0 whole frac))
    ∙ value-zeros (value 0 (whole ++ frac)) k

-- A price without a sign, of no more decimals than the token has, is written in base units without an
-- error: the digits of the price, its point left out, times ten for each decimal that it does not have.
pub value-to_base_units :
    (amount : List Character) (decimals : ℕ) (units : List Character)
    → starts_minus amount ≡ false
    → to_base_units amount decimals ≡ ok units
    → let (whole, behind) = until_point amount in
      let (frac, more) = until_point behind in
      value 0 units ≡ value 0 (whole ++ frac) * 10 ^ (decimals - length frac)
unfolding to_base_units
value-to_base_units amount decimals units plain h =
    let e = rw (to_base_units, drop_sign_plain amount plain, plain) at h in
    let (whole, behind) = until_point amount in
    let (frac, more) = until_point behind in
    let (u, short, h₁) = >>=-eq-ok (ensure (leb (length frac) decimals) too_precise) _ e in
    ap (value 0) (sym (ok-eq-ok h₁)) ∙ value-units_of whole frac decimals
