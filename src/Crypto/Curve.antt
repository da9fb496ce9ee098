-- ===== src/Crypto/Curve.antt =====
-- packages/crypto: points.ts and hashToCurve.ts. The curve, its encodings and the hashes are those of
-- the @noble packages, and the parameter `Curve`. Exceptions are errors.
pub mod Laws
pub mod Search
use picocash.Prelude.{
  ℕ, zero, suc, ◌+◌, ◌*◌, ◌/◌, ◌%◌, Bool, true, false, not, Option, none, some, List, [], ◌∷◌, ◌++◌,
  length, ◌==◌, ◌&&◌, ltb, if◌then◌else◌,
}
use picocash.Result.{Result, ok, err, ensure, ◌>>=◌, ◌>>◌}

abbrev pub Bytes : Type 0
Bytes = List ℕ

-- `from_hex` is `fromHex` with `assertValidity`, and `to_raw_bytes` takes whether to compress; `none`
-- is an exception. Scalars given to `multiply` are between 1 and the order here.
pub record Curve (P : Type 0) : Type 0 where
  pub infinity : P
  pub base : P
  pub add : P → P → P
  pub subtract : P → P → P
  pub multiply : ℕ → P → P
  pub equals : P → P → Bool
  pub order : ℕ
  pub from_hex : Bytes → Option P
  pub to_raw_bytes : Bool → P → Option Bytes
  pub sha256 : Bytes → Bytes
  pub hmac_sha256 : Bytes → Bytes → Bytes

pub data CurveError : Type 0 where
  scalar_length scalar_range bad_point at_infinity no_valid_point : CurveError

unfoldable pub read_be : ℕ → Bytes → ℕ
read_be acc [] = acc
read_be acc (b ∷ bytes) = read_be (acc * 256 + b) bytes

unfoldable pub bytes_to_bigint : Bytes → ℕ
bytes_to_bigint bytes = read_be 0 bytes

-- The last bytes of a number, as many as the first argument says, before the bytes given.
unfoldable pub write_be : ℕ → ℕ → Bytes → Bytes
write_be zero x rest = rest
write_be (suc width) x rest = write_be width (x / 256) ((x % 256) ∷ rest)

unfoldable pub hex_digit : ℕ → ℕ
hex_digit n = if ltb n 10 then 48 + n else 87 + n

unfoldable pub bytes_to_hex : Bytes → List ℕ
bytes_to_hex [] = []
bytes_to_hex (b ∷ bytes) = hex_digit (b / 16) ∷ hex_digit (b % 16) ∷ bytes_to_hex bytes

unfoldable pub bytes_equal : Bytes → Bytes → Bool
bytes_equal [] [] = true
bytes_equal (a ∷ as') (b ∷ bs) = a == b && bytes_equal as' bs
bytes_equal _ _ = false

-- The counter as four bytes, the least first.
abbrev pub counter_bytes : ℕ → Bytes
counter_bytes n = n % 256 ∷ (n / 256) % 256 ∷ (n / 65536) % 256 ∷ (n / 16777216) % 256 ∷ []

-- The bytes of `Secp256k1_HashToCurve_Cashu_`.
abbrev pub domain_separator : Bytes
domain_separator =
    83 ∷ 101 ∷ 99 ∷ 112 ∷ 50 ∷ 53 ∷ 54 ∷ 107 ∷ 49 ∷ 95 ∷ 72 ∷ 97 ∷ 115 ∷ 104 ∷ 84 ∷ 111 ∷ 67 ∷ 117
    ∷ 114 ∷ 118 ∷ 101 ∷ 95 ∷ 67 ∷ 97 ∷ 115 ∷ 104 ∷ 117 ∷ 95 ∷ []

abbrev pub or_error {ℓ} : {A : Type ℓ} → CurveError → Option A → Result CurveError A
or_error e none = err e
or_error e (some a) = ok a

module _ {P : Type 0} (curve : Curve P) where
  unfoldable pub modulo : ℕ → ℕ
  modulo x = x % curve.order

  unfoldable pub bytes_to_scalar : Bytes → Result CurveError ℕ
  bytes_to_scalar bytes = do
    ensure (length bytes == 32) scalar_length
    let x = bytes_to_bigint bytes
    ensure (not (x == 0) && ltb x curve.order) scalar_range
    ok x

  unfoldable pub scalar_to_bytes : ℕ → Bytes
  scalar_to_bytes x = write_be 32 (modulo x) []

  unfoldable pub parse_point : Bytes → Result CurveError P
  parse_point bytes = do
    p ← or_error bad_point (curve.from_hex bytes)
    ensure (not (curve.equals p curve.infinity)) at_infinity
    ok p

  unfoldable pub mul_point : P → ℕ → P
  mul_point p scalar = if scalar == 0 then curve.infinity else curve.multiply (modulo scalar) p

  unfoldable pub mul_base : ℕ → P
  mul_base scalar = mul_point curve.base scalar

  abbrev pub to_bytes : Bool → P → Result CurveError Bytes
  to_bytes compressed p = or_error at_infinity (curve.to_raw_bytes compressed p)

  unfoldable pub hex_points : List P → Result CurveError (List ℕ)
  hex_points [] = ok []
  hex_points (p ∷ ps) = do
    raw ← to_bytes false p
    rest ← hex_points ps
    ok (bytes_to_hex raw ++ rest)

  unfoldable pub hash_e : List P → Result CurveError Bytes
  hash_e points = do acc ← hex_points points; ok (curve.sha256 acc)

  unfoldable pub candidate : Bytes → ℕ → Bytes
  candidate msg_hash counter = 2 ∷ curve.sha256 (msg_hash ++ counter_bytes counter)

  -- The loop of `hashToCurve`, with the iterations left.
  unfoldable pub search_point : Bytes → ℕ → ℕ → Result CurveError P
  search_point msg_hash zero counter = err no_valid_point
  search_point msg_hash (suc left) counter = elim (curve.from_hex (candidate msg_hash counter)) [
    | some p ↦ ok p
    | none ↦ search_point msg_hash left (suc counter)
  ]

  unfoldable pub hash_to_curve : Bytes → Result CurveError P
  hash_to_curve message = search_point (curve.sha256 (domain_separator ++ message)) 65536 0
