-- ===== src/Crypto/Bdhke.antt =====
-- packages/crypto/src/bdhke.ts: blind signatures.
pub mod Unblinding
use picocash.Prelude.{Bool, true, false, List}
use picocash.Result.{Result, ok, err, ◌>>=◌}
use picocash.Crypto.Curve.{
  Bytes, Curve, CurveError, bytes_to_scalar, parse_point, mul_base, to_bytes, hash_to_curve,
}

pub record BlindingResult : Type 0 where
  pub b_ : Bytes
  pub r : Bytes

module _ {P : Type 0} (curve : Curve P) where
  -- `blindMessage`, with the factor drawn.
  unfoldable pub blind_message : Bytes → Bytes → Result CurveError BlindingResult
  blind_message secret r = do
    r_scalar ← bytes_to_scalar curve r
    y ← hash_to_curve curve secret
    b_ ← to_bytes curve true (curve.add y (mul_base curve r_scalar))
    ok (record { b_ = b_; r = r })

  unfoldable pub sign_blinded_message : Bytes → Bytes → Result CurveError Bytes
  sign_blinded_message b_ private_key = do
    k ← bytes_to_scalar curve private_key
    p ← parse_point curve b_
    to_bytes curve true (curve.multiply k p)

  unfoldable pub unblind_signature : Bytes → Bytes → Bytes → Result CurveError Bytes
  unblind_signature c_ r mint_pubkey = do
    key ← parse_point curve mint_pubkey
    r_scalar ← bytes_to_scalar curve r
    p ← parse_point curve c_
    to_bytes curve true (curve.subtract p (curve.multiply r_scalar key))

  unfoldable pub verify_proof : Bytes → Bytes → Bytes → Result CurveError Bool
  verify_proof secret c private_key = do
    k ← bytes_to_scalar curve private_key
    elim (parse_point curve c) [
      | err e ↦ ok false
      | ok point ↦ hash_to_curve curve secret >>= λ y. ok (curve.equals (curve.multiply k y) point)
    ]

  unfoldable pub derive_public_key : Bytes → Result CurveError Bytes
  derive_public_key private_key = do
    k ← bytes_to_scalar curve private_key
    to_bytes curve true (mul_base curve k)
