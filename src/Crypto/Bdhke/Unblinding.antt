-- ===== src/Crypto/Bdhke/Unblinding.antt =====
-- Blind signatures are complete: what the wallet unblinds is the signature on the secret itself.
use picocash.Prelude.{ℕ, ◌≡◌, ◌≢◌, refl, sym, subst, inl, inr, ap, ◌∙◌, true}
use native.Mathlib.Nat.{mul_comm}
use picocash.Result.{ok, >>=-eq-ok, ok-eq-ok}
use picocash.Crypto.Curve.{Bytes, Curve, bytes_to_scalar, mul_base, to_bytes, hash_to_curve}
use picocash.Crypto.Curve.Laws.{
  IsCurve, bytes_to_scalar_range, mul_point_lem, to_bytes_finite, parse_point-to_bytes,
  to_bytes-finite,
}
use picocash.Crypto.Curve.Search.{hash_to_curve-first}
use picocash.Crypto.Bdhke.{
  BlindingResult, blind_message, sign_blinded_message, unblind_signature, verify_proof,
  derive_public_key,
}

module _ {P : Type 0} (curve : Curve P) (laws : IsCurve curve) where
  pub mul_base_lem : (k : ℕ) → mul_base curve k ≡ curve.multiply k curve.base
  unfolding mul_base
  mul_base_lem k = mul_point_lem curve laws curve.base k

  pub hash_to_curve-finite :
      (secret : Bytes) (y : P) → hash_to_curve curve secret ≡ ok y → y ≢ curve.infinity
  hash_to_curve-finite secret y h = elim (hash_to_curve-first curve secret) [
    | inl (p, n, found, lt, parsed, before) ↦
        let same : p ≡ y = ok-eq-ok (sym found ∙ h) in
        subst (λ q. q ≢ curve.infinity) same (laws.from_hex_finite _ p parsed)
    | inr (lost, nothing) ↦ absurd (cc (lost, h))
  ]

  -- A secret blinded.
  pub record Blinded (secret r : Bytes) (blinding : BlindingResult) : Type 0 where
    pub factor : ℕ
    pub y : P
    pub read : bytes_to_scalar curve r ≡ ok factor
    pub hashed : hash_to_curve curve secret ≡ ok y
    pub kept : blinding.r ≡ r
    pub written :
        to_bytes curve true (curve.add y (curve.multiply factor curve.base)) ≡ ok blinding.b_

  pub blind_message-Blinded :
      (secret r : Bytes) (blinding : BlindingResult)
      → blind_message curve secret r ≡ ok blinding
      → Blinded secret r blinding
  unfolding blind_message
  blind_message-Blinded secret r blinding h =
      let (factor, read, h₁) = >>=-eq-ok (bytes_to_scalar curve r) _ h in
      let (y, hashed, h₂) = >>=-eq-ok (hash_to_curve curve secret) _ h₁ in
      let (b, written, h₃) =
        >>=-eq-ok (to_bytes curve true (curve.add y (mul_base curve factor))) _ h₂ in
      let same = ok-eq-ok h₃ in
      record {
        factor = factor;
        y = y;
        read = read;
        hashed = hashed;
        kept = sym (ap BlindingResult.r same);
        written = rw (mul_base_lem factor) at written ∙ ap (λ (d : BlindingResult). ok d.b_) same;
      }

  pub unblinded :
      (k r : ℕ) (y : P)
      → curve.subtract
          (curve.multiply k (curve.add y (curve.multiply r curve.base)))
          (curve.multiply r (curve.multiply k curve.base))
        ≡ curve.multiply k y
  unblinded k r y =
      rw
        (
          laws.multiply-add k y (curve.multiply r curve.base),
          laws.multiply-multiply k r curve.base,
          laws.multiply-multiply r k curve.base,
          mul_comm k r,
        )
        (laws.subtract-add _ _)

  -- Where a secret was blinded and the private key is a scalar, the mint signs the blinded message, its
  -- public key can be derived, and with that key the wallet unblinds the signature to a point which
  -- the mint accepts for the secret, and which is the same whatever the blinding factor was.
  pub blind_message_complete :
      (secret r private_key : Bytes) (k : ℕ) (blinding : BlindingResult)
      → blind_message curve secret r ≡ ok blinding
      → bytes_to_scalar curve private_key ≡ ok k
      → (c_ mint_pubkey c : Bytes) × (y : P) × (sign_blinded_message curve blinding.b_ private_key
          ≡ ok c_)
        × (derive_public_key curve private_key ≡ ok mint_pubkey)
        × (unblind_signature curve c_ blinding.r mint_pubkey ≡ ok c)
        × (verify_proof curve secret c private_key ≡ ok true)
        × (hash_to_curve curve secret ≡ ok y)
        × (to_bytes curve true (curve.multiply k y) ≡ ok c)
  unfolding sign_blinded_message derive_public_key unblind_signature verify_proof
  blind_message_complete secret r private_key k blinding h e =
      let m = blind_message-Blinded secret r blinding h in
      let (positive, below) = bytes_to_scalar_range curve private_key k e in
      let point = curve.add m.y (curve.multiply m.factor curve.base) in
      let finite = to_bytes-finite curve laws true point blinding.b_ m.written in
      let (c_, signed) =
        to_bytes_finite curve laws true (curve.multiply k point)
          (laws.multiply_finite k point positive below finite) in
      let (mint_pubkey, derived) =
        to_bytes_finite curve laws true (curve.multiply k curve.base)
          (laws.multiply_finite k curve.base positive below laws.base_finite) in
      let (c, unsealed) =
        to_bytes_finite curve laws true (curve.multiply k m.y)
          (laws.multiply_finite k m.y positive below (hash_to_curve-finite secret m.y m.hashed)) in
      (
        c_,
        mint_pubkey,
        c,
        m.y,
        rw
            (
              sign_blinded_message,
              e,
              parse_point-to_bytes curve laws true point blinding.b_ m.written,
            )
            signed,
        rw (derive_public_key, e, mul_base_lem k) derived,
        rw
            (
              unblind_signature,
              parse_point-to_bytes curve laws true _ mint_pubkey derived,
              m.kept,
              m.read,
              parse_point-to_bytes curve laws true _ c_ signed,
              unblinded k m.factor m.y,
            )
            unsealed,
        rw
            (
              verify_proof,
              e,
              parse_point-to_bytes curve laws true _ c unsealed,
              m.hashed,
              laws.equals_refl (curve.multiply k m.y),
            )
            refl,
        m.hashed,
        unsealed,
      )
