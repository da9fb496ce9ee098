-- ===== src/Crypto/Dleq.antt =====
-- packages/crypto/src/dleq.ts: proofs that a signature and a public key have one private key.
pub mod Completeness
use picocash.Prelude.{
  ◌+◌, ◌*◌, Bool, true, false, Option, none, some, List, [], ◌∷◌, ◌++◌, length, ◌==◌, ◌&&◌,
  if◌then◌else◌,
}
use picocash.Result.{Result, ok, err, ◌>>=◌}
use picocash.Crypto.Curve.{
  Bytes, Curve, CurveError, bytes_to_bigint, bytes_equal, modulo, bytes_to_scalar, scalar_to_bytes,
  parse_point, mul_point, mul_base, hash_e, hash_to_curve,
}

pub record DleqProof : Type 0 where
  pub e : Bytes
  pub s : Bytes

-- The bytes of `picocash-dleq-nonce`.
abbrev pub dleq_nonce_domain : Bytes
dleq_nonce_domain =
    112 ∷ 105 ∷ 99 ∷ 111 ∷ 99 ∷ 97 ∷ 115 ∷ 104 ∷ 45 ∷ 100 ∷ 108 ∷ 101 ∷ 113 ∷ 45 ∷ 110 ∷ 111 ∷ 110
    ∷ 99 ∷ 101 ∷ []

module _ {P : Type 0} (curve : Curve P) where
  unfoldable pub deterministic_nonce : Bytes → Bytes → Bytes
  deterministic_nonce private_key b_ = curve.hmac_sha256 private_key (dleq_nonce_domain ++ b_)

  unfoldable pub nonce_or_drawn : Option Bytes → Bytes → Bytes → Bytes
  nonce_or_drawn none private_key b_ = deterministic_nonce private_key b_
  nonce_or_drawn (some nonce) private_key b_ = nonce

  unfoldable pub create_dleq_proof : Bytes → Bytes → Option Bytes → Result CurveError DleqProof
  create_dleq_proof b_ private_key nonce = do
    k ← bytes_to_scalar curve private_key
    w ← bytes_to_scalar curve (nonce_or_drawn nonce private_key b_)
    bp ← parse_point curve b_
    e ←
        hash_e curve
          (mul_base curve w ∷ curve.multiply w bp ∷ mul_base curve k ∷ curve.multiply k bp ∷ [])
    ok (record {
      e = e;
      s = scalar_to_bytes curve (modulo curve (w + modulo curve (bytes_to_bigint e) * k));
    })

  unfoldable pub recompute : P → P → P → DleqProof → Result CurveError Bytes
  recompute b_ c_ key proof =
      let e = modulo curve (bytes_to_bigint proof.e) in
      let s = modulo curve (bytes_to_bigint proof.s) in
      let r1 = curve.subtract (mul_base curve s) (mul_point curve key e) in
      let r2 = curve.subtract (mul_point curve b_ s) (mul_point curve c_ e) in
      hash_e curve (r1 ∷ r2 ∷ key ∷ c_ ∷ [])

  unfoldable pub verify : P → P → P → DleqProof → Bool
  verify b_ c_ key proof =
      if length proof.e == 32 && length proof.s == 32
      then elim (recompute b_ c_ key proof) [
        | err _ ↦ false
        | ok recomputed ↦ bytes_equal recomputed proof.e
      ]
      else false

  abbrev pub or_false : Result CurveError Bool → Bool
  or_false (err _) = false
  or_false (ok answer) = answer

  unfoldable pub verify_dleq_blind_signature : Bytes → Bytes → Bytes → DleqProof → Bool
  verify_dleq_blind_signature b_ c_ mint_pubkey proof = or_false do
    b ← parse_point curve b_
    c ← parse_point curve c_
    key ← parse_point curve mint_pubkey
    ok (verify b c key proof)

  unfoldable pub verify_dleq_proof : Bytes → Bytes → Bytes → Bytes → DleqProof → Bool
  verify_dleq_proof secret c r mint_pubkey proof = or_false do
    key ← parse_point curve mint_pubkey
    cp ← parse_point curve c
    r_scalar ← bytes_to_scalar curve r
    y ← hash_to_curve curve secret
    let b = curve.add y (mul_base curve r_scalar)
    let c' = curve.add cp (curve.multiply r_scalar key)
    ok (verify b c' key proof)
