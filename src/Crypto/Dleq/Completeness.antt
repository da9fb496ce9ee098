-- ===== src/Crypto/Dleq/Completeness.antt =====
-- The proofs that a mint makes are accepted, at issue and offline.
use picocash.Prelude.{
  ℕ, ◌+◌, ◌*◌, ◌%◌, ◌≡◌, refl, sym, subst, ap, ◌∙◌, true, Option, List, [], ◌∷◌, length,
}
use native.Mathlib.Nat.{mod-mod}
use picocash.Result.{ok, >>=-eq-ok, ok-eq-ok}
use picocash.Crypto.Curve.{
  Bytes, Curve, bytes_to_bigint, modulo, bytes_to_scalar, scalar_to_bytes, parse_point, mul_base,
  to_bytes, hash_e, hex_points, hash_to_curve,
}
use picocash.Crypto.Curve.Laws.{
  IsCurve, mul_point_lem, parse_point-to_bytes, length-scalar_to_bytes,
  bytes_to_bigint-scalar_to_bytes, bytes_equal_refl,
}
use picocash.Crypto.Bdhke.{
  BlindingResult, blind_message, sign_blinded_message, unblind_signature, derive_public_key,
}
use picocash.Crypto.Bdhke.Unblinding.{mul_base_lem, blind_message-Blinded}
use picocash.Crypto.Dleq.{
  DleqProof, nonce_or_drawn, create_dleq_proof, recompute, verify, verify_dleq_blind_signature,
  verify_dleq_proof,
}

module _ {P : Type 0} (curve : Curve P) (laws : IsCurve curve) where
  -- The verifier finds the prover's commitment again.
  commitment :
      (w e k s : ℕ) (p : P)
      → s ≡ (w + e * k) % curve.order
      → curve.subtract (curve.multiply s p) (curve.multiply e (curve.multiply k p))
        ≡ curve.multiply w p
  commitment w e k s p h =
      rw
        (
          h,
          laws.multiply_modulo (w + e * k) p,
          laws.add_multiply w (e * k) p,
          laws.multiply-multiply e k p,
        )
        (laws.subtract-add _ _)

  -- A proof made.
  record Made (b_ private_key : Bytes) (proof : DleqProof) : Type 0 where
    k : ℕ
    w : ℕ
    bp : P
    key_read : bytes_to_scalar curve private_key ≡ ok k
    parsed : parse_point curve b_ ≡ ok bp
    hashed :
        hash_e curve
          (mul_base curve w ∷ curve.multiply w bp ∷ mul_base curve k ∷ curve.multiply k bp ∷ [])
        ≡ ok proof.e
    response :
        proof.s
        ≡ scalar_to_bytes curve (modulo curve (w + modulo curve (bytes_to_bigint proof.e) * k))

  create_dleq_proof-Made :
      (b_ private_key : Bytes) (nonce : Option Bytes) (proof : DleqProof)
      → create_dleq_proof curve b_ private_key nonce ≡ ok proof
      → Made b_ private_key proof
  unfolding create_dleq_proof
  create_dleq_proof-Made b_ private_key nonce proof h =
      let (k, key_read, h₁) = >>=-eq-ok (bytes_to_scalar curve private_key) _ h in
      let (w, drawn, h₂) =
        >>=-eq-ok (bytes_to_scalar curve (nonce_or_drawn curve nonce private_key b_)) _ h₁ in
      let (bp, parsed, h₃) = >>=-eq-ok (parse_point curve b_) _ h₂ in
      let (e, hashed, h₄) =
        >>=-eq-ok
          (hash_e curve
            (mul_base curve w ∷ curve.multiply w bp ∷ mul_base curve k ∷ curve.multiply k bp ∷ []))
          _ h₃ in
      let same = ok-eq-ok h₄ in
      record {
        k = k;
        w = w;
        bp = bp;
        key_read = key_read;
        parsed = parsed;
        hashed = hashed ∙ ap (λ (p : DleqProof). ok p.e) same;
        response =
            sym (ap DleqProof.s same)
            ∙ ap
                (λ b.
                  scalar_to_bytes curve (modulo curve (w + modulo curve (bytes_to_bigint b) * k)))
                (ap DleqProof.e same);
      }

  length-hash_e : (ps : List P) (e : Bytes) → hash_e curve ps ≡ ok e → length e ≡ 32
  unfolding hash_e
  length-hash_e ps e h =
      let (text, read, h₁) = >>=-eq-ok (hex_points curve ps) _ h in
      rw (← (ok-eq-ok h₁)) (laws.length-sha256 text)

  read_response :
      (b_ private_key : Bytes) (proof : DleqProof) (m : Made b_ private_key proof)
      → modulo curve (bytes_to_bigint proof.s)
        ≡ (m.w + modulo curve (bytes_to_bigint proof.e) * m.k) % curve.order
  unfolding modulo
  read_response b_ private_key proof m =
      let x = m.w + modulo curve (bytes_to_bigint proof.e) * m.k in
      ap (λ b. modulo curve (bytes_to_bigint b)) m.response
      ∙ ap (modulo curve) (bytes_to_bigint-scalar_to_bytes curve laws (modulo curve x))
      ∙ ap (λ n. n % curve.order) (mod-mod x curve.order)
      ∙ mod-mod x curve.order

  recompute-Made :
      (b_ private_key : Bytes) (proof : DleqProof) (m : Made b_ private_key proof)
      → recompute curve m.bp (curve.multiply m.k m.bp) (curve.multiply m.k curve.base) proof
        ≡ ok proof.e
  unfolding recompute
  recompute-Made b_ private_key proof m =
      let e = modulo curve (bytes_to_bigint proof.e) in
      let s = modulo curve (bytes_to_bigint proof.s) in
      let read = read_response b_ private_key proof m in
      rw
        (
          recompute,
          mul_base_lem curve laws s,
          mul_point_lem curve laws (curve.multiply m.k curve.base) e,
          mul_point_lem curve laws m.bp s,
          mul_point_lem curve laws (curve.multiply m.k m.bp) e,
          commitment m.w e m.k s curve.base read,
          commitment m.w e m.k s m.bp read,
        )
        (rw (mul_base_lem curve laws m.w, mul_base_lem curve laws m.k) at m.hashed)

  verify-Made :
      (b_ private_key : Bytes) (proof : DleqProof) (m : Made b_ private_key proof)
      → verify curve m.bp (curve.multiply m.k m.bp) (curve.multiply m.k curve.base) proof ≡ true
  unfolding verify
  verify-Made b_ private_key proof m =
      rw
        (
          verify,
          length-hash_e _ proof.e m.hashed,
          ap length m.response ∙ length-scalar_to_bytes curve laws _,
          recompute-Made b_ private_key proof m,
        )
        (bytes_equal_refl proof.e)

  -- The proof that a mint makes with a signature is accepted by `verifyDleqBlindSignature` for the
  -- blinded message, the signature and the mint's public key, whatever the nonce.
  pub create_dleq_proof_complete :
      (b_ private_key c_ mint_pubkey : Bytes) (nonce : Option Bytes) (proof : DleqProof)
      → create_dleq_proof curve b_ private_key nonce ≡ ok proof
      → sign_blinded_message curve b_ private_key ≡ ok c_
      → derive_public_key curve private_key ≡ ok mint_pubkey
      → verify_dleq_blind_signature curve b_ c_ mint_pubkey proof ≡ true
  unfolding verify_dleq_blind_signature sign_blinded_message derive_public_key
  create_dleq_proof_complete b_ private_key c_ mint_pubkey nonce proof made signed derived =
      let m = create_dleq_proof-Made b_ private_key nonce proof made in
      let written = rw (sign_blinded_message, m.key_read, m.parsed) at signed in
      let published = rw (derive_public_key, m.key_read, mul_base_lem curve laws m.k) at derived in
      rw
        (
          verify_dleq_blind_signature,
          m.parsed,
          parse_point-to_bytes curve laws true _ c_ written,
          parse_point-to_bytes curve laws true _ mint_pubkey published,
          verify-Made b_ private_key proof m,
        )
        refl

  verify_dleq_proof-opened :
      (secret r b_ c_ mint_pubkey c : Bytes) (proof : DleqProof) (factor : ℕ) (y key point : P)
      → bytes_to_scalar curve r ≡ ok factor
      → hash_to_curve curve secret ≡ ok y
      → parse_point curve mint_pubkey ≡ ok key
      → parse_point curve c_ ≡ ok point
      → parse_point curve b_ ≡ ok (curve.add y (curve.multiply factor curve.base))
      → to_bytes curve true (curve.subtract point (curve.multiply factor key)) ≡ ok c
      → verify_dleq_blind_signature curve b_ c_ mint_pubkey proof ≡ true
      → verify_dleq_proof curve secret c r mint_pubkey proof ≡ true
  unfolding verify_dleq_proof verify_dleq_blind_signature
  verify_dleq_proof-opened secret r b_ c_ mint_pubkey c proof factor y key point read hashed
        published parsed blinded opened verified =
      rw
        (
          verify_dleq_proof,
          published,
          parse_point-to_bytes curve laws true _ c opened,
          read,
          hashed,
          mul_base_lem curve laws factor,
          laws.add-subtract point (curve.multiply factor key),
        )
        (rw (verify_dleq_blind_signature, blinded, parsed, published) at verified)

  -- What was verified when a signature was received is verified again offline from the proof.
  pub verify_dleq_proof-verified :
      (secret r c_ mint_pubkey c : Bytes) (blinding : BlindingResult) (proof : DleqProof)
      → blind_message curve secret r ≡ ok blinding
      → unblind_signature curve c_ r mint_pubkey ≡ ok c
      → verify_dleq_blind_signature curve blinding.b_ c_ mint_pubkey proof ≡ true
      → verify_dleq_proof curve secret c r mint_pubkey proof ≡ true
  unfolding unblind_signature
  verify_dleq_proof-verified secret r c_ mint_pubkey c blinding proof blinded unsealed verified =
      let d = blind_message-Blinded curve laws secret r blinding blinded in
      let (key, published, h₁) = >>=-eq-ok (parse_point curve mint_pubkey) _ unsealed in
      let (factor, read, h₂) = >>=-eq-ok (bytes_to_scalar curve r) _ h₁ in
      let (point, parsed, opened) = >>=-eq-ok (parse_point curve c_) _ h₂ in
      let agree : d.factor ≡ factor = ok-eq-ok (sym d.read ∙ read) in
      let blinded' =
        subst
          (λ f. parse_point curve blinding.b_ ≡ ok (curve.add d.y (curve.multiply f curve.base)))
          agree (parse_point-to_bytes curve laws true _ blinding.b_ d.written) in
      verify_dleq_proof-opened secret r blinding.b_ c_ mint_pubkey c proof factor d.y key point read
        d.hashed published parsed blinded' opened verified
