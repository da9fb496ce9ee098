-- ===== src/Sdk/Outputs/Offline.antt =====
-- A proof that the wallet takes from a mint passes everyone's offline check.
use picocash.Prelude.{
  Text, ◌≡◌, refl, sym, subst, ap, ◌∙◌, true, some, List, [], ◌∷◌, length, All, ◌==◌, ==_refl,
}
use picocash.Result.{ok, ensure, >>=-eq-ok, ok-eq-ok}
use picocash.Crypto.Curve.{Bytes, Curve}
use picocash.Crypto.Curve.Laws.{IsCurve}
use picocash.Crypto.Bdhke.{BlindingResult, blind_message}
use picocash.Crypto.Bdhke.Unblinding.{blind_message-Blinded}
use picocash.Crypto.Dleq.{verify_dleq_blind_signature, verify_dleq_proof}
use picocash.Crypto.Dleq.Completeness.{verify_dleq_proof-verified}
use picocash.Sdk.Store.{Proof}
use picocash.Acceptor.{KeysetInfo, Proofs, all_of, verify_proof_offline}
use picocash.Sdk.Outputs.Finalized.{crypto-eq-ok, Finalized, finalize_signature-Finalized}
use picocash.Sdk.Outputs.{
  Hex, OutputSpec, PendingOutput, WireOutput, WireSignature, signature_count, prepare_outputs,
  crypto, or_throw_error, bad_hex, bytes_of, prepare_output, prepare_pending, finalize_signature,
  finalize_each, finalize_signatures, verify_offline, verify_or_none,
}

module _ {P : Type 0} (curve : Curve P) (laws : IsCurve curve) (hex : Hex)
    (decodes : (b : Bytes) → hex.of_hex (hex.to_hex b) ≡ some b) where
  bytes_of-to_hex : (b : Bytes) → bytes_of curve hex (hex.to_hex b) ≡ ok b
  bytes_of-to_hex b = ap (or_throw_error bad_hex) (decodes b)

  -- An output that `prepareOutputs` made.
  record Prepared (p : PendingOutput) : Type 0 where
    secret : Bytes
    blinding : BlindingResult
    decoded : bytes_of curve hex p.secret ≡ ok secret
    blinded : blind_message curve secret p.r ≡ ok blinding
    written : p.b_ ≡ hex.to_hex blinding.b_

  prepare_output-Prepared :
      (spec : OutputSpec) (factor : Bytes) (p : PendingOutput)
      → prepare_output curve hex spec factor ≡ ok p
      → Prepared p
  unfolding prepare_output
  prepare_output-Prepared spec factor p h =
      let (secret, decoded, h₁) = >>=-eq-ok (bytes_of curve hex spec.secret) _ h in
      let (blinding, made, h₂) = >>=-eq-ok (crypto (blind_message curve secret factor)) _ h₁ in
      let blinded = crypto-eq-ok (blind_message curve secret factor) made in
      let d = blind_message-Blinded curve laws secret factor blinding blinded in
      let same = ok-eq-ok h₂ in
      record {
        secret = secret;
        blinding = blinding;
        decoded = ap (λ (q : PendingOutput). bytes_of curve hex q.secret) (sym same) ∙ decoded;
        blinded =
            ap (blind_message curve secret) (ap PendingOutput.r (sym same) ∙ d.kept) ∙ blinded;
        written = ap PendingOutput.b_ (sym same);
      }

  verified_offline :
      (keyset : KeysetInfo) (p : PendingOutput) (sig : WireSignature) (proof : Proof)
      (d : Prepared p) (f : Finalized curve hex keyset p sig proof)
      → verify_dleq_proof curve d.secret f.c p.r f.pubkey (record { e = f.e; s = f.s }) ≡ true
  verified_offline keyset p sig proof d f =
      let b_same : d.blinding.b_ ≡ f.b_ = ok-eq-ok (
        sym (bytes_of-to_hex d.blinding.b_) ∙ ap (bytes_of curve hex) (sym d.written) ∙ f.b_read) in
      verify_dleq_proof-verified curve laws d.secret p.r f.c_ f.pubkey f.c d.blinding
        (record { e = f.e; s = f.s }) d.blinded f.unsealed
        (subst
          (λ b.
            verify_dleq_blind_signature curve b f.c_ f.pubkey (record { e = f.e; s = f.s }) ≡ true)
          (sym b_same) f.verified)

  module _ (c : Proofs) (keyset : KeysetInfo) where
    -- The acceptor's interface with the check of packages/crypto.
    abbrev pub offline : Proofs
    offline = record c { verify_dleq_proof = verify_or_none curve hex }

    finalize_signature-offline :
        (p : PendingOutput) (sig : WireSignature) (proof : Proof)
        → Prepared p
        → Finalized curve hex keyset p sig proof
        → verify_proof_offline offline keyset proof ≡ true
    unfolding verify_proof_offline verify_or_none verify_offline
    finalize_signature-offline p sig proof d f =
        subst (λ q. verify_proof_offline offline keyset q ≡ true) f.made
          (rw
            (
              verify_proof_offline,
              ==_refl keyset.id,
              f.keyed,
              verify_or_none,
              verify_offline,
              d.decoded,
              bytes_of-to_hex f.c,
              bytes_of-to_hex p.r,
              f.pubkey_read,
              f.e_read,
              f.s_read,
              verified_offline keyset p sig proof d f,
            )
            refl)

    prepare_pending-Prepared :
        (specs : List (OutputSpec × Bytes)) (pending : List PendingOutput)
        → prepare_pending curve hex specs ≡ ok pending
        → All Prepared pending
    unfolding prepare_pending
    prepare_pending-Prepared [] pending h = subst (All Prepared) (ok-eq-ok h) tt
    prepare_pending-Prepared ((spec, factor) ∷ specs) pending h =
        let (p, first, h₁) = >>=-eq-ok (prepare_output curve hex spec factor) _ h in
        let (rest, others, h₂) = >>=-eq-ok (prepare_pending curve hex specs) _ h₁ in
        subst (All Prepared) (ok-eq-ok h₂)
          (prepare_output-Prepared spec factor p first, prepare_pending-Prepared specs rest others)

    finalize_each-offline :
        (pending : List PendingOutput) (signatures : List WireSignature) (proofs : List Proof)
        → All Prepared pending
        → finalize_each curve hex keyset pending signatures ≡ ok proofs
        → all_of (verify_proof_offline offline keyset) proofs ≡ true
    unfolding finalize_each
    finalize_each-offline [] signatures proofs d h =
        subst (λ ps. all_of (verify_proof_offline offline keyset) ps ≡ true) (ok-eq-ok h) refl
    finalize_each-offline (p ∷ pending) [] proofs d h =
        subst (λ ps. all_of (verify_proof_offline offline keyset) ps ≡ true) (ok-eq-ok h) refl
    finalize_each-offline (p ∷ pending) (sig ∷ signatures) proofs d h =
        let (proof, first, h₁) = >>=-eq-ok (finalize_signature curve hex keyset p sig) _ h in
        let (rest, others, h₂) =
          >>=-eq-ok (finalize_each curve hex keyset pending signatures) _ h₁ in
        subst (λ ps. all_of (verify_proof_offline offline keyset) ps ≡ true) (ok-eq-ok h₂)
          (rw
            (
              finalize_signature-offline p sig proof d.0
                  (finalize_signature-Finalized curve hex keyset p sig proof first),
              finalize_each-offline pending signatures rest d.1 others,
            )
            refl)

    -- On a curve with the laws of `IsCurve`, and where hexadecimal text decodes to what was encoded:
    -- whatever a mint answers, every proof that `finalizeSignatures` makes of outputs from
    -- `prepareOutputs` passes `verifyProofOffline` for the keyset.
    pub finalize_signatures-offline :
        (keyset_id : Text) (specs : List (OutputSpec × Bytes)) (outputs : List WireOutput)
        (pending : List PendingOutput) (signatures : List WireSignature) (proofs : List Proof)
        → prepare_outputs curve hex keyset_id specs ≡ ok (outputs, pending)
        → finalize_signatures curve hex keyset pending signatures ≡ ok proofs
        → all_of (verify_proof_offline offline keyset) proofs ≡ true
    unfolding prepare_outputs finalize_signatures
    finalize_signatures-offline keyset_id specs outputs pending signatures proofs prepared
          finalized =
        let (made, prepared', h₁) = >>=-eq-ok (prepare_pending curve hex specs) _ prepared in
        let same : made ≡ pending = ap (λ r. r.1) (ok-eq-ok h₁) in
        let (u, counted, h₂) =
          >>=-eq-ok (ensure (length signatures == length pending) signature_count) _ finalized in
        finalize_each-offline pending signatures proofs
          (subst (All Prepared) same (prepare_pending-Prepared specs made prepared')) h₂
