-- ===== src/Sdk/Outputs/Kept.antt =====
-- The proofs that a wallet takes from a mint have the amounts and the secrets that it asked for.
use picocash.Prelude.{
  ℕ, ◌≡◌, sym, ap, ap₂, ◌∙◌, Text, List, [], ◌∷◌, map, length, arith, ◌==◌, ==→≡,
}
use picocash.Result.{ok, ensure, >>=-eq-ok, ok-eq-ok, ensure-eq-ok}
use picocash.Crypto.Curve.{Bytes, Curve}
use picocash.Crypto.Bdhke.{blind_message}
use picocash.Sdk.Store.{Proof}
use picocash.Acceptor.{KeysetInfo}
use picocash.Sdk.Outputs.{
  Hex, OutputSpec, PendingOutput, WireOutput, WireSignature, signature_count, crypto, bytes_of,
  prepare_output, prepare_pending, prepare_outputs, finalize_signature, finalize_each,
  finalize_signatures,
}
use picocash.Sdk.Outputs.Finalized.{finalize_signature-Finalized}

-- The amount and the secret.
abbrev pub face_of : Proof → ℕ × Text
face_of p = (p.amount, p.secret)

abbrev pub face_asked : OutputSpec × Bytes → ℕ × Text
face_asked (spec, factor) = (spec.amount, spec.secret)

abbrev face_awaited : PendingOutput → ℕ × Text
face_awaited p = (p.amount, p.secret)

module _ {P : Type 0} (curve : Curve P) (hex : Hex) where
  prepare_pending-kept :
      (specs : List (OutputSpec × Bytes)) (awaited : List PendingOutput)
      → prepare_pending curve hex specs ≡ ok awaited
      → map face_awaited awaited ≡ map face_asked specs
  unfolding prepare_pending prepare_output
  prepare_pending-kept [] awaited h = ap (map face_awaited) (sym (ok-eq-ok h))
  prepare_pending-kept ((spec, factor) ∷ specs) awaited h =
      let (p, made, h₁) = >>=-eq-ok (prepare_output curve hex spec factor) _ h in
      let (others, prepared, h₂) = >>=-eq-ok (prepare_pending curve hex specs) _ h₁ in
      let (secret, read, m₁) = >>=-eq-ok (bytes_of curve hex spec.secret) _ made in
      let (blinding, blinded, m₂) = >>=-eq-ok (crypto (blind_message curve secret factor)) _ m₁ in
      ap (map face_awaited) (sym (ok-eq-ok h₂))
      ∙ ap₂ (λ x xs. x ∷ xs) (ap face_awaited (sym (ok-eq-ok m₂)))
          (prepare_pending-kept specs others prepared)

  finalize_signature-face :
      (keyset : KeysetInfo) (p : PendingOutput) (sig : WireSignature) (proof : Proof)
      → finalize_signature curve hex keyset p sig ≡ ok proof
      → face_of proof ≡ face_awaited p
  finalize_signature-face keyset p sig proof h =
      ap face_of (sym (finalize_signature-Finalized curve hex keyset p sig proof h).made)

  finalize_each-kept :
      (keyset : KeysetInfo) (awaited : List PendingOutput) (signatures : List WireSignature)
      (proofs : List Proof)
      → length signatures ≡ length awaited
      → finalize_each curve hex keyset awaited signatures ≡ ok proofs
      → map face_of proofs ≡ map face_awaited awaited
  unfolding finalize_each
  finalize_each-kept keyset [] signatures proofs same h = ap (map face_of) (sym (ok-eq-ok h))
  finalize_each-kept keyset (p ∷ awaited) [] proofs same h = absurd (omega (arith, same))
  finalize_each-kept keyset (p ∷ awaited) (sig ∷ signatures) proofs same h =
      let (proof, made, h₁) = >>=-eq-ok (finalize_signature curve hex keyset p sig) _ h in
      let (others, rest, h₂) = >>=-eq-ok (finalize_each curve hex keyset awaited signatures) _ h₁ in
      ap (map face_of) (sym (ok-eq-ok h₂))
      ∙ ap₂ (λ x xs. x ∷ xs) (finalize_signature-face keyset p sig proof made)
          (finalize_each-kept keyset awaited signatures others (omega (arith, same)) rest)

  -- What was asked for is what comes, in order.
  pub finalize_signatures-kept :
      (keyset : KeysetInfo) (keyset_id : Text) (specs : List (OutputSpec × Bytes))
      (outputs : List WireOutput) (awaited : List PendingOutput) (signatures : List WireSignature)
      (proofs : List Proof)
      → prepare_outputs curve hex keyset_id specs ≡ ok (outputs, awaited)
      → finalize_signatures curve hex keyset awaited signatures ≡ ok proofs
      → map face_of proofs ≡ map face_asked specs
  unfolding prepare_outputs finalize_signatures
  finalize_signatures-kept keyset keyset_id specs outputs awaited signatures proofs prepared done =
      let (made, prepared', h₁) = >>=-eq-ok (prepare_pending curve hex specs) _ prepared in
      let same : made ≡ awaited = ap (λ r. r.1) (ok-eq-ok h₁) in
      let (u, counted, h₂) =
        >>=-eq-ok (ensure (length signatures == length awaited) signature_count) _ done in
      finalize_each-kept keyset awaited signatures proofs
        (==→≡ (length signatures) (length awaited)
          (ensure-eq-ok (length signatures == length awaited) signature_count counted))
        h₂
      ∙ ap (map face_awaited) (sym same)
      ∙ prepare_pending-kept specs made prepared'
