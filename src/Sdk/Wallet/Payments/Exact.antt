-- ===== src/Sdk/Wallet/Payments/Exact.antt =====
-- packages/sdk/src/wallet.ts: a bundle is of the amount, and the change is what is left.
use picocash.Prelude.{
  ℕ, ◌+◌, ◌-◌, ◌≡◌, refl, sym, subst, ap, ◌∙◌, Text, Bool, true, not, Option, none, some, List, [],
  ◌++◌, map, length, sum_by, arith, ◌==◌, ltb, inl, inr, Bool-cases, ==→≡, some-eq-some,
}
use picocash.Result.{Result, ok, err, ensure, >>=-eq-ok, ok-eq-ok, ensure-eq-ok}
use picocash.Crypto.Curve.{Bytes, Curve}
use picocash.Crypto.Curve.Laws.{IsCurve}
use picocash.Acceptor.{KeysetInfo, Proofs, all_of, get_or, verify_proof_offline}
use picocash.Sdk.Blinding.{decompose}
use picocash.Sdk.Blinding.Decompose.{sum, decompose_unique}
use picocash.Sdk.Store.{Proof}
use picocash.Sdk.Outputs.{Hex, OutputSpec, prepare_outputs}
use picocash.Sdk.Outputs.Kept.{face_of, face_asked, finalize_signatures-kept}
use picocash.Sdk.Outputs.Offline.{offline, finalize_signatures-offline}
use picocash.Sdk.Token.{TokenText, serialize_token}
use picocash.Sdk.Wallet.{
  MintApi, Sent, WalletError, or_throw_as, specs_of, slice_at, swap_with, wire_proof, api,
  insufficient, secret_count, bad_amount, bad_output, bad_token,
}
use picocash.Sdk.Wallet.Payments.{decompose_positive, send_with}
use picocash.Sdk.Wallet.Slices.{
  slice_at-faces, all_of-slice_at, total_of_faces, secrets_of_faces, length-specs_of,
  total_specs_of, secrets_specs_of,
}

or_throw_as-eq-ok :
    {D E A : Type 0} (wrap : D → WalletError E) (r : Result D A) {a : A}
    → or_throw_as wrap r ≡ ok a
    → r ≡ ok a
or_throw_as-eq-ok wrap (ok b) h = cc h
or_throw_as-eq-ok wrap (err e) h = absurd (cc h)

total_decompose : (amount : ℕ) (parts : List ℕ) → decompose amount ≡ ok parts → sum parts ≡ amount
total_decompose amount parts h = (decompose_unique amount parts h).3

module _ {E P : Type 0} (mint : MintApi E) (curve : Curve P) (laws : IsCurve curve) (hex : Hex)
    (decodes : (b : Bytes) → hex.of_hex (hex.to_hex b) ≡ some b) (checks : Proofs)
    (keyset : KeysetInfo) where
  abbrev pub passes : Proof → Bool
  passes = verify_proof_offline (offline curve laws hex decodes checks keyset) keyset

  total_decompose_positive :
      (amount : ℕ) (parts : List ℕ)
      → decompose_positive mint curve hex amount ≡ ok parts
      → sum parts ≡ amount
  total_decompose_positive amount parts h = elim (Bool-cases (amount == 0)) [
    | inl zeroed ↦ ap sum (sym (ok-eq-ok (rw zeroed at h))) ∙ sym (==→≡ amount 0 zeroed)
    | inr positive ↦ total_decompose amount parts (rw positive at h)
  ]

  swap_with-made :
      (inputs : List Proof) (specs : List (OutputSpec × Bytes)) (fresh : List Proof)
      → swap_with mint curve hex keyset inputs specs ≡ ok fresh
      → (map face_of fresh ≡ map face_asked specs) × (all_of passes fresh ≡ true)
  unfolding swap_with
  swap_with-made inputs specs fresh h =
      let ((outputs, awaited), prepared, h₁) =
        >>=-eq-ok (or_throw_as bad_output (prepare_outputs curve hex keyset.id specs)) _ h in
      let (signatures, answered, h₂) =
        >>=-eq-ok (or_throw_as api (mint.swap (map wire_proof inputs) outputs)) _ h₁ in
      let made = or_throw_as-eq-ok bad_output _ prepared in
      let done = or_throw_as-eq-ok bad_output _ h₂ in
      (
        finalize_signatures-kept curve hex keyset keyset.id specs outputs awaited signatures fresh
            made done,
        finalize_signatures-offline curve laws hex decodes checks keyset keyset.id specs outputs
            awaited signatures fresh made done,
      )

  -- A payment cut from `proofs`.
  pub record IsSent (proofs : List Proof) (amount : ℕ) (secrets : Option (List Text)) (sent : Sent)
      : Type 0 where
    pub bundled : sum_by Proof.amount sent.bundle.proofs ≡ amount
    pub kept : sum_by Proof.amount sent.change + amount ≡ sum_by Proof.amount proofs
    pub bound : (ss : List Text) → secrets ≡ some ss → map Proof.secret sent.bundle.proofs ≡ ss
    pub bundle_passes : all_of passes sent.bundle.proofs ≡ true
    pub change_passes : all_of passes sent.change ≡ true
    pub named : sent.bundle.keyset_id ≡ keyset.id

  abbrev count_fits : Option (List Text) → List ℕ → Bool
  count_fits secrets amounts = elim secrets [ none ↦ true | some ss ↦ length ss == length amounts ]

  bound_secrets :
      (draw : ℕ → Text × Bytes) (amounts : List ℕ) (secrets : Option (List Text)) (ss : List Text)
      (proofs : List Proof)
      → count_fits secrets amounts ≡ true
      → map face_of proofs ≡ map face_asked (specs_of draw 0 amounts (get_or secrets []))
      → secrets ≡ some ss
      → map Proof.secret proofs ≡ ss
  bound_secrets draw amounts none ss proofs fits faces given = absurd (cc given)
  bound_secrets draw amounts (some ts) ss proofs fits faces given =
      secrets_of_faces (specs_of draw 0 amounts ts) proofs faces
      ∙ secrets_specs_of draw 0 amounts ts (==→≡ (length ts) (length amounts) fits)
      ∙ some-eq-some given

  -- On a curve with its laws, and where hexadecimal text decodes to what was encoded: whatever the
  -- mint answers, a payment that `send` returns has a bundle of exactly the amount, with the caller's
  -- secrets in their order if some were given, and change of exactly what the proofs have more; every
  -- proof of both passes the offline check, and the bundle names the keyset.
  pub send_with-IsSent :
      (draw : ℕ → Text × Bytes) (text : TokenText) (mint_url : Text) (proofs : List Proof)
      (amount : ℕ) (secrets : Option (List Text)) (memo : Option Text) (sent : Sent)
      → send_with mint curve hex draw text mint_url keyset proofs amount secrets memo ≡ ok sent
      → IsSent proofs amount secrets sent
  unfolding send_with
  send_with-IsSent draw text mint_url proofs amount secrets memo sent h =
      let total = sum_by Proof.amount proofs in
      let (u, enough, h₁) = >>=-eq-ok (ensure (not (ltb total amount)) insufficient) _ h in
      let (amounts, split, h₂) = >>=-eq-ok (or_throw_as bad_amount (decompose amount)) _ h₁ in
      let (v, counted, h₃) = >>=-eq-ok (ensure (count_fits secrets amounts) secret_count) _ h₂ in
      let (changes, cut, h₄) =
        >>=-eq-ok (or_throw_as bad_amount (decompose_positive mint curve hex (total - amount))) _
          h₃ in
      let asked = specs_of draw 0 amounts (get_or secrets []) in
      let left = specs_of draw (length amounts) changes [] in
      let (fresh, swapped, h₅) =
        >>=-eq-ok (swap_with mint curve hex keyset proofs (asked ++ left)) _ h₄ in
      let (token, written, h₆) =
        >>=-eq-ok (or_throw_as bad_token (serialize_token text _ memo)) _ h₅ in
      let (faces, passed) = swap_with-made proofs (asked ++ left) fresh swapped in
      let n = length amounts in
      let faces' = slice_at-faces face_of face_asked asked left fresh faces in
      let (front, back) =
        subst
          (λ k.
            (map face_of ((slice_at k fresh).0) ≡ map face_asked asked)
            × (map face_of ((slice_at k fresh).1) ≡ map face_asked left))
          (length-specs_of draw 0 amounts (get_or secrets [])) faces' in
      let (front_passes, back_passes) = all_of-slice_at passes n fresh passed in
      let bundled =
        total_of_faces asked ((slice_at n fresh).0) front
        ∙ total_specs_of draw 0 amounts (get_or secrets [])
        ∙ total_decompose amount amounts (or_throw_as-eq-ok bad_amount _ split) in
      let change =
        total_of_faces left ((slice_at n fresh).1) back
        ∙ total_specs_of draw n changes []
        ∙ total_decompose_positive (total - amount) changes (or_throw_as-eq-ok bad_amount _ cut) in
      let covered = ensure-eq-ok (not (ltb total amount)) insufficient enough in
      subst (IsSent proofs amount secrets) (ok-eq-ok h₆) (record {
        bundled = bundled;
        kept = ground (arith, change, covered);
        bound = λ ss given.
            bound_secrets draw amounts secrets ss ((slice_at n fresh).0)
              (ensure-eq-ok (count_fits secrets amounts) secret_count counted) front given;
        bundle_passes = front_passes;
        change_passes = back_passes;
        named = refl;
      })
