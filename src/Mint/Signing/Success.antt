-- ===== src/Mint/Signing/Success.antt =====
-- When `spendInputs` and `signAndRecord` of signing.ts succeed.
use picocash.Prelude.{
  Text, ◌≡◌, refl, true, Option, none, some, List, [], ◌∷◌, arith, All, contains,
}
use picocash.Result.{ok}
use picocash.Table.{find, insert_new}
use picocash.Mint.Data.{
  Crypto, Keyset, DenominationKey, get_key, BlindedMessage, SignatureResponse, VerifiedInput,
  SpentSecret, BlindSignature, Db,
}
use picocash.Mint.Signing.{spend_input, spend_inputs, sign_and_record, sign_all}
use picocash.Mint.Signing.Inputs.{FreshKeys}
use picocash.Mint.Signing.Spending.{spent_row, with_rows}
use picocash.Mint.Signing.Signatures.{IsValidOutput, FreshOutputs, signature_row}

abbrev pub Unspent : List SpentSecret → List VerifiedInput → Type 0
Unspent ledger vs = All (λ v. find SpentSecret.y v.y ledger ≡ none) vs

Unspent-cons :
    (u : VerifiedInput) (seen : List Text) (vs : List VerifiedInput) (ledger : List SpentSecret)
    → contains u.y seen ≡ true
    → FreshKeys seen vs
    → Unspent ledger vs
    → Unspent (spent_row u ∷ ledger) vs
unfolding find
Unspent-cons u seen [] ledger m f h = tt
Unspent-cons u seen (v ∷ vs) ledger m f h =
    (ground (arith, m, f.0, h.0), Unspent-cons u (v.y ∷ seen) vs ledger (ground (arith, m)) f.1 h.1)

-- Inputs with keys of their own, none of them spent, are spent together.
pub spend_inputs_total :
    (seen : List Text) (vs : List VerifiedInput) (db : Db)
    → FreshKeys seen vs
    → Unspent db.spent_secrets vs
    → spend_inputs vs db ≡ ok (tt, record db { spent_secrets = with_rows vs db.spent_secrets })
unfolding spend_inputs spend_input
spend_inputs_total seen [] db f h = refl
spend_inputs_total seen (v ∷ vs) db f h =
    rw (spend_inputs, spend_input, insert_new SpentSecret.y (spent_row v) db.spent_secrets h.0)
      (spend_inputs_total (v.y ∷ seen) vs
        (record db { spent_secrets = spent_row v ∷ db.spent_secrets }) f.1
        (Unspent-cons v (v.y ∷ seen) vs db.spent_secrets (ground arith) f.1 h.1))

abbrev pub Unsigned : List BlindSignature → List BlindedMessage → Type 0
Unsigned rows os = All (λ o. find BlindSignature.b o.b rows ≡ none) os

module _ (c : Crypto) (keyset : Keyset) where
  -- The cryptography signs this output under the key of its amount.
  abbrev pub IsSignable : BlindedMessage → Type 0
  IsSignable o =
      (key : DenominationKey)
      → get_key o.amount keyset.keys ≡ some key
      → (c_ : Text) × (proof : Text × Text) × (c.sign_blinded_message o.b key.privkey ≡ some c_)
        × (c.create_dleq_proof o.b key.privkey ≡ some proof)

  Unsigned-cons :
      (row : BlindSignature) (seen : List Text) (os : List BlindedMessage)
      (rows : List BlindSignature)
      → contains row.b seen ≡ true
      → FreshOutputs seen os
      → Unsigned rows os
      → Unsigned (row ∷ rows) os
  unfolding find
  Unsigned-cons row seen [] rows m f h = tt
  Unsigned-cons row seen (o ∷ os) rows m f h = (
    ground (arith, m, f.0, h.0),
    Unsigned-cons row (o.b ∷ seen) os rows (ground (arith, m)) f.1 h.1,
  )

  sign_and_record_total :
      (o : BlindedMessage) (q : Option Text) (db : Db)
      → IsValidOutput keyset o
      → IsSignable o
      → find BlindSignature.b o.b db.blind_signatures ≡ none
      → (s : SignatureResponse) × (sign_and_record c keyset o q db
          ≡ ok (s, record db { blind_signatures = signature_row o s q ∷ db.blind_signatures }))
  unfolding sign_and_record
  sign_and_record_total o q db v signable h =
      let (c_, (e, s), e₁, e₂) = signable v.key v.denomination in
      let response : SignatureResponse = record {
        amount = o.amount;
        keyset_id = o.keyset_id;
        c = c_;
        e = e;
        s = s;
      } in
      let recorded =
        insert_new BlindSignature.b (signature_row o response q) db.blind_signatures h in
      (response, rw (sign_and_record, v.denomination, e₁, e₂, recorded) refl)

  -- Valid outputs that differ, none of them signed before, are signed together.
  pub sign_all_total :
      (seen : List Text) (os : List BlindedMessage) (q : Option Text) (db : Db)
      → All (IsValidOutput keyset) os
      → All IsSignable os
      → FreshOutputs seen os
      → Unsigned db.blind_signatures os
      → (r : List SignatureResponse × Db) × (sign_all c keyset os q db ≡ ok r)
  unfolding sign_all
  sign_all_total seen [] q db v g f h = (([], db), refl)
  sign_all_total seen (o ∷ os) q db v g f h =
      let (s, e) = sign_and_record_total o q db v.0 g.0 h.0 in
      let db' = record db { blind_signatures = signature_row o s q ∷ db.blind_signatures } in
      let (r, e') = sign_all_total (o.b ∷ seen) os q db' v.1 g.1 f.1 (
        Unsigned-cons (signature_row o s q) (o.b ∷ seen) os db.blind_signatures (ground arith) f.1
          h.1) in
      ((s ∷ r.0, r.1), rw (e, e') refl)
