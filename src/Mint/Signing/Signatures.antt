-- ===== src/Mint/Signing/Signatures.antt =====
-- What `validateOutputs` and `signAndRecord` of signing.ts establish and record.
use picocash.Prelude.{
  ℕ, ◌+◌, Text, ◌≡◌, refl, sym, false, Option, none, some, List, [], ◌∷◌, arith, ◌==◌,
  if◌then◌else◌, contains, sum_by, All, Option-cases, inl, inr, subst,
}
use picocash.Result.{ok, >>=-eq-ok, ok-eq-ok}
use picocash.Table.{find, insert, Distinct}
use picocash.Mint.Data.{
  Crypto, Keyset, DenominationKey, get_key, BlindedMessage, SignatureResponse, BlindSignature, Db,
}
use picocash.Mint.Solvency.{issued_amount}
use picocash.Mint.Signing.{validate_from, validate_outputs, sign_and_record, sign_all, sum_outputs}

abbrev pub output_amount : Text → BlindedMessage → ℕ
output_amount keyset o = if o.keyset_id == keyset then o.amount else 0

-- Every output targets the keyset, with a denomination that it has.
pub record IsValidOutput (keyset : Keyset) (o : BlindedMessage) : Type 0 where
  pub of_keyset : o.keyset_id ≡ keyset.id
  pub key : DenominationKey
  pub denomination : get_key o.amount keyset.keys ≡ some key

-- The blinded messages are pairwise different, and none is in `seen`.
abbrev pub FreshOutputs : List Text → List BlindedMessage → Type 0
FreshOutputs seen [] = Unit
FreshOutputs seen (o ∷ os) = (contains o.b seen ≡ false) × FreshOutputs (o.b ∷ seen) os

pub record AreValid (keyset : Keyset) (seen : List Text) (os : List BlindedMessage) : Type 0 where
  pub each : All (IsValidOutput keyset) os
  pub fresh : FreshOutputs seen os
  pub counted : sum_by (output_amount keyset.id) os ≡ sum_outputs os

validate_from-AreValid :
    (seen : List Text) (os : List BlindedMessage) (keyset : Keyset)
    → validate_from seen os keyset ≡ ok tt
    → AreValid keyset seen os
unfolding validate_from sum_outputs
validate_from-AreValid seen [] keyset h = record { each = tt; fresh = tt; counted = refl }
validate_from-AreValid seen (o ∷ os) keyset h = elim (Option-cases (get_key o.amount keyset.keys)) [
  | inl e ↦ ground arith
  | inr (k, e) ↦
      let rest : AreValid keyset (o.b ∷ seen) os =
        validate_from-AreValid (o.b ∷ seen) os keyset (ground arith) in
      let same : o.keyset_id ≡ keyset.id = ground arith in
      record {
        each = (record { of_keyset = same; key = k; denomination = e }, rest.each);
        fresh = (ground arith, rest.fresh);
        counted = ground (arith, same, rest.counted);
      }
]

pub validate_outputs-AreValid :
    (os : List BlindedMessage) (keyset : Keyset)
    → validate_outputs os keyset ≡ ok tt
    → AreValid keyset [] os
unfolding validate_outputs
validate_outputs-AreValid os keyset = validate_from-AreValid [] os keyset

abbrev pub signature_row : BlindedMessage → SignatureResponse → Option Text → BlindSignature
signature_row o r quote_id = record {
  b = o.b;
  keyset_id = o.keyset_id;
  amount = o.amount;
  c = r.c;
  dleq_e = r.e;
  dleq_s = r.s;
  quote_id = quote_id;
}

-- The table of signatures with those of a request in it.
abbrev pub with_signatures :
    List BlindedMessage
    → List SignatureResponse
    → Option Text
    → List BlindSignature
    → List BlindSignature
with_signatures [] rs quote_id rows = rows
with_signatures (o ∷ os) [] quote_id rows = rows
with_signatures (o ∷ os) (r ∷ rs) quote_id rows =
    with_signatures os rs quote_id (signature_row o r quote_id ∷ rows)

abbrev pub NoneSigned :
    List BlindedMessage → List SignatureResponse → Option Text → List BlindSignature → Type 0
NoneSigned [] rs q rows = Unit
NoneSigned (o ∷ os) [] q rows = Unit
NoneSigned (o ∷ os) (r ∷ rs) q rows =
    (find BlindSignature.b o.b rows ≡ none) × NoneSigned os rs q (signature_row o r q ∷ rows)

module _ (c : Crypto) (keyset : Keyset) where
  -- The response is the mint's signature on the blinded message, under the key of its amount.
  pub record IsSigned (o : BlindedMessage) (r : SignatureResponse) : Type 0 where
    pub key : DenominationKey
    pub denomination : get_key o.amount keyset.keys ≡ some key
    pub signature : c.sign_blinded_message o.b key.privkey ≡ some r.c
    pub proof : c.create_dleq_proof o.b key.privkey ≡ some (r.e, r.s)
    pub amount : r.amount ≡ o.amount
    pub of_keyset : r.keyset_id ≡ o.keyset_id

  -- One response for each output, in order.
  abbrev pub AllSigned : List BlindedMessage → List SignatureResponse → Type 0
  AllSigned [] [] = Unit
  AllSigned [] (r ∷ rs) = ⊥
  AllSigned (o ∷ os) [] = ⊥
  AllSigned (o ∷ os) (r ∷ rs) = IsSigned o r × AllSigned os rs

  sign_and_record-eq-ok :
      (o : BlindedMessage) (q : Option Text) (db : Db) (r : SignatureResponse × Db)
      → sign_and_record c keyset o q db ≡ ok r
      → IsSigned o r.0
        × (find BlindSignature.b o.b db.blind_signatures ≡ none)
        × (record db { blind_signatures = signature_row o r.0 q ∷ db.blind_signatures } ≡ r.1)
  unfolding sign_and_record insert
  sign_and_record-eq-ok o q db r h = elim (Option-cases (get_key o.amount keyset.keys)) [
    | inl e ↦ ground arith
    | inr (k, e) ↦ (
      record {
        key = k;
        denomination = e;
        signature = ground arith;
        proof = ground arith;
        amount = ground arith;
        of_keyset = ground arith;
      },
      ground arith,
      ground arith,
    )
  ]

  -- What signing all the outputs of a request has done when it returns.
  pub record Records (os : List BlindedMessage) (q : Option Text) (db : Db)
      (r : List SignatureResponse × Db) : Type 0 where
    pub signed : AllSigned os r.0
    pub unsigned : NoneSigned os r.0 q db.blind_signatures
    pub recorded :
        record db { blind_signatures = with_signatures os r.0 q db.blind_signatures } ≡ r.1

  Records-cons :
      (o : BlindedMessage) (os : List BlindedMessage) (q : Option Text) (db d : Db)
      (s : SignatureResponse) (r : List SignatureResponse × Db)
      → IsSigned o s
      → find BlindSignature.b o.b db.blind_signatures ≡ none
      → record db { blind_signatures = signature_row o s q ∷ db.blind_signatures } ≡ d
      → Records os q d r
      → Records (o ∷ os) q db (s ∷ r.0, r.1)
  Records-cons o os q db d s r signed free step rest =
      let rest' = subst (λ (d : Db). Records os q d r) (sym step) rest in
      record {
        signed = (signed, rest'.signed);
        unsigned = (free, rest'.unsigned);
        recorded = rest'.recorded;
      }

  pub sign_all-Records :
      (os : List BlindedMessage) (q : Option Text) (db : Db) (r : List SignatureResponse × Db)
      → sign_all c keyset os q db ≡ ok r
      → Records os q db r
  unfolding sign_all
  sign_all-Records [] q db r h =
      subst (Records [] q db) (ok-eq-ok h) (record { signed = tt; unsigned = tt; recorded = refl })
  sign_all-Records (o ∷ os) q db r h =
      let ((s, d), e, h₁) = >>=-eq-ok (sign_and_record c keyset o q db) _ h in
      let (r', e₁, h₂) = >>=-eq-ok (sign_all c keyset os q d) _ h₁ in
      let (signed, free, step) = sign_and_record-eq-ok o q db (s, d) e in
      subst (Records (o ∷ os) q db) (ok-eq-ok h₂)
        (Records-cons o os q db d s r' signed free step (sign_all-Records os q d r' e₁))

  -- The total issued for a keyset grows by what the outputs count for it.
  pub sum_by-with_signatures :
      (k : Text) (os : List BlindedMessage) (rs : List SignatureResponse) (q : Option Text)
      (rows : List BlindSignature)
      → AllSigned os rs
      → sum_by (issued_amount k) (with_signatures os rs q rows)
        ≡ sum_by (issued_amount k) rows + sum_by (output_amount k) os
  unfolding issued_amount
  sum_by-with_signatures k [] rs q rows h = omega arith
  sum_by-with_signatures k (o ∷ os) [] q rows h = absurd h
  sum_by-with_signatures k (o ∷ os) (r ∷ rs) q rows h =
      rw (sum_by-with_signatures k os rs q (signature_row o r q ∷ rows) h.1) (ground arith)

pub with_signatures-Distinct :
    (os : List BlindedMessage) (rs : List SignatureResponse) (q : Option Text)
    (rows : List BlindSignature)
    → NoneSigned os rs q rows
    → Distinct BlindSignature.b rows
    → Distinct BlindSignature.b (with_signatures os rs q rows)
with_signatures-Distinct [] rs q rows n d = d
with_signatures-Distinct (o ∷ os) [] q rows n d = d
with_signatures-Distinct (o ∷ os) (r ∷ rs) q rows n d =
    with_signatures-Distinct os rs q (signature_row o r q ∷ rows) n.1 (n.0, d)
