-- ===== src/Sdk/Wallet.antt =====
-- packages/sdk/src/wallet.ts: the wallet of an agent. The mint is a parameter, `MintApi`: what each
-- request is answered with, or the exception. Drawn secrets and factors come from `draw`, by the
-- place of the output. Links are in link.ts and are left out.
pub mod Slices
pub mod Payments
use picocash.Prelude.{
  ℕ, zero, suc, ◌+◌, ◌-◌, Text, Bool, true, false, not, Option, none, some, List, [], ◌∷◌, ◌++◌,
  map, length, sum_by, ◌==◌, ltb, leb, if◌then◌else◌,
}
use picocash.Result.{Result, ok, err, ensure, ◌>>=◌, ◌>>◌}
use picocash.Crypto.Curve.{Bytes, Curve}
use picocash.Crypto.P2pk.{P2pkError}
use picocash.Crypto.P2pk.Secret.{SecretText, LockOptions, p2pk_secret_hex, verify_spend}
use picocash.Acceptor.{KeysetInfo, Proofs, all_of, get_or, verify_proof_offline}
use picocash.Sdk.Blinding.{DecomposeError, decompose}
use picocash.Sdk.Store.{Proof}
use picocash.Sdk.Outputs.{
  Hex, OutputSpec, PendingOutput, WireOutput, WireSignature, OutputError, prepare_outputs,
  finalize_signatures, y_of_secret,
}
use picocash.Sdk.Locks.{sign_proofs}
use picocash.Sdk.Token.{TokenBundle, TokenText, TokenFormatError, serialize_token, parse_token}

-- A proof on the wire, without its DLEQ proof.
pub record WireProof : Type 0 where
  pub amount : ℕ
  pub keyset_id : Text
  pub secret : Text
  pub c : Text
  pub witness : Option Text

pub record MintQuote : Type 0 where
  pub quote_id : Text
  pub amount : ℕ

pub record MeltQuote : Type 0 where
  pub melt_id : Text
  pub amount : ℕ
  pub fee : ℕ
  pub total : ℕ

pub data ProofState : Type 0 where
  unspent spent in_flight : ProofState

pub record MintApi (E : Type 0) : Type 0 where
  pub melt_fee : Result E (Option ℕ)
  pub keys : Result E (List KeysetInfo)
  pub mint_quote : ℕ → Text → Result E MintQuote
  pub mint : Text → List WireOutput → Result E (List WireSignature)
  pub swap : List WireProof → List WireOutput → Result E (List WireSignature)
  pub melt_quote : ℕ → Text → Text → Result E MeltQuote
  pub melt : Text → List WireProof → Result E MeltQuote
  pub checkstate : List Text → Result E (List ProofState)

pub record Sent : Type 0 where
  pub bundle : TokenBundle
  pub token : Text
  pub change : List Proof

pub data WalletError (E : Type 0) : Type 0 where
  api : E → WalletError E
  no_keysets insufficient secret_count fee_not_covered fee_changed : WalletError E
  unit_mismatch unverified locked : WalletError E
  bad_amount : DecomposeError → WalletError E
  bad_output : OutputError → WalletError E
  bad_token : TokenFormatError → WalletError E
  bad_lock : P2pkError → WalletError E

pub record Wallet : Type 0 where
  pub mint_url : Text
  pub keyset : Option KeysetInfo

abbrev pub or_throw_as {ℓ} :
    {D E : Type 0} {A : Type ℓ} → (D → WalletError E) → Result D A → Result (WalletError E) A
or_throw_as wrap (ok a) = ok a
or_throw_as wrap (err e) = err (wrap e)

abbrev pub wire_proof : Proof → WireProof
wire_proof p = record {
  amount = p.amount;
  keyset_id = p.keyset_id;
  secret = p.secret;
  c = p.c;
  witness = p.witness;
}

abbrev pub first {ℓ} : {A : Type ℓ} → List A → Option A
first [] = none
first (x ∷ xs) = some x

abbrev pub rest {ℓ} : {A : Type ℓ} → List A → List A
rest [] = []
rest (x ∷ xs) = xs

-- The specs of amounts, each with the secret that stands in its place, or a drawn one.
unfoldable pub specs_of : (ℕ → Text × Bytes) → ℕ → List ℕ → List Text → List (OutputSpec × Bytes)
specs_of draw i [] secrets = []
specs_of draw i (amount ∷ amounts) secrets =
    let (drawn, factor) = draw i in
    (record { amount = amount; secret = get_or (first secrets) drawn }, factor)
    ∷ specs_of draw (suc i) amounts (rest secrets)

-- `fresh.slice(0, n)` and `fresh.slice(n)`
abbrev pub slice_at {ℓ} : {A : Type ℓ} → ℕ → List A → List A × List A
slice_at zero xs = ([], xs)
slice_at (suc n) [] = ([], [])
slice_at (suc n) (x ∷ xs) = let (taken, left) = slice_at n xs in (x ∷ taken, left)

module _ {E : Type 0} (mint : MintApi E) where
  unfoldable pub get_keyset : Bool → Wallet → Result (WalletError E) KeysetInfo × Wallet
  get_keyset refresh w = elim (if refresh then none else w.keyset) [
    | some keyset ↦ (ok keyset, w)
    | none ↦ elim mint.keys [
      | err e ↦ (err (api e), w)
      | ok [] ↦ (err no_keysets, w)
      | ok (keyset ∷ keysets) ↦ (ok keyset, record w { keyset = some keyset })
    ]
  ]

  -- What a method does after `getKeyset`; a second call finds the keyset that the first one kept.
  abbrev pub with_keyset {ℓ} :
      {A : Type ℓ}
      → Wallet
      → (KeysetInfo → Result (WalletError E) A)
      → Result (WalletError E) A × Wallet
  with_keyset w next = let (keyset, w') = get_keyset false w in (keyset >>= next, w')

  unfoldable pub request_mint_quote : ℕ → Wallet → Result (WalletError E) MintQuote × Wallet
  request_mint_quote amount w =
      with_keyset w (λ keyset. or_throw_as api (mint.mint_quote amount keyset.unit))

  unfoldable pub request_melt_quote : ℕ → Text → Wallet → Result (WalletError E) MeltQuote × Wallet
  request_melt_quote amount to w =
      with_keyset w (λ keyset. or_throw_as api (mint.melt_quote amount keyset.unit to))

  unfoldable pub melt : Text → List Proof → Result (WalletError E) MeltQuote
  melt melt_id inputs = or_throw_as api (mint.melt melt_id (map wire_proof inputs))

  -- What `meltProofs` does with the answer to its quote.
  abbrev pub melt_quoted : ℕ → List Proof → MeltQuote → Result (WalletError E) MeltQuote
  melt_quoted total proofs quote =
      ensure (quote.total == total) fee_changed >>= λ _. melt quote.melt_id proofs

  unfoldable pub melt_proofs :
      Text → List Proof → Wallet → Result (WalletError E) MeltQuote × Wallet
  melt_proofs to proofs w = elim mint.melt_fee [
    | err e ↦ (err (api e), w)
    | ok given ↦
        let fee = get_or given 0 in
        let total = sum_by Proof.amount proofs in
        if leb total fee
        then (err fee_not_covered, w)
        else (let (quote, w') = request_melt_quote (total - fee) to w in
            (quote >>= melt_quoted total proofs, w'))
  ]

  module _ {P : Type 0} (curve : Curve P) (hex : Hex) where
    unfoldable pub mint_proofs :
        (ℕ → Text × Bytes)
        → Text
        → ℕ
        → List Text
        → Wallet
        → Result (WalletError E) (List Proof) × Wallet
    mint_proofs draw quote_id amount secrets w = with_keyset w (λ keyset. do
      amounts ← or_throw_as bad_amount (decompose amount)
      prepared ←
          or_throw_as bad_output
            (prepare_outputs curve hex keyset.id (specs_of draw 0 amounts secrets))
      let (outputs, awaited) = prepared
      signatures ← or_throw_as api (mint.mint quote_id outputs)
      or_throw_as bad_output (finalize_signatures curve hex keyset awaited signatures))

    -- `swap`, behind its call of `getKeyset`.
    unfoldable pub swap_with :
        KeysetInfo → List Proof → List (OutputSpec × Bytes) → Result (WalletError E) (List Proof)
    swap_with keyset inputs specs = do
      prepared ← or_throw_as bad_output (prepare_outputs curve hex keyset.id specs)
      let (outputs, awaited) = prepared
      signatures ← or_throw_as api (mint.swap (map wire_proof inputs) outputs)
      or_throw_as bad_output (finalize_signatures curve hex keyset awaited signatures)

    unfoldable pub swap :
        List Proof
        → List (OutputSpec × Bytes)
        → Wallet
        → Result (WalletError E) (List Proof) × Wallet
    swap inputs specs w = with_keyset w (λ keyset. swap_with keyset inputs specs)
