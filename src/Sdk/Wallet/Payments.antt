-- ===== src/Sdk/Wallet/Payments.antt =====
-- packages/sdk/src/wallet.ts: sending and receiving bundles.
pub mod Exact
use picocash.Prelude.{
  ℕ, zero, suc, ◌+◌, ◌-◌, Text, Bool, true, false, not, Option, none, some, List, [], ◌∷◌, ◌++◌,
  map, length, sum_by, ◌==◌, ltb, leb, if◌then◌else◌,
}
use picocash.Result.{Result, ok, err, ensure, ◌>>=◌, ◌>>◌}
use picocash.Crypto.Curve.{Bytes, Curve}
use picocash.Crypto.P2pk.{P2pkError}
use picocash.Crypto.P2pk.Secret.{SecretText, LockOptions, p2pk_secret_hex, verify_spend}
use picocash.Acceptor.{KeysetInfo, Proofs, all_of, get_or, verify_proof_offline}
use picocash.Sdk.Blinding.{DecomposeError, decompose}
use picocash.Sdk.Store.{Proof}
use picocash.Sdk.Outputs.{
  Hex, OutputSpec, PendingOutput, WireOutput, WireSignature, OutputError, prepare_outputs,
  finalize_signatures, y_of_secret,
}
use picocash.Sdk.Locks.{sign_proofs}
use picocash.Sdk.Token.{TokenBundle, TokenText, TokenFormatError, serialize_token, parse_token}
use picocash.Sdk.Wallet.{
  MintApi, Sent, WalletError, Wallet, or_throw_as, specs_of, slice_at, with_keyset, swap_with,
  insufficient, secret_count, unit_mismatch, unverified, locked, bad_amount, bad_token, bad_lock,
  get_keyset,
}

module _ {E : Type 0} (mint : MintApi E) where
  module _ {P : Type 0} (curve : Curve P) (hex : Hex) where
    abbrev pub decompose_positive : ℕ → Result DecomposeError (List ℕ)
    decompose_positive amount = if amount == 0 then ok [] else decompose amount

    -- `send`, behind its first call of `getKeyset`; `none` are no secrets.
    unfoldable pub send_with :
        (ℕ → Text × Bytes)
        → TokenText
        → Text
        → KeysetInfo
        → List Proof
        → ℕ
        → Option (List Text)
        → Option Text
        → Result (WalletError E) Sent
    send_with draw text mint_url keyset proofs amount secrets memo = do
      let total = sum_by Proof.amount proofs
      ensure (not (ltb total amount)) insufficient
      send_amounts ← or_throw_as bad_amount (decompose amount)
      ensure (elim secrets [ none ↦ true | some ss ↦ length ss == length send_amounts ])
          secret_count
      change_amounts ← or_throw_as bad_amount (decompose_positive (total - amount))
      let specs =
          specs_of draw 0 send_amounts (get_or secrets [])
          ++ specs_of draw (length send_amounts) change_amounts []
      fresh ← swap_with mint curve hex keyset proofs specs
      let (sent, change) = slice_at (length send_amounts) fresh
      let bundle : TokenBundle = record {
        mint = mint_url;
        unit = keyset.unit;
        keyset_id = keyset.id;
        proofs = sent;
      }
      token ← or_throw_as bad_token (serialize_token text bundle memo)
      ok (record { bundle = bundle; token = token; change = change })

    unfoldable pub send :
        (ℕ → Text × Bytes)
        → TokenText
        → List Proof
        → ℕ
        → Option (List Text)
        → Option Text
        → Wallet
        → Result (WalletError E) Sent × Wallet
    send draw text proofs amount secrets memo w =
        with_keyset mint w
          (λ keyset. send_with draw text w.mint_url keyset proofs amount secrets memo)

    -- `decompose(amount).map(() => p2pkSecretHex(…))`, with a nonce drawn for each.
    unfoldable pub locked_secrets :
        SecretText → (ℕ → Text) → Text → LockOptions → ℕ → List ℕ → Result P2pkError (List Text)
    locked_secrets locks nonce lock_pubkey options i [] = ok []
    locked_secrets locks nonce lock_pubkey options i (amount ∷ amounts) = do
      secret ← p2pk_secret_hex locks (nonce i) lock_pubkey options
      others ← locked_secrets locks nonce lock_pubkey options (suc i) amounts
      ok (secret ∷ others)

    -- The options that `sendLocked` hands on.
    abbrev pub lock_options : Option ℕ → List Text → LockOptions
    lock_options locktime refund = record {
      nonce = none;
      locktime = locktime;
      refund = refund;
      pubkeys = [];
      n_sigs = none;
    }

    unfoldable pub secrets_for :
        SecretText
        → (ℕ → Text)
        → ℕ
        → Text
        → Option ℕ
        → List Text
        → Result (WalletError E) (List Text)
    secrets_for locks nonce amount lock_pubkey locktime refund = do
      amounts ← or_throw_as bad_amount (decompose amount)
      or_throw_as bad_lock
          (locked_secrets locks nonce lock_pubkey (lock_options locktime refund) 0 amounts)

    unfoldable pub send_locked :
        (ℕ → Text × Bytes)
        → TokenText
        → SecretText
        → (ℕ → Text)
        → List Proof
        → ℕ
        → Text
        → Option ℕ
        → List Text
        → Option Text
        → Wallet
        → Result (WalletError E) Sent × Wallet
    send_locked draw text locks nonce proofs amount lock_pubkey locktime refund memo w =
        elim (secrets_for locks nonce amount lock_pubkey locktime refund) [
          | err e ↦ (err e, w)
          | ok secrets ↦ send draw text proofs amount (some secrets) memo w
        ]

    abbrev pub is_spendable : SecretText → ℕ → Proof → Bool
    is_spendable locks now proof = verify_spend locks proof.secret proof.witness now

    abbrev pub unlock_with : SecretText → Option Text → List Proof → Result P2pkError (List Proof)
    unlock_with locks none proofs = ok proofs
    unlock_with locks (some key) proofs = sign_proofs locks key proofs

    -- `receive` of a bundle, behind its call of `getKeyset`.
    unfoldable pub receive_with :
        (ℕ → Text × Bytes)
        → Proofs
        → SecretText
        → KeysetInfo
        → TokenBundle
        → Option Text
        → ℕ
        → Result (WalletError E) (List Proof)
    receive_with draw checks locks keyset bundle unlock_key now = do
      ensure (bundle.unit == keyset.unit) unit_mismatch
      ensure (all_of (verify_proof_offline checks keyset) bundle.proofs) unverified
      inputs ← or_throw_as bad_lock (unlock_with locks unlock_key bundle.proofs)
      ensure (all_of (is_spendable locks now) inputs) locked
      amounts ← or_throw_as bad_amount (decompose (sum_by Proof.amount inputs))
      swap_with mint curve hex keyset inputs (specs_of draw 0 amounts [])

    unfoldable pub receive :
        (ℕ → Text × Bytes)
        → Proofs
        → SecretText
        → TokenBundle
        → Option Text
        → ℕ
        → Wallet
        → Result (WalletError E) (List Proof) × Wallet
    receive draw checks locks bundle unlock_key now w =
        with_keyset mint w (λ keyset. receive_with draw checks locks keyset bundle unlock_key now)

    -- `receive` of a token's text.
    unfoldable pub receive_token :
        (ℕ → Text × Bytes)
        → TokenText
        → Proofs
        → SecretText
        → Text
        → Option Text
        → ℕ
        → Wallet
        → Result (WalletError E) (List Proof) × Wallet
    receive_token draw text checks locks token unlock_key now w = elim (parse_token text token) [
      | err e ↦ (err (bad_token e), w)
      | ok (bundle, memo) ↦ receive draw checks locks bundle unlock_key now w
    ]
