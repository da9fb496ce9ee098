-- ===== src/Acceptor/Adapter/Client.antt =====
-- mppx.ts: the client's side of the method, and the offer of a router. The nonce of an offer is empty
-- until `request` draws one for a challenge.
use picocash.Prelude.{ℕ, Text, Option, List}
use picocash.Result.{Result, ok, err, ◌>>=◌}
use picocash.Crypto.Curve.{Bytes, Curve}
use picocash.Crypto.P2pk.Secret.{SecretText}
use picocash.Sdk.Store.{Proof}
use picocash.Sdk.Outputs.{Hex}
use picocash.Sdk.Secrets.{BindText}
use picocash.Sdk.Token.{TokenText}
use picocash.Sdk.Wallet.{MintApi, Wallet}
use picocash.Acceptor.{empty_text, get_or}
use picocash.Acceptor.Agent.{Payment, PayError, pay_challenge}
use picocash.Acceptor.Adapter.{
  WireText, MppxChallenge, MethodDetails, Payload, AdapterError, to_picocash_challenge,
}
use picocash.Acceptor.Adapter.BaseUnits.{Character, UnitsError, to_base_units}

pub data ClientError (E : Type 0) : Type 0 where
  bad_challenge : AdapterError → ClientError E
  unpaid : PayError E → ClientError E

abbrev pub payload_of_payment : Payment → Payload
payload_of_payment payment = record {
  mint = payment.credential.mint;
  keyset_id = payment.credential.keyset_id;
  proofs = payment.credential.proofs;
}

-- The payload to send, and the change to store.
abbrev pub or_unpaid :
    {E : Type 0} → Result (PayError E) Payment → Result (ClientError E) (Payload × List Proof)
or_unpaid (ok payment) = ok (payload_of_payment payment, payment.change)
or_unpaid (err e) = err (unpaid e)

module _ {E P : Type 0} (mint : MintApi E) (curve : Curve P) (hex : Hex) (w : WireText) where
  -- `createCredential`
  unfoldable pub create_credential :
      (ℕ → Text × Bytes)
      → TokenText
      → BindText
      → (ℕ → Text)
      → SecretText
      → List Proof
      → MppxChallenge
      → ℕ
      → Wallet
      → Result (ClientError E) (Payload × List Proof) × Wallet
  create_credential draw text binds salt locks proofs challenge now wallet =
      elim (to_picocash_challenge w challenge now) [
        | err e ↦ (err (bad_challenge e), wallet)
        | ok pc ↦
            let (paid, wallet') =
              pay_challenge mint curve hex draw text binds salt locks proofs pc now wallet in
            (or_unpaid paid, wallet')
      ]

pub record RouterConfig : Type 0 where
  pub currency : Text
  pub chain_id : Option ℕ
  pub unit : Option Text
  pub mints : List (Text × List Text)
  pub decimals : Option ℕ
  pub pubkey : Option Text

-- `defaults`
unfoldable pub default_details : RouterConfig → MethodDetails
default_details config = record {
  chain_id = config.chain_id;
  unit = config.unit;
  nonce = empty_text;
  mints = config.mints;
  pubkey = config.pubkey;
}

-- `request`: the price in base units, and a fresh nonce.
unfoldable pub charge_request :
    RouterConfig
    → Text
    → List Character
    → MethodDetails
    → Result UnitsError (List Character × MethodDetails)
charge_request config drawn amount details = do
  units ← to_base_units amount (get_or config.decimals 6)
  ok (units, record details { nonce = drawn })
