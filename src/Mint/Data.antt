-- ===== src/Mint/Data.antt =====
-- The data of the mint: errors.ts, keyset.ts, validation.ts, the tables of db-core.ts, and the
-- database transaction of db.ts. `Crypto` is what the mint calls of packages/crypto.
use picocash.Prelude.{ℕ, Text, Bool, Option, none, some, List, [], ◌∷◌, ◌==◌, if◌then◌else◌}
use picocash.Result.{Result, ok, err}

pub data ErrorCode : Type 0 where
  invalid_request quote_not_found quote_expired payment_required quote_already_issued : ErrorCode
  token_already_spent output_already_signed keyset_unknown keyset_inactive : ErrorCode
  amount_mismatch invalid_proof amount_limit spending_condition_failed : ErrorCode
  melt_already_paid payout_failed attestation_overdue relay_disabled : ErrorCode
  relay_not_found payload_too_large not_implemented unauthorized : ErrorCode
  ref_already_issued quote_not_open quote_already_funded : ErrorCode

-- What a handler throws: an `ApiError` with its status and code, or any other exception, which
-- `app.onError` answers with a 500.
pub data Failure : Type 0 where
  api_error : ℕ → ErrorCode → Failure
  internal : Failure

pub record DenominationKey : Type 0 where
  pub privkey : Text
  pub pubkey : Text

pub record Keyset : Type 0 where
  pub id : Text
  pub unit : Text
  pub keys : List (ℕ × DenominationKey)

-- `keyset.keys.get(amount)`
unfoldable pub get_key : ℕ → List (ℕ × DenominationKey) → Option DenominationKey
get_key amount [] = none
get_key amount ((d, key) ∷ keys) = if d == amount then some key else get_key amount keys

-- The signatures that the mint makes and checks, as packages/crypto offers them. `none` is an
-- exception, such as a blinded message that is no point of the curve. `hash_keys` is the
-- hexadecimal SHA-256 of texts joined by commas.
pub record Crypto : Type 0 where
  pub verify_proof : Text → Text → Text → Bool
  pub verify_p2pk_spend : Text → Option Text → ℕ → Bool
  pub hash_to_curve : Text → Text
  pub sign_blinded_message : Text → Text → Option Text
  pub create_dleq_proof : Text → Text → Option (Text × Text)
  pub hash_keys : List Text → Text

pub record BlindedMessage : Type 0 where
  pub amount : ℕ
  pub keyset_id : Text
  pub b : Text

pub record ProofInput : Type 0 where
  pub amount : ℕ
  pub keyset_id : Text
  pub secret : Text
  pub c : Text
  pub witness : Option Text

pub record VerifiedInput : Type 0 where
  pub input : ProofInput
  pub open input use *
  pub y : Text

pub record SignatureResponse : Type 0 where
  pub amount : ℕ
  pub keyset_id : Text
  pub c : Text
  pub e : Text
  pub s : Text

pub data QuoteState : Type 0 where
  unpaid paid issued : QuoteState

pub record MintQuote : Type 0 where
  pub id : Text
  pub amount : ℕ
  pub unit : Text
  pub state : QuoteState
  pub deposit_ref : Option Text
  pub expires_at : ℕ

pub record SpentSecret : Type 0 where
  pub y : Text
  pub keyset_id : Text
  pub amount : ℕ

pub data MeltState : Type 0 where
  unpaid pending paid owed : MeltState

-- The hash of a payout, or the note that stands for one that was not recorded.
pub data TxHash : Type 0 where
  tx : Text → TxHash
  paid_on_chain : TxHash

pub record MeltQuote : Type 0 where
  pub id : Text
  pub amount : ℕ
  pub fee : ℕ
  pub unit : Text
  pub to_address : Text
  pub state : MeltState
  pub inputs_hash : Option Text
  pub tx_hash : Option TxHash
  pub expires_at : ℕ

pub record BlindSignature : Type 0 where
  pub b : Text
  pub keyset_id : Text
  pub amount : ℕ
  pub c : Text
  pub dleq_e : Text
  pub dleq_s : Text
  pub quote_id : Option Text

pub record Db : Type 0 where
  pub mint_quotes : List MintQuote
  pub spent_secrets : List SpentSecret
  pub melt_quotes : List MeltQuote
  pub blind_signatures : List BlindSignature

abbrev pub empty_db : Db
empty_db = record { mint_quotes = []; spent_secrets = []; melt_quotes = []; blind_signatures = [] }

-- Statements inside a transaction: a failure leaves no state behind.
abbrev pub Tx : Type 0 → Type 0
Tx A = Db → Result Failure (A × Db)

-- A handler: what it wrote before it threw stays written.
abbrev pub Action : Type 0 → Type 0
Action A = Db → Result Failure A × Db

-- `db.tx(fn)`: COMMIT when `fn` returns, ROLLBACK and throw again when it throws.
module _ {A : Type 0} where
  unfoldable pub transact : Tx A → Action A
  transact m db = elim (m db) [ ok (a, db') ↦ (ok a, db') | err e ↦ (err e, db) ]

  abbrev pub or_throw : Failure → Option A → Result Failure A
  or_throw e none = err e
  or_throw e (some a) = ok a

  abbrev pub pure : A → Action A
  pure a db = (ok a, db)

  abbrev pub lift : Result Failure A → Action A
  lift r db = (r, db)

infixl 5 ◌>>=◌ ◌>>◌
abbrev pub ◌>>=◌ : {A B : Type 0} → Action A → (A → Action B) → Action B
◌>>=◌ m f db = let (r, db') = m db in elim r [ ok a ↦ f a db' | err e ↦ (err e, db') ]

abbrev pub ◌>>◌ : {A B : Type 0} → Action A → Action B → Action B
m >> k = m >>= λ _. k
