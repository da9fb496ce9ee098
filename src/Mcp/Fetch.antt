-- ===== src/Mcp/Fetch.antt =====
-- wallet-service.ts, `fetchPaid`. What the mppx library does with the request is a script: it calls back
-- for each challenge that it meets, and ends with a response or an exception.
pub mod Presented
use picocash.Prelude.{
  ℕ, zero, suc, ◌+◌, ◌-◌, Text, Bool, true, false, not, Option, none, some, List, [], ◌∷◌, ◌++◌,
  ◌==◌, ◌&&◌, if◌then◌else◌,
}
use picocash.Prelude.Int.{ℤ, sub_ℕ}
use picocash.Result.{Result, ok, err, ◌>>=◌}
use picocash.Crypto.Curve.{Bytes, Curve}
use picocash.Crypto.P2pk.{P2pkError}
use picocash.Sdk.Store.{
  Proof, HistoryKind, HistoryEntry, WalletSnapshot, StoreError, balance_of, reserve, commit,
  release,
}
use picocash.Sdk.Store.Memory.{persist}
use picocash.Sdk.Outputs.{Hex}
use picocash.Sdk.Secrets.{BindText}
use picocash.Sdk.Token.{TokenText}
use picocash.Sdk.Wallet.{MintApi, Wallet}
use picocash.Acceptor.{PicocashChallenge, empty_text}
use picocash.Acceptor.Agent.{PayError, Payment, index_from, pay_challenge}
use picocash.Mcp.{Signer, sign_all, spendable_of, locked_to_merchant}
use picocash.Mcp.Picker.{pick_exact_subset}

pub data Script (E R : Type 0) : Type 0 where
  responds : R → Script E R
  throws : E → Script E R
  challenged : PicocashChallenge → Script E R → Script E R

pub data FetchError (E : Type 0) : Type 0 where
  bad_lock : P2pkError → FetchError E
  unpaid : PayError E → FetchError E
  thrown : E → FetchError E
  bad_store : StoreError → FetchError E

pub record PaidFetchResult (R : Type 0) : Type 0 where
  pub response : R
  pub paid : ℤ

abbrev pub is_some {ℓ} : {A : Type ℓ} → Option A → Bool
is_some none = false
is_some (some a) = true

abbrev pub is_empty {ℓ} : {A : Type ℓ} → List A → Bool
is_empty [] = true
is_empty (x ∷ xs) = false

abbrev pub entry_of : ℕ → ℤ → HistoryEntry
entry_of now delta = record { at = now; kind = HistoryKind.pay; delta = delta; ref = none }

-- An exception is passed on behind what the store says.
abbrev pub or_store :
    {E A : Type 0}
    → WalletSnapshot
    → Result StoreError WalletSnapshot
    → Result (FetchError E) A
    → Result (FetchError E) A × WalletSnapshot
or_store s (ok next) answer = (answer, next)
or_store s (err e) answer = (err (bad_store e), s)

module _ (signer : Signer) where
  -- The proofs locked to the challenge's merchant, and the others.
  unfoldable pub locked_for : Option Text → List Proof → Result P2pkError (List Proof × List Proof)
  locked_for none held = ok ([], held)
  locked_for (some merchant) held =
      if merchant == empty_text then ok ([], held) else locked_to_merchant signer held merchant

  -- `onChallenge`: what is presented, and what stays.
  unfoldable pub present :
      PicocashChallenge → List Proof → Result P2pkError (List Proof × List Proof)
  present challenge held = do
    parts ← spendable_of signer held
    locked ← locked_for challenge.pubkey held
    ok (
        if not (is_empty locked.0)
          && is_some (pick_exact_subset (index_from 0 locked.0) challenge.amount)
        then locked
        else parts)

  module _ {E R P : Type 0} (api : MintApi E) (curve : Curve P) (hex : Hex) (y_of : Text → Text)
      (draw : ℕ → Text × Bytes) (text : TokenText) (binds : BindText) (salt : ℕ → Text)
      (now : ℕ) where
    -- The library's call, with what is held in the end.
    unfoldable pub run_script :
        Script E R → Wallet → List Proof → Result (FetchError E) R × List Proof
    run_script (responds r) w held = (ok r, held)
    run_script (throws e) w held = (err (thrown e), held)
    run_script (challenged challenge next) w held = elim (present challenge held) [
      | err e ↦ (err (bad_lock e), held)
      | ok (presented, others) ↦
          let (paid, w') =
            pay_challenge api curve hex draw text binds salt signer.locks presented challenge now
              w in
          elim paid [
            | err e ↦ (err (unpaid e), held)
            | ok payment ↦ run_script next w' (others ++ payment.change)
          ]
    ]

    -- The end of the call, with the reservation committed or released.
    unfoldable pub settle_fetch :
        Text
        → ℕ
        → WalletSnapshot
        → Result (FetchError E) R × List Proof
        → Result (FetchError E) (PaidFetchResult R) × WalletSnapshot
    settle_fetch id before s (ok r, held) =
        or_store s (commit y_of s id held (entry_of now (sub_ℕ (balance_of held) before)))
          (ok (record { response = r; paid = sub_ℕ before (balance_of held) }))
    settle_fetch id before s (err e, held) =
        if balance_of held == before
        then or_store s (release y_of s id) (err e)
        else or_store s (commit y_of s id held (entry_of now (sub_ℕ (balance_of held) before)))
            (err e)

    unfoldable pub fetch_reserved :
        Script E R
        → Text
        → Wallet
        → List Proof
        → WalletSnapshot
        → Result (FetchError E) (PaidFetchResult R) × WalletSnapshot
    fetch_reserved script id w proofs s = elim (reserve y_of s proofs id) [
      | err e ↦ (err (bad_store e), s)
      | ok s' ↦ elim (sign_all signer proofs) [
        | err e ↦ (err (bad_lock e), s')
        | ok held ↦ settle_fetch id (balance_of proofs) s' (run_script script w held)
      ]
    ]

    unfoldable pub fetch_paid :
        Script E R
        → Text
        → Wallet
        → WalletSnapshot
        → Result (FetchError E) (PaidFetchResult R) × WalletSnapshot
    fetch_paid script id w s = elim (spendable_of signer s.proofs) [
      | err e ↦ (err (bad_lock e), s)
      | ok (spendable, locked) ↦ fetch_reserved script id w (spendable ++ locked) s
    ]
