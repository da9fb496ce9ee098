-- ===== src/Mcp/Service.antt =====
-- wallet-service.ts: the methods of `WalletService`. A method reads the store at its start, a
-- reservation's id and the clock are arguments, and a token comes as its text, not as a link.
use picocash.Prelude.{
  ℕ, zero, suc, ◌&&◌, ◌+◌, Text, Bool, true, false, not, Option, none, some, List, [], ◌∷◌, map,
  length, ◌==◌, ◌||◌, ltb, leb, if◌then◌else◌,
}
use picocash.Prelude.Int.{ℤ, pos, negsuc}
use picocash.Result.{Result, ok, err, ensure, ◌>>=◌, ◌>>◌}
use picocash.Crypto.Curve.{Bytes, Curve}
use picocash.Crypto.P2pk.{P2pkConditions, P2pkError}
use picocash.Sdk.Blinding.{max_safe_integer}
use picocash.Sdk.Store.{
  Proof, HistoryKind, HistoryEntry, WalletSnapshot, StoreError, balance_of, flat, add,
}
use picocash.Sdk.Store.Memory.{SpendError, from_spend, from_store, EntryDraft, with_spend}
use picocash.Sdk.Outputs.{Hex}
use picocash.Sdk.Locks.{lock_of}
use picocash.Sdk.Token.{TokenBundle, TokenText, TokenFormatError, parse_token}
use picocash.Sdk.Wallet.{
  MintApi, MeltQuote, ProofState, Sent, Wallet, WalletError, get_keyset, melt_proofs,
}
use picocash.Sdk.Wallet.Payments.{send, send_locked, receive}
use picocash.Acceptor.{Proofs, all_of, empty_text, get_or, verify_proof_offline}
use picocash.Mcp.{Signer, is_ours, sign_all, spendable_of}

pub record BalanceReport : Type 0 where
  pub unit : Text
  pub spendable : ℕ
  pub reserved : ℕ
  pub locked_to_merchants : ℕ
  pub proof_count : ℕ

pub data ServiceError (E : Type 0) : Type 0 where
  not_positive unlocked_refused insufficient bad_npub unit_mismatch unverified seen_spent :
      ServiceError E
  lock : P2pkError → ServiceError E
  format : TokenFormatError → ServiceError E
  wallet : WalletError E → ServiceError E
  mint : E → ServiceError E
  store : StoreError → ServiceError E

pub record SendOptions : Type 0 where
  pub to_npub : Option Text
  pub locktime : Option ℕ
  pub refund_to_self : Bool
  pub memo : Option Text
  pub unlocked : Bool

abbrev pub or_as : {D E A : Type 0} → (D → ServiceError E) → Result D A → Result (ServiceError E) A
or_as wrap (ok a) = ok a
or_as wrap (err e) = err (wrap e)

abbrev pub or_spend :
    {E A : Type 0} → Result (SpendError (ServiceError E)) A → Result (ServiceError E) A
or_spend (ok a) = ok a
or_spend (err (from_spend e)) = err e
or_spend (err (from_store e)) = err (store e)

-- `-amount`
abbrev pub minus : ℕ → ℤ
minus zero = pos zero
minus (suc n) = negsuc n

-- An empty text is as none.
abbrev pub is_there : Option Text → Bool
is_there none = false
is_there (some t) = not (t == empty_text)

-- The last so many, the newest first: `slice(-limit).reverse()`.
abbrev pub reversed : {A : Type 0} → List A → List A → List A
reversed [] behind = behind
reversed (x ∷ xs) behind = reversed xs (x ∷ behind)

abbrev pub first_of : {A : Type 0} → ℕ → List A → List A
first_of zero xs = []
first_of (suc n) [] = []
first_of (suc n) (x ∷ xs) = x ∷ first_of n xs

unfoldable pub history : ℕ → WalletSnapshot → List HistoryEntry
history limit s = first_of limit (reversed s.history [])

module _ (signer : Signer) where
  unfoldable pub balance :
      {E : Type 0}
      → MintApi E
      → WalletSnapshot
      → Wallet
      → Result (ServiceError E) BalanceReport × Wallet
  balance api s w =
      let (found, w') = get_keyset api false w in
      (
        (do
          keyset ← or_as wallet found
          parts ← or_as lock (spendable_of signer s.proofs)
          ok (record {
            unit = keyset.unit;
            spendable = balance_of parts.0;
            reserved = balance_of (flat s.reserved);
            locked_to_merchants = balance_of parts.1;
            proof_count = length s.proofs;
          })),
        w',
      )

  -- What stands before a spend: the spendable proofs, where they are worth enough.
  unfoldable pub spendable_for :
      {E : Type 0} → ℕ → WalletSnapshot → Result (ServiceError E) (List Proof)
  spendable_for needed s = do
    parts ← or_as lock (spendable_of signer s.proofs)
    ensure (not (ltb (balance_of parts.0) needed)) insufficient
    ok parts.0

  abbrev pub is_amount : ℕ → Bool
  is_amount amount = ltb 0 amount && leb amount max_safe_integer

  module _ {E P : Type 0} (api : MintApi E) (curve : Curve P) (hex : Hex) (y_of : Text → Text)
      (draw : ℕ → Text × Bytes) (text : TokenText) (nonce : ℕ → Text)
      (lock_key_of : Text → Option Text) where
    -- The lock key of the recipient, where there is one.
    abbrev pub recipient : Option Text → Result (ServiceError E) (Option Text)
    recipient none = ok none
    recipient (some npub) =
        let named : Result (ServiceError E) (Option Text) = elim (lock_key_of npub) [
          | none ↦ err bad_npub
          | some key ↦ ok (some key)
        ] in
        if npub == empty_text then ok none else named

    -- What `send` spends: the signed proofs, sent to the recipient's key or to nobody's.
    unfoldable pub pay_out :
        Option Text → SendOptions → ℕ → Wallet → List Proof → Result (ServiceError E) Sent
    pay_out key options amount w reserved = do
      inputs ← or_as lock (sign_all signer reserved)
      or_as wallet (elim key [
        | none ↦ (send api curve hex draw text inputs amount none options.memo w).0
        | some lock_key ↦
            (send_locked api curve hex draw text signer.locks nonce inputs amount lock_key
              options.locktime (if options.refund_to_self then signer.lock_key ∷ [] else [])
              options.memo w).0
      ])

    -- `withSpend` around a payment, with what it made.
    unfoldable pub spend_with :
        {A : Type 0}
        → Text
        → ℕ
        → WalletSnapshot
        → List Proof
        → EntryDraft
        → (List Proof → Result (ServiceError E) (A × List Proof))
        → Result (ServiceError E) A × WalletSnapshot
    spend_with id at s proofs draft pay =
        let (outcome, s') =
          with_spend y_of id at s proofs draft (λ reserved. pay reserved >>= λ made. ok made.1) in
        ((do or_spend outcome; made ← pay proofs; ok made.0), s')

    -- The checks of `send`: what it may spend, and the recipient's key.
    unfoldable pub prepare_send :
        ℕ → SendOptions → WalletSnapshot → Result (ServiceError E) (List Proof × Option Text)
    prepare_send amount options s = do
      ensure (is_amount amount) not_positive
      ensure (is_there options.to_npub || options.unlocked) unlocked_refused
      spendable ← spendable_for amount s
      key ← recipient options.to_npub
      ok (spendable, key)

    unfoldable pub send_token :
        ℕ
        → SendOptions
        → Text
        → ℕ
        → WalletSnapshot
        → Wallet
        → Result (ServiceError E) Text × WalletSnapshot
    send_token amount options id at s w = elim (prepare_send amount options s) [
      | err e ↦ (err e, s)
      | ok (spendable, key) ↦
          spend_with id at s spendable
            (record { kind = HistoryKind.send; delta = minus amount; ref = options.to_npub })
            (λ reserved.
              pay_out key options amount w reserved >>= λ sent. ok (sent.token, sent.change))
    ]

    -- The bundle of the amount and the fee, melted, and the change.
    unfoldable pub melt_out :
        ℕ → Text → Wallet → List Proof → Result (ServiceError E) (MeltQuote × List Proof)
    melt_out needed to w reserved = do
      inputs ← or_as lock (sign_all signer reserved)
      let (paid, w') = send api curve hex draw text inputs needed none none w
      sent ← or_as wallet paid
      quote ← or_as wallet ((melt_proofs api to sent.bundle.proofs w').0)
      ok (quote, sent.change)

    -- The checks of `melt`: the amount with the fee, and what it may spend.
    unfoldable pub prepare_melt : ℕ → WalletSnapshot → Result (ServiceError E) (ℕ × List Proof)
    prepare_melt amount s = do
      ensure (is_amount amount) not_positive
      given ← or_as ServiceError.mint api.melt_fee
      let needed = amount + get_or given 0
      spendable ← spendable_for needed s
      ok (needed, spendable)

    unfoldable pub melt :
        ℕ
        → Text
        → Text
        → ℕ
        → WalletSnapshot
        → Wallet
        → Result (ServiceError E) MeltQuote × WalletSnapshot
    melt amount to id at s w = elim (prepare_melt amount s) [
      | err e ↦ (err e, s)
      | ok (needed, spendable) ↦
          spend_with id at s spendable
            (record { kind = HistoryKind.melt; delta = minus needed; ref = some to })
            (melt_out needed to w)
    ]

    abbrev pub first_lock : List Proof → Result P2pkError (Option P2pkConditions)
    first_lock [] = ok none
    first_lock (p ∷ ps) = lock_of signer.locks p

    abbrev pub is_unspent : ProofState → Bool
    is_unspent ProofState.unspent = true
    is_unspent _ = false

    -- A token that is locked to somebody else is verified and held as it is.
    unfoldable pub hold : Proofs → TokenBundle → Wallet → Result (ServiceError E) (List Proof)
    hold checks bundle w = do
      keyset ← or_as wallet ((get_keyset api false w).0)
      ensure (bundle.unit == keyset.unit) unit_mismatch
      ensure (all_of (verify_proof_offline checks keyset) bundle.proofs) unverified
      states ←
          or_as ServiceError.mint
            (api.checkstate (map (λ (p : Proof). y_of p.secret) bundle.proofs))
      ensure (all_of is_unspent states) seen_spent
      ok bundle.proofs

    unfoldable pub claim : Proofs → TokenBundle → ℕ → Wallet → Result (ServiceError E) (List Proof)
    claim checks bundle now w = do
      signed ← or_as lock (sign_all signer bundle.proofs)
      or_as wallet (
          (receive api curve hex draw checks signer.locks (record bundle { proofs = signed }) none
            now w).0)

    -- What is stored of a token, and the key it is locked to, if it is held locked.
    unfoldable pub take_token :
        Proofs → Text → ℕ → Wallet → Result (ServiceError E) (List Proof × Option Text)
    take_token checks token now w = do
      parsed ← or_as format (parse_token text token)
      let (bundle, memo) = parsed
      first ← or_as lock (first_lock bundle.proofs)
      elim first [
        | none ↦ claim checks bundle now w >>= λ ps. ok (ps, none)
        | some conditions ↦
            if is_ours signer conditions
            then (claim checks bundle now w >>= λ ps. ok (ps, none))
            else (hold checks bundle w >>= λ ps. ok (ps, some conditions.lock_key))
      ]

    unfoldable pub receive_text :
        Proofs
        → Text
        → ℕ
        → Option Text
        → WalletSnapshot
        → Wallet
        → Result (ServiceError E) (ℕ × Option Text) × WalletSnapshot
    receive_text checks token now ref s w = elim (take_token checks token now w) [
      | err e ↦ (err e, s)
      | ok (proofs, locked) ↦ (
        ok (balance_of proofs, locked),
        add y_of s proofs (
            some (record {
              at = now;
              kind = HistoryKind.receive;
              delta = pos (balance_of proofs);
              ref = ref;
            })),
      )
    ]
