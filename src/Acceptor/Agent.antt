-- ===== src/Acceptor/Agent.antt =====
-- packages/mppx-method/src/agent.ts: the agent answers a challenge. A proof's place among those held
-- stands for the reference that the code compares; `lock_key` is the key of `lockOf`, none where it throws.
-- Every challenge of the model has the method `picocash`, so the test of the method has no counterpart.
pub mod Greedy
pub mod Fine
pub mod Accepted
mod Tests
use picocash.Prelude.{
  ℕ, zero, suc, ◌+◌, ◌-◌, Text, Bool, true, false, not, Option, none, some, List, [], ◌∷◌, map,
  length, contains, sort_desc, ◌==◌, ◌&&◌, ◌||◌, ltb, leb, if◌then◌else◌,
}
use picocash.Result.{Result, ok, err, ◌>>=◌, ◌>>◌}
use picocash.Crypto.Curve.{Bytes, Curve}
use picocash.Crypto.P2pk.Secret.{SecretText}
use picocash.Sdk.Blinding.{decompose}
use picocash.Sdk.Store.{Proof}
use picocash.Sdk.Outputs.{Hex}
use picocash.Sdk.Secrets.{BindText, pc_bind_secret_hex}
use picocash.Sdk.Locks.{lock_of}
use picocash.Sdk.Token.{TokenText}
use picocash.Sdk.Wallet.{MintApi, Wallet, WalletError, or_throw_as, bad_amount, get_keyset}
use picocash.Sdk.Wallet.Payments.{send_with}
use picocash.Reserves.Collisions.{filter, any_of}
use picocash.Acceptor.{KeysetInfo, PicocashChallenge, PicocashCredential, empty_text}

abbrev pub Indexed : Type 0
Indexed = ℕ × Proof

abbrev pub weight : Indexed → ℕ
weight (i, p) = p.amount

-- The loop of `pickExact`: what it picked, and what is left of the amount.
unfoldable pub greedy : ℕ → List Indexed → List Indexed × ℕ
greedy left [] = ([], left)
greedy left (p ∷ ps) =
    let fits = leb (weight p) left in
    let next = if fits then left - weight p else left in
    let (others, rest) = greedy next ps in
    if next == 0
    then (if fits then p ∷ [] else [], 0)
    else (if fits then p ∷ others else others, rest)

unfoldable pub pick_exact : List Indexed → ℕ → Option (List Indexed)
pick_exact proofs amount =
    let (picked, left) = greedy amount (sort_desc weight proofs) in
    if left == 0 then some picked else none

-- The proofs with their places.
unfoldable pub index_from : ℕ → List Proof → List Indexed
index_from i [] = []
index_from i (p ∷ ps) = (i, p) ∷ index_from (suc i) ps

abbrev pub proof_at : Indexed → Proof
proof_at (i, p) = p

abbrev pub place_of : Indexed → ℕ
place_of (i, p) = i

pub data PayError (E : Type 0) : Type 0 where
  challenge_expired unit_mismatch mint_not_allowed no_exact_subset : PayError E
  wallet : WalletError E → PayError E

pub record Payment : Type 0 where
  pub credential : PicocashCredential
  pub change : List Proof

-- `lockOf(p)?.data === pubkey`, where an exception counts as false.
unfoldable pub is_locked_to : SecretText → Text → Indexed → Bool
is_locked_to locks pubkey (i, p) = elim (lock_of locks p) [
  | err e ↦ false
  | ok none ↦ false
  | ok (some conditions) ↦ conditions.lock_key == pubkey
]

-- The proofs that are locked to the service, where the challenge has its key.
unfoldable pub locked_to : SecretText → Option Text → List Proof → List Indexed
locked_to locks none proofs = []
locked_to locks (some pubkey) proofs =
    if pubkey == empty_text then [] else filter (is_locked_to locks pubkey) (index_from 0 proofs)

abbrev pub credential_of : PicocashChallenge → Text → Text → List Proof → PicocashCredential
credential_of challenge mint_url keyset_id proofs = record {
  challenge_id = challenge.challenge_id;
  mint = mint_url;
  keyset_id = keyset_id;
  proofs = proofs;
}

-- The locked proofs, as they are.
unfoldable pub pay_locked :
    {E : Type 0}
    → PicocashChallenge
    → Text
    → Text
    → List Proof
    → List Indexed
    → Result (PayError E) Payment
pay_locked challenge mint_url keyset_id proofs locked = elim (pick_exact locked challenge.amount) [
  | none ↦ err no_exact_subset
  | some picked ↦ ok (record {
    credential = credential_of challenge mint_url keyset_id (map proof_at picked);
    change =
        map proof_at
          (filter (λ q. not (contains (place_of q) (map place_of picked))) (index_from 0 proofs));
  })
]

abbrev pub or_wallet : {E A : Type 0} → Result (WalletError E) A → Result (PayError E) A
or_wallet (ok a) = ok a
or_wallet (err e) = err (wallet e)

-- `decompose(amount).map(() => pcBindSecretHex(nonce, realm))`, with a salt drawn for each.
unfoldable pub bind_secrets : BindText → (ℕ → Text) → PicocashChallenge → ℕ → List ℕ → List Text
bind_secrets binds salt challenge i [] = []
bind_secrets binds salt challenge i (amount ∷ amounts) =
    pc_bind_secret_hex binds challenge.nonce challenge.realm (salt i)
    ∷ bind_secrets binds salt challenge (suc i) amounts

module _ {E P : Type 0} (mint : MintApi E) (curve : Curve P) (hex : Hex) where
  -- Proofs swapped into ones that are bound to the challenge.
  unfoldable pub pay_bound :
      (ℕ → Text × Bytes)
      → TokenText
      → BindText
      → (ℕ → Text)
      → PicocashChallenge
      → Text
      → KeysetInfo
      → List Proof
      → Result (PayError E) Payment
  pay_bound draw text binds salt challenge mint_url keyset proofs = do
    amounts ← or_wallet (or_throw_as bad_amount (decompose challenge.amount))
    let secrets = bind_secrets binds salt challenge 0 amounts
    sent ← or_wallet (
        send_with mint curve hex draw text mint_url keyset proofs challenge.amount (some secrets)
          none)
    ok (record {
      credential = credential_of challenge mint_url sent.bundle.keyset_id sent.bundle.proofs;
      change = sent.change;
    })

  abbrev pub allows : PicocashChallenge → Text → KeysetInfo → Bool
  allows challenge mint_url keyset =
      any_of (λ (m : Text × Text). m.0 == mint_url && m.1 == keyset.id) challenge.mints

  -- `payChallenge`, behind its call of `getKeyset`.
  unfoldable pub pay_with :
      (ℕ → Text × Bytes)
      → TokenText
      → BindText
      → (ℕ → Text)
      → SecretText
      → PicocashChallenge
      → Text
      → List Proof
      → KeysetInfo
      → Result (PayError E) Payment
  pay_with draw text binds salt locks challenge mint_url proofs keyset =
      if not (keyset.unit == challenge.unit)
      then err unit_mismatch
      else if not (allows challenge mint_url keyset)
      then err mint_not_allowed
      else elim (locked_to locks challenge.pubkey proofs) [
        | [] ↦ pay_bound draw text binds salt challenge mint_url keyset proofs
        | p ∷ ps ↦ pay_locked challenge mint_url keyset.id proofs (p ∷ ps)
      ]

  unfoldable pub pay_challenge :
      (ℕ → Text × Bytes)
      → TokenText
      → BindText
      → (ℕ → Text)
      → SecretText
      → List Proof
      → PicocashChallenge
      → ℕ
      → Wallet
      → Result (PayError E) Payment × Wallet
  pay_challenge draw text binds salt locks proofs challenge now w =
      if ltb challenge.expiry now
      then (err challenge_expired, w)
      else (let (found, w') = get_keyset mint false w in
          (or_wallet found >>= pay_with draw text binds salt locks challenge w.mint_url proofs, w'))
