-- ===== src/Crypto/P2pk/Secret.antt =====
-- p2pk.ts: secrets and witnesses as text. `SecretText` stands for the JSON and hexadecimal forms, for
-- the patterns, and for the Schnorr signatures of @noble/curves.
pub mod RoundTrip
pub mod Opening
use picocash.Prelude.{
  ℕ, ◌+◌, Text, Bool, true, false, Option, none, some, List, [], ◌∷◌, ◌++◌, length, ◌==◌, ◌&&◌,
  ◌||◌, not, leb, ltb, if◌then◌else◌,
}
use picocash.Result.{Result, ok, err, ensure, ◌>>=◌, ◌>>◌}
use picocash.Acceptor.{all_of, get_or}
use picocash.Sdk.Blinding.{max_safe_integer}
use picocash.Crypto.P2pk.{
  TagName, P2pkConditions, P2pkError, P2pkPath, malformed_secret, malformed_witness, bad_lock_key,
  bad_locktime, bad_refund, bad_pubkeys, bad_n_sigs, all_pubkeys, parse_conditions,
  verify_p2pk_spend,
}

-- What a secret's text says: the lock key and the tags of a P2PK secret.
pub data SecretShape : Type 0 where
  not_p2pk malformed : SecretShape
  p2pk : Text → Text → List (TagName × List Text) → SecretShape

pub record SecretText : Type 0 where
  pub is_pubkey : Text → Bool
  pub is_sig_inputs : Text → Bool
  pub to_number : Text → Option ℕ
  pub of_number : ℕ → Text
  pub write_secret : Text → Text → List (TagName × List Text) → Text
  pub read_secret : Text → SecretShape
  pub is_sig : Text → Bool
  pub write_witness : List Text → Text
  pub read_witness : Text → Option (List Text)
  pub sign : Text → Text → Text
  pub public_key : Text → Text
  pub verify_sig : Text → Text → Text → Bool

pub record LockOptions : Type 0 where
  pub nonce : Option Text
  pub locktime : Option ℕ
  pub refund : List Text
  pub pubkeys : List Text
  pub n_sigs : Option ℕ

abbrev pub Tags : Type 0
Tags = List (TagName × List Text)

module _ (c : SecretText) where
  -- The tag of the locktime, where there is one.
  unfoldable pub locktime_tag : Option ℕ → Result P2pkError Tags
  locktime_tag none = ok []
  locktime_tag (some t) = do
    ensure (not (t == 0) && leb t max_safe_integer) bad_locktime
    ok ((TagName.locktime, c.of_number t ∷ []) ∷ [])

  unfoldable pub keys_tag : TagName → P2pkError → List Text → Result P2pkError Tags
  keys_tag name thrown [] = ok []
  keys_tag name thrown (k ∷ ks) = do
    ensure (all_pubkeys c.is_pubkey c.is_sig_inputs c.to_number (k ∷ ks)) thrown
    ok ((name, k ∷ ks) ∷ [])

  unfoldable pub sigs_tag : Option ℕ → ℕ → Result P2pkError Tags
  sigs_tag none others = ok []
  sigs_tag (some n) others = if n == 1 then ok [] else do
    ensure (not (n == 0) && (leb n max_safe_integer && leb n (1 + others))) bad_n_sigs
    ok ((TagName.n_sigs, c.of_number n ∷ []) ∷ [])

  -- `p2pkSecretHex`, with the nonce drawn.
  unfoldable pub p2pk_secret_hex : Text → Text → LockOptions → Result P2pkError Text
  p2pk_secret_hex drawn lock_pubkey options = do
    ensure (c.is_pubkey lock_pubkey) bad_lock_key
    locktime ← locktime_tag options.locktime
    refund ← keys_tag TagName.refund bad_refund options.refund
    pubkeys ← keys_tag TagName.pubkeys bad_pubkeys options.pubkeys
    n_sigs ← sigs_tag options.n_sigs (length options.pubkeys)
    let nonce = get_or options.nonce drawn
    ok (c.write_secret nonce lock_pubkey (locktime ++ (refund ++ (pubkeys ++ n_sigs))))

  -- `parseP2pkSecret`
  unfoldable pub parse_p2pk_secret : Text → Result P2pkError (Option P2pkConditions)
  parse_p2pk_secret secret = elim (c.read_secret secret) [
    | not_p2pk ↦ ok none
    | malformed ↦ err malformed_secret
    | p2pk nonce key tags ↦ do
      conditions ← parse_conditions c.is_pubkey c.is_sig_inputs c.to_number key tags
      ok (some conditions)
  ]

  -- `parseP2pkWitness`
  unfoldable pub parse_p2pk_witness : Option Text → Result P2pkError (List Text)
  parse_p2pk_witness none = ok []
  parse_p2pk_witness (some witness) = elim (c.read_witness witness) [
    | none ↦ err malformed_witness
    | some sigs ↦ if all_of c.is_sig sigs then ok sigs else err malformed_witness
  ]

  -- `verifyP2pkSpend`; `false` is a refusal, whatever its reason.
  unfoldable pub verify_spend : Text → Option Text → ℕ → Bool
  verify_spend secret witness now = elim (parse_p2pk_secret secret) [
    | err e ↦ false
    | ok none ↦ true
    | ok (some conditions) ↦ elim (parse_p2pk_witness witness) [
      | err e ↦ false
      | ok sigs ↦ elim (verify_p2pk_spend (c.verify_sig secret) conditions sigs now) [
        | none ↦ false
        | some path ↦ true
      ]
    ]
  ]
