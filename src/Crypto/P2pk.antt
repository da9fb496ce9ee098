-- ===== src/Crypto/P2pk.antt =====
-- p2pk.ts: the conditions that the tags of a secret state, and the verdict on a spend. A secret's
-- JSON comes in as its lock key and its tags, and a witness as its signatures.
pub mod Safety
pub mod Secret
pub mod Toy
mod Tests
use picocash.Prelude.{
  ℕ, suc, ◌+◌, Text, Bool, true, false, not, Option, none, some, List, [], ◌∷◌, length, contains,
  ◌==◌, ◌&&◌, ◌||◌, ltb, leb, if◌then◌else◌,
}
use picocash.Result.{Result, ok, err, ensure, ◌>>=◌, ◌>>◌}

pub data TagName : Type 0 where
  locktime refund pubkeys n_sigs sigflag unknown : TagName

pub record P2pkConditions : Type 0 where
  pub lock_key : Text
  pub locktime : Option ℕ
  pub refund : List Text
  pub pubkeys : List Text
  pub n_sigs : ℕ

pub data P2pkError : Type 0 where
  bad_lock_key bad_locktime bad_refund bad_pubkeys bad_n_sigs bad_sigflag too_many_sigs : P2pkError
  malformed_secret malformed_witness : P2pkError

pub data P2pkPath : Type 0 where
  by_lock by_refund by_expiry : P2pkPath

-- `is_pubkey` is the test `PUBKEY`, `is_sig_inputs` the comparison with 'SIG_INPUTS', and
-- `to_number` is `Number` where that is a safe integer that is not negative.
module _ (is_pubkey is_sig_inputs : Text → Bool) (to_number : Text → Option ℕ) where
  unfoldable pub all_pubkeys : List Text → Bool
  all_pubkeys [] = true
  all_pubkeys (k ∷ ks) = is_pubkey k && all_pubkeys ks

  -- `!values.length || !values.every((k) => PUBKEY.test(k))`
  are_keys : List Text → Bool
  unfolding all_pubkeys
  are_keys [] = false
  are_keys (k ∷ ks) = all_pubkeys (k ∷ ks)

  -- A positive number in the first value.
  first_number : List Text → Option ℕ
  first_number [] = none
  first_number (v ∷ vs) = elim (to_number v) [
    | none ↦ none
    | some n ↦ if n == 0 then none else some n
  ]

  first_is_sig_inputs : List Text → Bool
  first_is_sig_inputs [] = false
  first_is_sig_inputs (v ∷ vs) = is_sig_inputs v

  apply_tag : TagName → List Text → P2pkConditions → Result P2pkError P2pkConditions
  unfolding first_number are_keys first_is_sig_inputs
  apply_tag TagName.locktime values c = elim (first_number values) [
    | none ↦ err bad_locktime
    | some t ↦ ok (record c { locktime = some t })
  ]
  apply_tag TagName.refund values c =
      if are_keys values then ok (record c { refund = values }) else err bad_refund
  apply_tag TagName.pubkeys values c =
      if are_keys values then ok (record c { pubkeys = values }) else err bad_pubkeys
  apply_tag TagName.n_sigs values c = elim (first_number values) [
    | none ↦ err bad_n_sigs
    | some n ↦ ok (record c { n_sigs = n })
  ]
  apply_tag TagName.sigflag values c = if first_is_sig_inputs values then ok c else err bad_sigflag
  apply_tag TagName.unknown values c = ok c

  apply_tags : List (TagName × List Text) → P2pkConditions → Result P2pkError P2pkConditions
  unfolding apply_tag
  apply_tags [] c = ok c
  apply_tags ((name, values) ∷ tags) c = apply_tag name values c >>= λ d. apply_tags tags d

  unfoldable pub parse_conditions :
      Text → List (TagName × List Text) → Result P2pkError P2pkConditions
  unfolding apply_tags
  parse_conditions key tags = do
    ensure (is_pubkey key) bad_lock_key
    c ←
        apply_tags tags
          (record { lock_key = key; locktime = none; refund = []; pubkeys = []; n_sigs = 1 })
    ensure (leb c.n_sigs (1 + length c.pubkeys)) too_many_sigs
    ok c

-- `verify_sig` tells whether a signature is valid for the secret under a key.
module _ (verify_sig : Text → Text → Bool) where
  -- `sigs.some((s) => verifySig(s, msg, k))`
  unfoldable pub has_signed : List Text → Text → Bool
  has_signed [] k = false
  has_signed (s ∷ ss) k = verify_sig s k || has_signed ss k

  any_signed : List Text → List Text → Bool
  any_signed sigs [] = false
  any_signed sigs (k ∷ ks) = has_signed sigs k || any_signed sigs ks

  -- `new Set(lockKeys.filter(…))`, behind those in `seen`
  signers : List Text → List Text → List Text → List Text
  signers sigs seen [] = []
  signers sigs seen (k ∷ ks) =
      if has_signed sigs k && not (contains k seen)
      then k ∷ signers sigs (k ∷ seen) ks
      else signers sigs seen ks

  abbrev pub is_expired : P2pkConditions → ℕ → Bool
  is_expired c now = elim c.locktime [ none ↦ false | some t ↦ leb t now ]

  refund_verdict : List Text → List Text → Option P2pkPath
  unfolding any_signed
  refund_verdict sigs [] = some by_expiry
  refund_verdict sigs (k ∷ ks) = if any_signed sigs (k ∷ ks) then some by_refund else none

  -- `verifyP2pkSpend` on parsed conditions; `none` is a refusal.
  unfoldable pub verify_p2pk_spend : P2pkConditions → List Text → ℕ → Option P2pkPath
  unfolding signers refund_verdict
  verify_p2pk_spend c sigs now =
      if is_expired c now
      then refund_verdict sigs c.refund
      else if leb c.n_sigs (length (signers sigs [] (c.lock_key ∷ c.pubkeys)))
      then some by_lock
      else none
