-- ===== src/Crypto/P2pk/Tests.antt =====
-- Runs of p2pk.ts on concrete inputs.
use picocash.Prelude.{
  ℕ, ◌+◌, ◌≤◌, Text, ◌≡◌, refl, Bool, true, false, Option, none, some, List, [], ◌∷◌, ◌==◌, leb,
  ◌⊎◌,
}
use picocash.Result.{ok, err}
use picocash.Crypto.P2pk.{
  TagName, P2pkConditions, by_lock, by_refund, too_many_sigs, parse_conditions, has_signed,
  is_expired, verify_p2pk_spend,
}
use picocash.Crypto.P2pk.Safety.{SignedByOne, parse_conditions-bounds, verify_p2pk_spend-signed}

-- Keys are the numbers from 100 on, and a key signs with its number and a thousand.
abbrev is_key : Text → Bool
is_key k = leb 100 k

abbrev is_flag : Text → Bool
is_flag v = v == 1

abbrev number : Text → Option ℕ
number v = some v

abbrev signs : Text → Text → Bool
signs s k = s == k + 1000

abbrev tags : List (TagName × List Text)
tags =
    (TagName.pubkeys, 101 ∷ 102 ∷ [])
    ∷ (TagName.n_sigs, 2 ∷ [])
    ∷ (TagName.locktime, 500 ∷ [])
    ∷ (TagName.refund, 103 ∷ [])
    ∷ []

abbrev conditions : P2pkConditions
conditions = record {
  lock_key = 100;
  locktime = some 500;
  refund = 103 ∷ [];
  pubkeys = 101 ∷ 102 ∷ [];
  n_sigs = 2;
}

parsed : parse_conditions is_key is_flag number 100 tags ≡ ok conditions
unfolding parse_conditions
parsed = refl

too_many :
    parse_conditions is_key is_flag number 100 ((TagName.n_sigs, 2 ∷ []) ∷ []) ≡ err too_many_sigs
unfolding parse_conditions
too_many = refl

accepted : verify_p2pk_spend signs conditions (1100 ∷ 1102 ∷ []) 400 ≡ some by_lock
unfolding verify_p2pk_spend has_signed
accepted = refl

-- One key that signs twice counts once.
signed_twice : verify_p2pk_spend signs conditions (1100 ∷ 1100 ∷ []) 400 ≡ none
unfolding verify_p2pk_spend has_signed
signed_twice = refl

refunded : verify_p2pk_spend signs conditions (1103 ∷ []) 500 ≡ some by_refund
unfolding verify_p2pk_spend has_signed
refunded = refl

parse_conditions-bounds_example : (1 ≤ 2) × (2 ≤ 1 + 2)
parse_conditions-bounds_example =
    parse_conditions-bounds is_key is_flag number 100 tags conditions parsed

verify_p2pk_spend-signed_example :
    ((is_expired signs conditions 400 ≡ false)
      × SignedByOne signs (1100 ∷ 1102 ∷ []) (100 ∷ 101 ∷ 102 ∷ []))
    ⊎ ((is_expired signs conditions 400 ≡ true)
        × ((conditions.refund ≡ []) ⊎ SignedByOne signs (1100 ∷ 1102 ∷ []) (103 ∷ [])))
verify_p2pk_spend-signed_example =
    verify_p2pk_spend-signed is_key is_flag number signs 100 tags conditions (1100 ∷ 1102 ∷ []) 400
      by_lock parsed accepted
