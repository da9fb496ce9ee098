-- ===== src/Sdk/Tests.antt =====
-- Runs of blinding.ts and store.ts on concrete inputs.
use picocash.Prelude.{
  ℕ, ◌+◌, ◌<◌, ◌^◌, ◌≡◌, ◌↔◌, Text, refl, true, contains, none, some, List, [], ◌∷◌, sum_by, arith,
}
use picocash.Prelude.Int.{negsuc}
use picocash.Result.{Result, ok, err, ok-eq-ok}
use picocash.Sdk.Blinding.{split, decompose, not_positive, out_of_range}
use picocash.Sdk.Blinding.Decompose.{Denominations, sum, decompose_total, decompose_unique}
use picocash.Sdk.Store.{
  Proof, HistoryKind, HistoryEntry, WalletSnapshot, not_spendable, empty_snapshot, unique_from,
  ys_of, map_get, pick, without, flat, get_reserved, set_reserved, omit_reserved, holdings, reserve,
  commit,
}
use picocash.Sdk.Store.Transitions.{IsValid, IsNew, reserve_iff, commit-settles}
use picocash.Sdk.Store.Memory.{
  EntryDraft, to_add, to_reserve, to_commit, to_release, perform, with_spend,
}
use picocash.Sdk.Store.Safety.{perform-IsValid, empty_snapshot-IsValid}
use picocash.Sdk.Store.Spend.{Outcome, with_spend-cases}

zero-decompose : decompose 0 ≡ err not_positive
unfolding decompose
zero-decompose = refl

large-decompose : decompose 2147483648 ≡ err out_of_range
unfolding decompose split
large-decompose = refl

decompose_total_example :
    (parts : List ℕ) × (decompose 13 ≡ ok parts) × Denominations 31 parts × (sum parts ≡ 13)
decompose_total_example = decompose_total 13 (omega arith) (omega arith)

decompose_unique_example :
    (0 < 13)
    × (13 < 2 ^ 31)
    × Denominations 31 (8 ∷ 4 ∷ 1 ∷ [])
    × (sum (8 ∷ 4 ∷ 1 ∷ []) ≡ 13)
    × ((others : List ℕ) → Denominations 31 others → sum others ≡ 13 → others ≡ 8 ∷ 4 ∷ 1 ∷ [])
unfolding decompose split
decompose_unique_example = decompose_unique 13 (8 ∷ 4 ∷ 1 ∷ []) refl

-- Keys that are the secrets themselves, and a wallet with two proofs, one of which can be reserved.
abbrev key : Text → Text
key secret = secret

abbrev note : ℕ → Text → Proof
note amount secret = record {
  amount = amount;
  keyset_id = 7;
  secret = secret;
  c = 0;
  dleq = none;
  witness = none;
}

abbrev wallet : WalletSnapshot
wallet = record empty_snapshot { proofs = note 4 21 ∷ note 2 22 ∷ [] }

abbrev in_flight : WalletSnapshot
in_flight = record {
  proofs = note 2 22 ∷ [];
  reserved = (9, note 4 21 ∷ []) ∷ [];
  history = [];
  seq = 1;
}

abbrev entry : HistoryEntry
entry = record { at = 5; kind = HistoryKind.pay; delta = negsuc 2; ref = none }

wallet-IsValid : IsValid key wallet
unfolding flat
wallet-IsValid = record { ids = tt; once = λ y. ground arith }

in_flight-IsValid : IsValid key in_flight
unfolding flat get_reserved
in_flight-IsValid = record { ids = (refl, tt); once = λ y. ground arith }

wallet-reserve : reserve key wallet (note 4 21 ∷ []) 9 ≡ ok in_flight
unfolding reserve unique_from ys_of pick map_get without set_reserved
wallet-reserve = refl

reserve-twice : reserve key in_flight (note 4 21 ∷ []) 10 ≡ err not_spendable
unfolding reserve unique_from ys_of pick map_get
reserve-twice = refl

reserve_iff_example : ((s' : WalletSnapshot) × (reserve key wallet (note 4 21 ∷ []) 9 ≡ ok s')) ↔ (
    (y : Text)
    → contains y (ys_of key (note 4 21 ∷ [])) ≡ true
    → contains y (ys_of key wallet.proofs) ≡ true)
reserve_iff_example = reserve_iff key wallet (note 4 21 ∷ []) 9

commit-settles_example :
    (s' : WalletSnapshot) × (commit key in_flight 9 (note 1 23 ∷ []) entry ≡ ok s')
    × (s'.reserved ≡ omit_reserved 9 in_flight.reserved)
    × (s'.history ≡ entry ∷ [])
    × ((w : Proof → ℕ)
        → sum_by w (holdings key s') + sum_by w (note 4 21 ∷ [])
          ≡ sum_by w (holdings key in_flight) + sum_by w (note 1 23 ∷ []))
unfolding get_reserved ys_of holdings flat
commit-settles_example =
    commit-settles key in_flight 9 (note 4 21 ∷ []) (note 1 23 ∷ []) entry in_flight-IsValid refl
      ((refl, tt), λ y m. ground arith)

perform-IsValid_example : IsValid key (
    perform key empty_snapshot (
      to_add (note 4 21 ∷ note 2 22 ∷ note 4 21 ∷ []) (some entry)
      ∷ to_reserve (note 4 21 ∷ []) 9
      ∷ to_reserve (note 4 21 ∷ []) 10
      ∷ to_commit 9 (note 1 23 ∷ []) entry
      ∷ to_release 9
      ∷ []))
perform-IsValid_example =
    perform-IsValid key
      (to_add (note 4 21 ∷ note 2 22 ∷ note 4 21 ∷ []) (some entry)
        ∷ to_reserve (note 4 21 ∷ []) 9
        ∷ to_reserve (note 4 21 ∷ []) 10
        ∷ to_commit 9 (note 1 23 ∷ []) entry
        ∷ to_release 9
        ∷ [])
      empty_snapshot (empty_snapshot-IsValid key)

abbrev draft : EntryDraft
draft = record { kind = HistoryKind.pay; delta = negsuc 2; ref = none }

-- A payment that returns one unit of change.
buy : List Proof → Result ℕ (List Proof)
buy proofs = ok (note 1 23 ∷ [])

buy-IsNew : (change : List Proof) → buy (note 4 21 ∷ []) ≡ ok change → IsNew key wallet change
unfolding buy ys_of holdings flat
buy-IsNew change e = rw (← ok-eq-ok e) ((refl, tt), λ y m. ground arith)

with_spend-cases_example :
    Outcome key 9 5 wallet
      (note 4 21 ∷ [])
      draft
      buy
      (with_spend key 9 5 wallet (note 4 21 ∷ []) draft buy)
unfolding get_reserved
with_spend-cases_example =
    with_spend-cases key 9 5 wallet (note 4 21 ∷ []) draft buy wallet-IsValid refl buy-IsNew
