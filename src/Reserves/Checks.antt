-- ===== src/Reserves/Checks.antt =====
-- apps/reserves/src/checks.ts: the reconciliation checks, without their labels and the sentences that
-- explain them. Amounts are micro-units and not negative; what other chains hold is given as the rounded
-- sum that the code computes on doubles.
pub mod Verdicts
use picocash.Prelude.{
  ℕ, ◌+◌, ◌-◌, ◌*◌, ◌^◌, Bool, true, false, not, Option, none, some, List, [], ◌∷◌, ◌++◌, ◌==◌,
  ◌&&◌, ltb, leb, if◌then◌else◌,
}

pub data CheckId : Type 0 where
  reserves_cover_supply supply_matches_chain reserves_cover_chain : CheckId
  issuer_fresh breakdown_consistent under_cap not_paused : CheckId

-- `ok` is `none` where the data cannot say.
pub record Check : Type 0 where
  pub id : CheckId
  pub ok : Option Bool

pub record IssuerReport : Type 0 where
  pub reported_supply : ℕ
  pub reported_reserves : ℕ
  pub breakdown_sum : ℕ

pub record TokenFacts : Type 0 where
  pub tempo_supply : ℕ
  pub supply_cap : ℕ
  pub paused : Bool
  -- Whether there are figures of other chains, and their rounded sum.
  pub multi_chain : Bool
  pub other_micros : ℕ
  pub issuer : Option IssuerReport
  pub issuer_age_seconds : Option ℕ

-- `abs(a - b)`
abbrev pub distance : ℕ → ℕ → ℕ
distance a b = (a - b) + (b - a)

unfoldable pub within : ℕ → ℕ → ℕ → Bool
within a b bps = let base = if ltb b a then a else b in leb (distance a b * 10000) (base * bps)

abbrev pub one_cent : ℕ
one_cent = 10000

-- `covers(…).ok`
unfoldable pub covers : ℕ → ℕ → Bool
covers reserves supply = if leb supply reserves then true else leb (supply - reserves) one_cent

abbrev pub all_chains : TokenFacts → ℕ
all_chains t = t.tempo_supply + t.other_micros

-- `ok` of the second check, where there is an issuer.
unfoldable pub supply_verdict : TokenFacts → ℕ → Option Bool
supply_verdict t reported =
    if ltb reported t.tempo_supply && not (within t.tempo_supply reported 1)
    then some false
    else if within (all_chains t) reported 10
    then some true
    else if t.multi_chain && within (all_chains t) reported 200
    then none
    else if ltb reported (all_chains t)
    then some false
    else if not t.multi_chain && ltb 0 t.tempo_supply
    then none
    else if t.tempo_supply == 0 && not t.multi_chain
    then none
    else some false

-- `ok` of the third.
unfoldable pub cover_verdict : TokenFacts → ℕ → Option Bool
cover_verdict t reserves =
    if t.tempo_supply == 0 && not t.multi_chain
    then none
    else if not (covers reserves (all_chains t))
        && covers reserves t.tempo_supply
        && t.multi_chain
        && within (all_chains t) reserves 200
    then none
    else some (covers reserves (all_chains t))

abbrev pub of_issuer : Option IssuerReport → (IssuerReport → Option Bool) → Option Bool
of_issuer none verdict = none
of_issuer (some issuer) verdict = verdict issuer

abbrev pub check_of : CheckId → Option Bool → Check
check_of id ok = record { id = id; ok = ok }

abbrev breakdown_check : Option IssuerReport → List Check
breakdown_check none = []
breakdown_check (some issuer) =
    check_of breakdown_consistent
      (if within issuer.breakdown_sum issuer.reported_reserves 1 then some true else none)
    ∷ []

unfoldable pub run_checks : TokenFacts → List Check
run_checks t =
    check_of reserves_cover_supply
      (of_issuer t.issuer (λ i. some (covers i.reported_reserves i.reported_supply)))
    ∷ check_of supply_matches_chain (of_issuer t.issuer (λ i. supply_verdict t i.reported_supply))
    ∷ check_of reserves_cover_chain (of_issuer t.issuer (λ i. cover_verdict t i.reported_reserves))
    ∷ check_of issuer_fresh
        (elim t.issuer_age_seconds [ none ↦ none | some age ↦ some (leb age 86400) ])
    ∷ (breakdown_check t.issuer
        ++ (check_of under_cap
              (if t.supply_cap == 0 then none else some (leb t.tempo_supply t.supply_cap))
            ∷ check_of not_paused (some (not t.paused))
            ∷ []))
