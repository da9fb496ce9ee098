-- ===== src/Reserves/Tests.antt =====
-- Runs of the reserves monitor on concrete inputs.
use picocash.Prelude.{ℕ, ◌≤◌, ◌≡◌, refl, Text, true, false, none, some, List, [], ◌∷◌, All, arith}
use picocash.Dict.{lookup, put}
use picocash.Reserves.Checks.{
  TokenFacts, distance, within, covers, supply_verdict, cover_verdict, run_checks, check_of,
  reserves_cover_supply, supply_matches_chain, reserves_cover_chain, issuer_fresh,
  breakdown_consistent, under_cap, not_paused,
}
use picocash.Reserves.Collisions.{
  TrackReason, attested, active, collision, Collidable, Reference, reference, has_reference,
  eligible, target_of, by_symbol, contested, pick_canonical, pick_of, strip, resolve,
}
use picocash.Reserves.Collisions.Canonical.{recognized, resolve_unique}
use picocash.Reserves.Collisions.Closest.{pick_canonical-closest}
use picocash.Reserves.History.{
  HistoryPoint, get_history, last_of, shift_to, append_point, append_history,
}
use picocash.Reserves.History.Spacing.{IsHistory, append_all, append_all-IsHistory}

-- More on Tempo than the issuer reports, and covered within a cent.
abbrev inflated : TokenFacts
inflated = record {
  tempo_supply = 1000000;
  supply_cap = 5000000;
  paused = false;
  multi_chain = false;
  other_micros = 0;
  issuer =
      some
        (record { reported_supply = 900000; reported_reserves = 995000; breakdown_sum = 995000 });
  issuer_age_seconds = some 100000;
}

inflated_checks :
    run_checks inflated
    ≡ check_of reserves_cover_supply (some true)
      ∷ check_of supply_matches_chain (some false)
      ∷ check_of reserves_cover_chain (some true)
      ∷ check_of issuer_fresh (some false)
      ∷ check_of breakdown_consistent (some true)
      ∷ check_of under_cap (some true)
      ∷ check_of not_paused (some true)
      ∷ []
unfolding run_checks covers within supply_verdict cover_verdict
inflated_checks = refl

inflated_verdict : supply_verdict inflated 900000 ≡ some false
unfolding supply_verdict within
inflated_verdict = refl

abbrev token : Text → ℕ → List TrackReason → Collidable
token address supply tracked = record {
  address = address;
  symbol = 9;
  tempo_supply = supply;
  tracked = tracked;
}

-- The issuer reports a hundred over all chains, of which five are on Tempo; a look-alike has minted 99.
abbrev genuine : Collidable
genuine = token 11 5 (attested ∷ active ∷ [])

abbrev look_alike : Collidable
look_alike = token 12 99 (attested ∷ active ∷ [])

abbrev totals : Reference
totals = record { tempo_supply = none; issuer_total = some 100 }

-- With the issuer's total alone, the look-alike is taken for the asset.
look_alike_wins :
    pick_canonical (genuine ∷ look_alike ∷ []) (some totals) ≡ (some look_alike, reference)
unfolding pick_canonical has_reference eligible
look_alike_wins = refl

pick_canonical-closest_example :
    (eligible totals look_alike ≡ true)
    × All
        (λ u.
          eligible totals u ≡ true
          → distance 99 (target_of totals) ≤ distance u.tempo_supply (target_of totals))
        (genuine ∷ look_alike ∷ [])
unfolding has_reference
pick_canonical-closest_example =
    pick_canonical-closest (genuine ∷ look_alike ∷ []) totals look_alike reference refl
      look_alike_wins

-- With the market's figure for Tempo, it is not.
abbrev figures : List (Text × Reference)
figures = (9, record { tempo_supply = some 6; issuer_total = some 100 }) ∷ []

abbrev listed_once : List Collidable
listed_once = genuine ∷ look_alike ∷ []

look_alike_stripped :
    (resolve listed_once figures look_alike).token.tracked ≡ active ∷ collision ∷ []
unfolding resolve pick_of pick_canonical has_reference eligible by_symbol contested strip lookup put
look_alike_stripped = refl

genuine_kept : recognized listed_once figures genuine ≡ true
unfolding resolve pick_of pick_canonical has_reference eligible by_symbol contested strip lookup put
genuine_kept = refl

resolve_unique_example : 11 ≡ genuine.address
resolve_unique_example =
    resolve_unique figures genuine genuine [] (look_alike ∷ []) refl refl genuine_kept genuine_kept

abbrev point : ℕ → HistoryPoint
point t = record {
  t = t;
  block = t;
  tempo_supply = 1;
  reported_supply = none;
  reported_reserves = none;
  status = 2;
}

hourly :
    append_all 3300 ((11, point 100) ∷ (11, point 500) ∷ (11, point 3400) ∷ []) []
    ≡ (11, point 100 ∷ point 3400 ∷ []) ∷ []
unfolding append_all append_history append_point get_history last_of shift_to lookup put
hourly = refl

append_all-IsHistory_example : IsHistory 3300 (
    get_history 11 (append_all 3300 ((11, point 100) ∷ (11, point 500) ∷ (11, point 3400) ∷ []) []))
unfolding get_history lookup
append_all-IsHistory_example =
    append_all-IsHistory 3300 ((11, point 100) ∷ (11, point 500) ∷ (11, point 3400) ∷ []) []
      (λ a. (omega arith, tt)) 11
