-- ===== src/Reserves/History.antt =====
-- apps/reserves/src/store.ts: the points kept of a token's history. Times are in
-- seconds, and the store is a map.
pub mod Spacing
use picocash.Prelude.{
  ℕ, suc, ◌+◌, Text, Bool, true, false, Option, none, some, List, [], ◌∷◌, ◌++◌, length, ltb,
  if◌then◌else◌,
}
use picocash.Dict.{lookup, put}

pub record HistoryPoint : Type 0 where
  pub t : ℕ
  pub block : ℕ
  pub tempo_supply : Text
  pub reported_supply : Option Text
  pub reported_reserves : Option Text
  pub status : Text

abbrev pub history_points : ℕ
history_points = 2160

abbrev pub Histories : Type 0
Histories = List (Text × List HistoryPoint)

unfoldable pub get_history : Text → Histories → List HistoryPoint
get_history address histories = elim (lookup address histories) [ none ↦ [] | some points ↦ points ]

-- `points.at(-1)`
unfoldable pub last_of : List HistoryPoint → Option HistoryPoint
last_of [] = none
last_of (p ∷ ps) = elim (last_of ps) [ none ↦ some p | some q ↦ some q ]

-- `while (points.length > limit) points.shift()`
unfoldable pub shift_to : ℕ → List HistoryPoint → List HistoryPoint
shift_to limit [] = []
shift_to limit (p ∷ ps) =
    let rest = shift_to limit ps in if ltb limit (suc (length ps)) then rest else p ∷ ps

abbrev pub is_young : ℕ → HistoryPoint → Option HistoryPoint → Bool
is_young gap point none = false
is_young gap point (some last) = ltb point.t (last.t + gap)

unfoldable pub append_point : ℕ → HistoryPoint → List HistoryPoint → Bool × List HistoryPoint
append_point gap point points =
    if is_young gap point (last_of points)
    then (false, points)
    else (true, shift_to history_points (points ++ (point ∷ [])))

-- The address is in lower case.
unfoldable pub append_history : ℕ → Text → HistoryPoint → Histories → Bool × Histories
append_history gap address point histories =
    let (appended, points) = append_point gap point (get_history address histories) in
    if appended then (true, put address points histories) else (false, histories)
