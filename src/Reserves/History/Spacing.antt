-- ===== src/Reserves/History/Spacing.antt =====
-- A history is bounded, and its points are a gap apart.
use picocash.Prelude.{
  ℕ, suc, ◌+◌, ◌≤◌, ◌≡◌, sym, ap, ◌∙◌, Text, false, List, [], ◌∷◌, ◌++◌, length, arith, Bool-cases,
  Option-cases, inl, inr, ltb, ◌==◌, if◌then◌else◌,
}
use picocash.Dict.{put, lookup-put}
use picocash.Reserves.History.{
  HistoryPoint, history_points, Histories, get_history, last_of, shift_to, is_young, append_point,
  append_history,
}

-- Each point comes a gap after the one before it, at least.
abbrev pub Spaced : ℕ → List HistoryPoint → Type 0
Spaced gap [] = Unit
Spaced gap (p ∷ []) = Unit
Spaced gap (p ∷ q ∷ ps) = (p.t + gap ≤ q.t) × Spaced gap (q ∷ ps)

abbrev pub IsHistory : ℕ → List HistoryPoint → Type 0
IsHistory gap ps = (length ps ≤ history_points) × Spaced gap ps

length-shift_to : (limit : ℕ) (ps : List HistoryPoint) → length (shift_to limit ps) ≤ limit
unfolding shift_to
length-shift_to limit [] = omega arith
length-shift_to limit (p ∷ ps) = ground (arith, length-shift_to limit ps)

Spaced-tail :
    (gap : ℕ) (p : HistoryPoint) (ps : List HistoryPoint) → Spaced gap (p ∷ ps) → Spaced gap ps
Spaced-tail gap p [] h = tt
Spaced-tail gap p (q ∷ ps) h = h.1

shift_to-Spaced :
    (gap limit : ℕ) (ps : List HistoryPoint) → Spaced gap ps → Spaced gap (shift_to limit ps)
unfolding shift_to
shift_to-Spaced gap limit [] h = tt
shift_to-Spaced gap limit (p ∷ ps) h = elim (Bool-cases (ltb limit (suc (length ps)))) [
  | inl more ↦ rw (shift_to, more) (shift_to-Spaced gap limit ps (Spaced-tail gap p ps h))
  | inr enough ↦ rw (shift_to, enough) h
]

last_of-∷ : (p q : HistoryPoint) (ps : List HistoryPoint) → last_of (p ∷ q ∷ ps) ≡ last_of (q ∷ ps)
unfolding last_of
last_of-∷ p q ps = elim (Option-cases (last_of ps)) [
  | inl nothing ↦ ground (arith, nothing)
  | inr (r, e) ↦ ground (arith, e)
]

Spaced-++ :
    (gap : ℕ) (point : HistoryPoint) (ps : List HistoryPoint)
    → Spaced gap ps
    → is_young gap point (last_of ps) ≡ false
    → Spaced gap (ps ++ (point ∷ []))
unfolding last_of
Spaced-++ gap point [] h old = tt
Spaced-++ gap point (p ∷ []) h old = (ground (arith, old), tt)
Spaced-++ gap point (p ∷ q ∷ ps) h old =
    (h.0, Spaced-++ gap point (q ∷ ps) h.1 (ap (is_young gap point) (sym (last_of-∷ p q ps)) ∙ old))

append_point-IsHistory :
    (gap : ℕ) (point : HistoryPoint) (ps : List HistoryPoint)
    → IsHistory gap ps
    → IsHistory gap (append_point gap point ps).1
unfolding append_point
append_point-IsHistory gap point ps h = elim (Bool-cases (is_young gap point (last_of ps))) [
  | inl young ↦ rw (append_point, young) h
  | inr old ↦
      rw (append_point, old)
        (
          length-shift_to history_points _,
          shift_to-Spaced gap history_points _ (Spaced-++ gap point ps h.1 old),
        )
]

get_history-put :
    (address other : Text) (points : List HistoryPoint) (histories : Histories)
    → get_history other (put address points histories)
      ≡ (if address == other then points else get_history other histories)
unfolding get_history
get_history-put address other points histories =
    ground (arith, lookup-put other address points histories)

append_history-IsHistory :
    (gap : ℕ) (address other : Text) (point : HistoryPoint) (histories : Histories)
    → ((a : Text) → IsHistory gap (get_history a histories))
    → IsHistory gap (get_history other (append_history gap address point histories).1)
unfolding append_history
append_history-IsHistory gap address other point histories h =
    let next = append_point gap point (get_history address histories) in
    elim (Bool-cases next.0) [
      | inr refused ↦ rw (append_history, refused) (h other)
      | inl appended ↦
          rw (append_history, appended)
            (elim (Bool-cases (address == other)) [
              | inl same ↦
                  rw (get_history-put address other next.1 histories, same)
                    (append_point-IsHistory gap point (get_history address histories) (h address))
              | inr apart ↦ rw (get_history-put address other next.1 histories, apart) (h other)
            ])
    ]

-- Appends, each to one address.
unfoldable pub append_all : ℕ → List (Text × HistoryPoint) → Histories → Histories
append_all gap [] histories = histories
append_all gap ((address, point) ∷ rest) histories =
    append_all gap rest (append_history gap address point histories).1

-- Whatever points are appended to whatever addresses, no address ever holds more than 2160 points, and
-- each of its points comes a gap after the one before it, at least; provided that it was so at first.
pub append_all-IsHistory :
    (gap : ℕ) (appends : List (Text × HistoryPoint)) (histories : Histories)
    → ((a : Text) → IsHistory gap (get_history a histories))
    → (a : Text) → IsHistory gap (get_history a (append_all gap appends histories))
unfolding append_all
append_all-IsHistory gap [] histories h a = h a
append_all-IsHistory gap ((address, point) ∷ rest) histories h a =
    append_all-IsHistory gap rest (append_history gap address point histories).1
      (λ b. append_history-IsHistory gap address b point histories h) a
