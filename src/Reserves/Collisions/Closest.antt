-- ===== src/Reserves/Collisions/Closest.antt =====
-- With a reference figure, the canonical token is an eligible one that lies closest to it.
use picocash.Prelude.{
  ℕ, ◌≤◌, ◌≡◌, sym, ap, subst, Bool, true, some, List, [], ◌∷◌, All, arith, Bool-cases, inl, inr,
  if◌then◌else◌,
}
use picocash.Reserves.Checks.{distance}
use picocash.Reserves.Collisions.{
  Collidable, Reference, Basis, filter, reduce, has_reference, eligible, target_of, closer,
  pick_closest, pick_canonical,
}

abbrev pub off : ℕ → Collidable → ℕ
off target t = distance t.tempo_supply target

abbrev IsLeast : ℕ → Collidable → List Collidable → Collidable → Type 0
IsLeast target best ts r =
    (off target r ≤ off target best) × All (λ u. off target r ≤ off target u) ts

reduce-IsLeast :
    (target : ℕ) (best : Collidable) (ts : List Collidable)
    → IsLeast target best ts (reduce (closer target) best ts)
reduce-IsLeast target best [] = (omega arith, tt)
reduce-IsLeast target best (t ∷ ts) = elim (Bool-cases (closer target t best)) [
  | inl better ↦
      let same : reduce (closer target) best (t ∷ ts) ≡ reduce (closer target) t ts =
        ap (λ b. reduce (closer target) (if b then t else best) ts) better in
      let (here, there) = reduce-IsLeast target t ts in
      subst (IsLeast target best (t ∷ ts)) (sym same) (ground (arith, here, better), (here, there))
  | inr worse ↦
      let same : reduce (closer target) best (t ∷ ts) ≡ reduce (closer target) best ts =
        ap (λ b. reduce (closer target) (if b then t else best) ts) worse in
      let (here, there) = reduce-IsLeast target best ts in
      subst (IsLeast target best (t ∷ ts)) (sym same) (here, (ground (arith, here, worse), there))
]

reduce-All :
    (Q : Collidable → Type 0) (better : Collidable → Collidable → Bool) (best : Collidable)
    (ts : List Collidable)
    → Q best
    → All Q ts
    → Q (reduce better best ts)
reduce-All Q better best [] q qs = q
reduce-All Q better best (t ∷ ts) q qs = elim (Bool-cases (better t best)) [
  | inl holds ↦ rw (reduce, holds) (reduce-All Q better t ts qs.0 qs.1)
  | inr fails ↦ rw (reduce, fails) (reduce-All Q better best ts q qs.1)
]

filter-All :
    (test : Collidable → Bool) (ts : List Collidable) → All (λ u. test u ≡ true) (filter test ts)
filter-All test [] = tt
filter-All test (t ∷ ts) = elim (Bool-cases (test t)) [
  | inl holds ↦ rw holds (holds, filter-All test ts)
  | inr fails ↦ rw fails (filter-All test ts)
]

All-filter :
    (Q : Collidable → Type 0) (test : Collidable → Bool) (ts : List Collidable)
    → All Q (filter test ts)
    → All (λ u. test u ≡ true → Q u) ts
All-filter Q test [] h = tt
All-filter Q test (t ∷ ts) h = elim (Bool-cases (test t)) [
  | inl holds ↦ let h' = rw holds at h in (λ e. h'.0, All-filter Q test ts h'.1)
  | inr fails ↦ (λ e. cc, All-filter Q test ts (rw fails at h))
]

pick_closest-least :
    (target : ℕ) (ts : List Collidable) (t : Collidable)
    → pick_closest target ts ≡ some t
    → All (λ u. off target t ≤ off target u) ts
pick_closest-least target [] t h = tt
pick_closest-least target (u ∷ ts) t h =
    let picked : reduce (closer target) u ts ≡ t = cc h in
    subst (λ best. All (λ w. off target best ≤ off target w) (u ∷ ts)) picked
      (reduce-IsLeast target u ts)

pick_closest-All :
    (Q : Collidable → Type 0) (target : ℕ) (ts : List Collidable) (t : Collidable)
    → pick_closest target ts ≡ some t
    → All Q ts
    → Q t
pick_closest-All Q target [] t h qs = cc
pick_closest-All Q target (u ∷ ts) t h qs =
    let picked : reduce (closer target) u ts ≡ t = cc h in
    subst Q picked (reduce-All Q (closer target) u ts qs.0 qs.1)

-- Where there is a reference figure, the token that is picked for a symbol does not exceed its bound,
-- and of the tokens of the group that do not exceed it none lies closer to the figure.
pub pick_canonical-closest :
    (group : List Collidable) (ref : Reference) (t : Collidable) (basis : Basis)
    → has_reference (some ref) ≡ true
    → pick_canonical group (some ref) ≡ (some t, basis)
    → (eligible ref t ≡ true)
      × All
          (λ u.
            eligible ref u ≡ true
            → distance t.tempo_supply (target_of ref) ≤ distance u.tempo_supply (target_of ref))
          group
unfolding pick_canonical
pick_canonical-closest group ref t basis known h =
    let picked : pick_closest (target_of ref) (filter (eligible ref) group) ≡ some t =
      ap (λ r. r.0) (rw (pick_canonical, known) at h) in
    (
      pick_closest-All (λ u. eligible ref u ≡ true) (target_of ref) (filter (eligible ref) group) t
          picked (filter-All (eligible ref) group),
      All-filter (λ u. off (target_of ref) t ≤ off (target_of ref) u) (eligible ref) group
          (pick_closest-least (target_of ref) (filter (eligible ref) group) t picked),
    )
