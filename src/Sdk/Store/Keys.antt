-- ===== src/Sdk/Store/Keys.antt =====
-- The keys of proofs in the lists that store.ts builds, and what a list of proofs weighs: an equation
-- of weights for every weight says that two lists hold the same proofs, in any order.
use picocash.Prelude.{
  ℕ, ◌+◌, ◌≤◌, ◌<◌, Text, ◌≡◌, refl, true, false, none, some, List, [], ◌∷◌, contains, ◌==◌,
  if◌then◌else◌, sum_by, arith, Bool-cases, Option-cases, ==→≡, ==_refl, inl, inr, ◌⊎◌,
}
use picocash.Result.{ok, >>=-eq-ok, ok-eq-ok}
use picocash.Sdk.Store.{Proof, unique_from, fresh_from, map_get, pick, without, ys_of}

abbrev pub NoRepeat : List Text → Type 0
NoRepeat [] = Unit
NoRepeat (y ∷ ys) = (contains y ys ≡ false) × NoRepeat ys

unique_from-avoids :
    (x : Text) (seen ys : List Text)
    → contains x seen ≡ true
    → contains x (unique_from seen ys) ≡ false
unfolding unique_from
unique_from-avoids x seen [] h = refl
unique_from-avoids x seen (y ∷ ys) h =
    ground (arith, unique_from-avoids x seen ys h, unique_from-avoids x (y ∷ seen) ys)

pub contains-unique_from :
    (x : Text) (seen ys : List Text)
    → contains x seen ≡ false
    → contains x (unique_from seen ys) ≡ contains x ys
unfolding unique_from
contains-unique_from x seen [] h = refl
contains-unique_from x seen (y ∷ ys) h = ground (
  arith,
  contains-unique_from x seen ys h,
  contains-unique_from x (y ∷ seen) ys,
  unique_from-avoids x (y ∷ seen) ys,
)

pub unique_from-NoRepeat : (seen ys : List Text) → NoRepeat (unique_from seen ys)
unfolding unique_from
unique_from-NoRepeat seen [] = tt
unique_from-NoRepeat seen (y ∷ ys) = ground (
  arith,
  ==_refl y,
  unique_from-NoRepeat seen ys,
  unique_from-NoRepeat (y ∷ seen) ys,
  unique_from-avoids y (y ∷ seen) ys,
)

module _ (y_of : Text → Text) where
  abbrev pub keyed : Text → Proof → ℕ
  keyed y p = if y_of p.secret == y then 1 else 0

  -- How many proofs have this key.
  abbrev pub count : Text → List Proof → ℕ
  count y ps = sum_by (keyed y) ps

  pub count-ys_of :
      (y : Text) (ps : List Proof)
      → ((contains y (ys_of y_of ps) ≡ true) × (0 < count y ps))
        ⊎ ((contains y (ys_of y_of ps) ≡ false) × (count y ps ≡ 0))
  unfolding ys_of
  count-ys_of y [] = inr (refl, refl)
  count-ys_of y (p ∷ ps) = ground (arith, count-ys_of y ps)

  pub count-map_get :
      (y : Text) (ps : List Proof)
      → ((map_get y_of y ps ≡ none) × (count y ps ≡ 0))
        ⊎ ((p : Proof) × (map_get y_of y ps ≡ some p) × (y_of p.secret ≡ y) × (0 < count y ps))
  unfolding map_get
  count-map_get y [] = inl (refl, refl)
  count-map_get y (p ∷ ps) = elim (count-map_get y ps) [
    | inr (later, e, k, n) ↦ inr (later, rw e, k, omega (arith, n))
    | inl (e, z) ↦ elim (Bool-cases (y_of p.secret == y)) [
      | inl hit ↦ inr (p, rw (e, hit), ==→≡ (y_of p.secret) y hit, rw hit (omega arith))
      | inr miss ↦ inl (rw (e, miss), rw (miss, z))
    ]
  ]

  without_nothing : (ps : List Proof) → without y_of [] ps ≡ ps
  unfolding without
  without_nothing [] = refl
  without_nothing (p ∷ ps) = rw (without_nothing ps)

  without_absent :
      (y : Text) (ys : List Text) (ps : List Proof)
      → count y ps ≡ 0
      → without y_of (y ∷ ys) ps ≡ without y_of ys ps
  unfolding without
  without_absent y ys [] h = refl
  without_absent y ys (p ∷ ps) h = ground (arith, without_absent y ys ps)

  without_taken :
      (w : Proof → ℕ) (y : Text) (ys : List Text) (p : Proof) (ps : List Proof)
      → contains y ys ≡ false
      → count y ps ≤ 1
      → map_get y_of y ps ≡ some p
      → sum_by w (without y_of (y ∷ ys) ps) + w p ≡ sum_by w (without y_of ys ps)
  unfolding without map_get
  without_taken w y ys p [] h n e = cc
  without_taken w y ys p (q ∷ ps) h n e =
      ground (arith, count-map_get y ps, without_absent y ys ps, without_taken w y ys p ps h)

  pick-cons :
      (y : Text) (ys : List Text) (ps picked : List Proof)
      → pick y_of (y ∷ ys) ps ≡ ok picked
      → (p : Proof) × (others : List Proof) × (map_get y_of y ps ≡ some p)
        × (pick y_of ys ps ≡ ok others)
        × (p ∷ others ≡ picked)
  unfolding pick
  pick-cons y ys ps picked e = elim (Option-cases (map_get y_of y ps)) [
    | inl missing ↦ absurd (cc (missing, e))
    | inr (p, found) ↦
        let (others, e₁, e₂) = >>=-eq-ok (pick y_of ys ps) _ (rw (found, pick) at e) in
        (p, others, found, e₁, ok-eq-ok e₂)
  ]

  -- Taking the picked proofs out of a list without repeated keys leaves the others.
  pub sum_by-pick :
      (w : Proof → ℕ) (ys : List Text) (ps picked : List Proof)
      → NoRepeat ys
      → ((y : Text) → count y ps ≤ 1)
      → pick y_of ys ps ≡ ok picked
      → sum_by w (without y_of ys ps) + sum_by w picked ≡ sum_by w ps
  unfolding pick
  sum_by-pick w [] ps picked h n e = rw (← ok-eq-ok e, without_nothing ps) (omega arith)
  sum_by-pick w (y ∷ ys) ps picked h n e =
      let (p, others, found, e₁, same) = pick-cons y ys ps picked e in
      rw (← same) (
        omega
          (arith, without_taken w y ys p ps h.0 (n y) found, sum_by-pick w ys ps others h.1 n e₁))

  -- Proofs are picked where every key is there, and nowhere else.
  pub pick-present :
      (ys : List Text) (ps picked : List Proof)
      → pick y_of ys ps ≡ ok picked
      → (y : Text) → contains y ys ≡ true
      → 0 < count y ps
  pick-present [] ps picked e y h = cc
  pick-present (x ∷ ys) ps picked e y h =
      let (p, others, found, e₁, same) = pick-cons x ys ps picked e in
      ground (arith, count-map_get x ps, pick-present ys ps others e₁ y)

  pub pick_total :
      (ys : List Text) (ps : List Proof)
      → ((y : Text) → contains y ys ≡ true → 0 < count y ps)
      → (picked : List Proof) × (pick y_of ys ps ≡ ok picked)
  unfolding pick
  pick_total [] ps h = ([], refl)
  pick_total (y ∷ ys) ps h = elim (count-map_get y ps) [
    | inl (missing, z) ↦ absurd (ground (arith, z, h y, ==_refl y))
    | inr (p, found, _, _) ↦
        let (others, e) = pick_total ys ps (λ x m. h x (ground (arith, m))) in
        (p ∷ others, rw (pick, found, e) refl)
  ]

  pub count-fresh_from :
      (y : Text) (held : List Text) (ps : List Proof)
      → ((contains y held ≡ true) × (count y (fresh_from y_of held ps) ≡ 0))
        ⊎ ((contains y held ≡ false) × (count y ps ≡ 0) × (count y (fresh_from y_of held ps) ≡ 0))
        ⊎ ((contains y held ≡ false) × (0 < count y ps) × (count y (fresh_from y_of held ps) ≡ 1))
  unfolding fresh_from
  count-fresh_from y held [] = ground arith
  count-fresh_from y held (p ∷ ps) =
      ground (arith, count-fresh_from y held ps, count-fresh_from y (y_of p.secret ∷ held) ps)

  -- Proofs with keys of their own are all fresh.
  pub fresh_from_all :
      (held : List Text) (ps : List Proof)
      → NoRepeat (ys_of y_of ps)
      → ((y : Text) → contains y (ys_of y_of ps) ≡ true → contains y held ≡ false)
      → fresh_from y_of held ps ≡ ps
  unfolding fresh_from ys_of
  fresh_from_all held [] u h = refl
  fresh_from_all held (p ∷ ps) u h =
      let y = y_of p.secret in
      let rest = fresh_from_all (y ∷ held) ps u.1 (λ x m. ground (arith, h x, m, u.0)) in
      rw (fresh_from, h y (ground (arith, ==_refl y)), rest) refl
