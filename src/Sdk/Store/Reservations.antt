-- ===== src/Sdk/Store/Reservations.antt =====
-- The object `reserved` of store.ts: its properties stand once, and setting or omitting one adds or
-- removes what its proofs weigh.
use picocash.Prelude.{
  ℕ, ◌+◌, ◌≤◌, Text, ◌≡◌, refl, false, none, some, List, [], ◌∷◌, ◌==◌, sum_by, sum_by-append,
  arith, ==_refl,
}
use picocash.Sdk.Store.{Proof, flat, get_reserved, set_reserved, omit_reserved}

-- The properties of an object stand once.
abbrev pub UniqueIds : List (Text × List Proof) → Type 0
UniqueIds [] = Unit
UniqueIds ((id, ps) ∷ rest) = (get_reserved id rest ≡ none) × UniqueIds rest

get_reserved-omit :
    (j id : Text) (rs : List (Text × List Proof))
    → get_reserved j rs ≡ none
    → get_reserved j (omit_reserved id rs) ≡ none
unfolding get_reserved omit_reserved
get_reserved-omit j id [] h = refl
get_reserved-omit j id ((k, ps) ∷ rs) h = ground (arith, get_reserved-omit j id rs)

pub omit_reserved-UniqueIds :
    (id : Text) (rs : List (Text × List Proof)) → UniqueIds rs → UniqueIds (omit_reserved id rs)
unfolding omit_reserved
omit_reserved-UniqueIds id [] u = tt
omit_reserved-UniqueIds id ((k, ps) ∷ rs) u =
    ground (arith, omit_reserved-UniqueIds id rs u.1, get_reserved-omit k id rs u.0)

get_reserved-set :
    (j id : Text) (ps : List Proof) (rs : List (Text × List Proof))
    → (j == id) ≡ false
    → get_reserved j (set_reserved id ps rs) ≡ get_reserved j rs
unfolding get_reserved set_reserved
get_reserved-set j id ps [] h = ground arith
get_reserved-set j id ps ((k, qs) ∷ rs) h = ground (arith, get_reserved-set j id ps rs h)

pub set_reserved-UniqueIds :
    (id : Text) (ps : List Proof) (rs : List (Text × List Proof))
    → UniqueIds rs
    → UniqueIds (set_reserved id ps rs)
unfolding set_reserved
set_reserved-UniqueIds id ps [] u = (unfold get_reserved in refl, tt)
set_reserved-UniqueIds id ps ((k, qs) ∷ rs) u =
    ground (arith, set_reserved-UniqueIds id ps rs u.1, get_reserved-set k id ps rs)

pub get_reserved-set_self :
    (id : Text) (ps : List Proof) (rs : List (Text × List Proof))
    → get_reserved id (set_reserved id ps rs) ≡ some ps
unfolding get_reserved set_reserved
get_reserved-set_self id ps [] = ground (arith, ==_refl id)
get_reserved-set_self id ps ((k, qs) ∷ rs) =
    ground (arith, ==_refl id, get_reserved-set_self id ps rs)

pub omit-set_new :
    (id : Text) (ps : List Proof) (rs : List (Text × List Proof))
    → get_reserved id rs ≡ none
    → omit_reserved id (set_reserved id ps rs) ≡ rs
unfolding get_reserved set_reserved omit_reserved
omit-set_new id ps [] h = ground (arith, ==_refl id)
omit-set_new id ps ((k, qs) ∷ rs) h = ground (arith, ==_refl id, omit-set_new id ps rs)

omit_missing :
    (id : Text) (rs : List (Text × List Proof))
    → get_reserved id rs ≡ none
    → omit_reserved id rs ≡ rs
unfolding get_reserved omit_reserved
omit_missing id [] h = refl
omit_missing id ((k, ps) ∷ rs) h = ground (arith, omit_missing id rs)

module _ (w : Proof → ℕ) where
  pub weigh-set_new :
      (id : Text) (ps : List Proof) (rs : List (Text × List Proof))
      → get_reserved id rs ≡ none
      → sum_by w (flat (set_reserved id ps rs)) ≡ sum_by w ps + sum_by w (flat rs)
  unfolding get_reserved set_reserved flat
  weigh-set_new id ps [] h = sum_by-append w ps []
  weigh-set_new id ps ((k, qs) ∷ rs) h = ground (
    arith,
    weigh-set_new id ps rs,
    sum_by-append w qs (flat rs),
    sum_by-append w qs (flat (set_reserved id ps rs)),
  )

  pub weigh-set :
      (id : Text) (ps : List Proof) (rs : List (Text × List Proof))
      → sum_by w (flat (set_reserved id ps rs)) ≤ sum_by w ps + sum_by w (flat rs)
  unfolding set_reserved flat
  weigh-set id ps [] = omega (arith, sum_by-append w ps [])
  weigh-set id ps ((k, qs) ∷ rs) = ground (
    arith,
    weigh-set id ps rs,
    sum_by-append w qs (flat rs),
    sum_by-append w ps (flat rs),
    sum_by-append w qs (flat (set_reserved id ps rs)),
  )

  pub weigh-omit :
      (id : Text) (ps : List Proof) (rs : List (Text × List Proof))
      → UniqueIds rs
      → get_reserved id rs ≡ some ps
      → sum_by w (flat (omit_reserved id rs)) + sum_by w ps ≡ sum_by w (flat rs)
  unfolding get_reserved omit_reserved flat
  weigh-omit id ps [] u h = cc
  weigh-omit id ps ((k, qs) ∷ rs) u h = ground (
    arith,
    weigh-omit id ps rs u.1,
    omit_missing id rs,
    sum_by-append w qs (flat rs),
    sum_by-append w qs (flat (omit_reserved id rs)),
  )
