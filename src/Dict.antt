-- ===== src/Dict.antt =====
-- A JavaScript `Map` with text or number keys: its entries in the order in which the keys came.
use picocash.Prelude.{
  ℕ, ◌≡◌, refl, true, false, Option, none, some, List, [], ◌∷◌, arith, ◌==◌, if◌then◌else◌,
}

module _ {A : Type 0} where
  unfoldable pub lookup : ℕ → List (ℕ × A) → Option A
  lookup k [] = none
  lookup k ((j, v) ∷ rest) = if j == k then some v else lookup k rest

  -- `map.set(k, v)`: a key that is there keeps its place.
  unfoldable pub put : ℕ → A → List (ℕ × A) → List (ℕ × A)
  put k v [] = (k, v) ∷ []
  put k v ((j, w) ∷ rest) = elim (j == k) [ true ↦ (k, v) ∷ rest | false ↦ (j, w) ∷ put k v rest ]

  pub lookup-put :
      (j k : ℕ) (v : A) (m : List (ℕ × A))
      → lookup j (put k v m) ≡ (if k == j then some v else lookup j m)
  unfolding lookup put
  lookup-put j k v [] = refl
  lookup-put j k v ((i, w) ∷ rest) = ground (arith, lookup-put j k v rest)
