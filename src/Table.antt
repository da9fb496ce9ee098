-- ===== src/Table.antt =====
-- A database table with a primary key, as the SQL statements of packages/mint use it. A table has
-- no order; rows are kept newest first.
use picocash.Prelude.{
  ℕ, ◌+◌, ◌≡◌, refl, sym, subst, ◌≢◌, Option, none, some, List, [], ◌∷◌, arith, ◌==◌, if◌then◌else◌,
  sum_by,
}

module _ {A : Type 0} (key : A → ℕ) where
  -- SELECT * FROM table WHERE key = k
  unfoldable pub find : ℕ → List A → Option A
  find k [] = none
  find k (r ∷ rs) = if key r == k then some r else find k rs

  -- UPDATE table SET … WHERE key = k
  unfoldable pub update : ℕ → (A → A) → List A → List A
  update k f [] = []
  update k f (r ∷ rs) = (if key r == k then f r else r) ∷ update k f rs

  -- INSERT … ON CONFLICT (key) DO NOTHING RETURNING key; `none` when no row comes back.
  unfoldable pub insert : A → List A → Option (List A)
  unfolding find
  insert r rs = elim (find (key r) rs) [ none ↦ some (r ∷ rs) | some _ ↦ none ]

  -- No key stands twice.
  abbrev pub Distinct : List A → Type 0
  Distinct [] = Unit
  Distinct (r ∷ rs) = (find (key r) rs ≡ none) × Distinct rs

  pub find-update_ne :
      (k j : ℕ) (f : A → A) (rs : List A)
      → ((r : A) → key (f r) ≡ key r)
      → k ≢ j
      → find j (update k f rs) ≡ find j rs
  unfolding find update
  find-update_ne k j f [] hf h = refl
  find-update_ne k j f (r ∷ rs) hf h = ground (arith, hf r, find-update_ne k j f rs hf h)

  pub find-update_self :
      (k : ℕ) (f : A → A) (s : A) (rs : List A)
      → ((r : A) → key (f r) ≡ key r)
      → find k rs ≡ some s
      → find k (update k f rs) ≡ some (f s)
  unfolding find update
  find-update_self k f s [] hf h = cc
  find-update_self k f s (x ∷ rs) hf h = ground (arith, hf x, find-update_self k f s rs hf)

  pub find-update-none :
      (k j : ℕ) (f : A → A) (rs : List A)
      → ((r : A) → key (f r) ≡ key r)
      → find j rs ≡ none
      → find j (update k f rs) ≡ none
  unfolding find update
  find-update-none k j f [] hf h = refl
  find-update-none k j f (r ∷ rs) hf h = ground (arith, hf r, find-update-none k j f rs hf)

  pub update-Distinct :
      (k : ℕ) (f : A → A) (rs : List A)
      → ((r : A) → key (f r) ≡ key r)
      → Distinct rs
      → Distinct (update k f rs)
  unfolding update
  update-Distinct k f [] hf h = tt
  update-Distinct k f (r ∷ rs) hf h = ground (
    arith,
    hf r,
    update-Distinct k f rs hf h.1,
    find-update-none k (key r) f rs hf h.0,
    find-update-none k (key (f r)) f rs hf,
  )

  pub key-find : (k : ℕ) (r : A) (rs : List A) → find k rs ≡ some r → key r ≡ k
  unfolding find
  key-find k r [] h = cc
  key-find k r (x ∷ rs) h = ground (arith, key-find k r rs)

  -- An update of a key that no row has changes nothing.
  pub update_missing : (k : ℕ) (f : A → A) (rs : List A) → find k rs ≡ none → update k f rs ≡ rs
  unfolding find update
  update_missing k f [] h = refl
  update_missing k f (r ∷ rs) h = ground (arith, update_missing k f rs)

  -- Where keys are distinct an update moves a sum by what it does to the one row it finds.
  pub sum_by-update :
      (w : A → ℕ) (k : ℕ) (f : A → A) (r : A) (rs : List A)
      → Distinct rs
      → find k rs ≡ some r
      → sum_by w (update k f rs) + w r ≡ sum_by w rs + w (f r)
  unfolding find update
  sum_by-update w k f r [] d h = cc
  sum_by-update w k f r (x ∷ rs) d h =
      ground (arith, sum_by-update w k f r rs d.1, update_missing k f rs)

  pub insert-eq-some :
      (r : A) (rs : List A) {rs' : List A}
      → insert r rs ≡ some rs'
      → (rs' ≡ r ∷ rs) × (find (key r) rs ≡ none)
  unfolding insert
  insert-eq-some r rs h = ground arith

  -- A row that was found under a key is found under its own.
  pub find-key : (k : ℕ) (r : A) (rs : List A) → find k rs ≡ some r → find (key r) rs ≡ some r
  find-key k r rs h = subst (λ j. find j rs ≡ some r) (sym (key-find k r rs h)) h

  -- A row with a new key goes in.
  pub insert_new : (r : A) (rs : List A) → find (key r) rs ≡ none → insert r rs ≡ some (r ∷ rs)
  unfolding insert
  insert_new r rs h = rw (insert, h) refl
