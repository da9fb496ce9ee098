-- ===== src/Reserves/Collisions/Canonical.antt =====
-- At most one address keeps the recognition of a symbol.
use picocash.Prelude.{
  Text, ◌≡◌, ◌≢◌, refl, sym, ap, subst, ◌∙◌, ◌⊎◌, Bool, true, false, Option, none, some, List, [],
  ◌∷◌, ◌++◌, ◌==◌, ◌||◌, arith, Bool-cases, Option-cases, inl, inr, ==_refl, ==→≡,
}
use picocash.Dict.{lookup, put, lookup-put}
use picocash.Acceptor.{empty_text}
use picocash.Reserves.Collisions.{
  TrackReason, attested, listed, major, active, collision, Collidable, Reference, Basis, Pick,
  is_symbol_bound, any_of, or_empty, by_symbol, contested, pick_of, strip, resolve,
}

strip-any_of : (rs : List TrackReason) → any_of is_symbol_bound (strip rs) ≡ false
unfolding strip
strip-any_of [] = refl
strip-any_of (attested ∷ rs) = strip-any_of rs
strip-any_of (listed ∷ rs) = strip-any_of rs
strip-any_of (major ∷ rs) = strip-any_of rs
strip-any_of (active ∷ rs) = strip-any_of rs
strip-any_of (collision ∷ rs) = strip-any_of rs

any_of-++ :
    (p : Collidable → Bool) (xs ys : List Collidable)
    → any_of p (xs ++ ys) ≡ (any_of p xs || any_of p ys)
any_of-++ p [] ys = refl
any_of-++ p (x ∷ xs) ys = ground (arith, any_of-++ p xs ys)

module _ (p : Collidable → Bool) (symbol : Text) where
  abbrev Found : List (Text × List Collidable) → Type 0
  Found groups = any_of p (or_empty (lookup symbol groups)) ≡ true

  add_token-Found :
      (t : Collidable) (groups : List (Text × List Collidable))
      → Found groups
      → Found (put t.symbol (or_empty (lookup t.symbol groups) ++ (t ∷ [])) groups)
  add_token-Found t groups h =
      let group = or_empty (lookup t.symbol groups) ++ (t ∷ []) in
      elim (Bool-cases (t.symbol == symbol)) [
        | inr miss ↦ rw (lookup-put symbol t.symbol group groups, miss) h
        | inl hit ↦
            let same : t.symbol ≡ symbol = ==→≡ t.symbol symbol hit in
            rw (lookup-put symbol t.symbol group groups, hit)
              (ground (
                arith,
                any_of-++ p (or_empty (lookup t.symbol groups)) (t ∷ []),
                subst (λ s. any_of p (or_empty (lookup s groups)) ≡ true) (sym same) h,
              ))
      ]

  put-Found :
      (t : Collidable) (groups : List (Text × List Collidable))
      → t.symbol ≡ symbol
      → p t ≡ true
      → Found (put t.symbol (or_empty (lookup t.symbol groups) ++ (t ∷ [])) groups)
  put-Found t groups same holds =
      let group = or_empty (lookup t.symbol groups) ++ (t ∷ []) in
      let hit : (t.symbol == symbol) ≡ true =
        ap (λ s. t.symbol == s) (sym same) ∙ ==_refl t.symbol in
      rw (lookup-put symbol t.symbol group groups, hit)
        (ground (arith, any_of-++ p (or_empty (lookup t.symbol groups)) (t ∷ []), holds))

  by_symbol-keeps :
      (ts : List Collidable) (groups : List (Text × List Collidable))
      → Found groups
      → Found (by_symbol ts groups)
  unfolding by_symbol
  by_symbol-keeps [] groups h = h
  by_symbol-keeps (t ∷ ts) groups h = elim (Bool-cases (t.symbol == empty_text)) [
    | inl empty ↦ rw (by_symbol, empty) (by_symbol-keeps ts groups h)
    | inr named ↦ rw (by_symbol, named) (by_symbol-keeps ts _ (add_token-Found t groups h))
  ]

  by_symbol-finds :
      (t : Collidable) (before after : List Collidable) (groups : List (Text × List Collidable))
      → t.symbol ≡ symbol
      → (t.symbol == empty_text) ≡ false
      → p t ≡ true
      → Found (by_symbol (before ++ (t ∷ after)) groups)
  unfolding by_symbol
  by_symbol-finds t [] after groups same named holds =
      rw (by_symbol, named) (by_symbol-keeps after _ (put-Found t groups same holds))
  by_symbol-finds t (u ∷ before) after groups same named holds =
      by_symbol-finds t before after _ same named holds

abbrev pub recognized : List Collidable → List (Text × Reference) → Collidable → Bool
recognized tokens references t = any_of is_symbol_bound (resolve tokens references t).token.tracked

-- What a token that is still recognized shows.
recognized-cases :
    (tokens : List Collidable) (references : List (Text × Reference)) (t : Collidable)
    → recognized tokens references t ≡ true
    → ((pick_of tokens references t.symbol ≡ none) × (any_of is_symbol_bound t.tracked ≡ true))
      ⊎ ((c : Collidable) × (basis : Basis) × (pick_of tokens references t.symbol
            ≡ some (some c, basis))
          × (c.address ≡ t.address))
unfolding resolve
recognized-cases tokens references t h = elim (Option-cases (pick_of tokens references t.symbol)) [
  | inl free ↦ inl (free, rw (resolve, free) at h)
  | inr ((none, basis), picked) ↦ absurd (cc (rw (resolve, picked) at h, strip-any_of t.tracked))
  | inr ((some c, basis), picked) ↦ elim (Bool-cases (c.address == t.address)) [
    | inl canonical ↦ inr (c, basis, picked, ==→≡ c.address t.address canonical)
    | inr other ↦ absurd (cc (rw (resolve, picked, other) at h, strip-any_of t.tracked))
  ]
]

-- A symbol that a token of the list is recognized under has a pick.
pick_of-listed :
    (references : List (Text × Reference)) (t : Collidable) (before after : List Collidable)
    → (t.symbol == empty_text) ≡ false
    → any_of is_symbol_bound t.tracked ≡ true
    → pick_of (before ++ (t ∷ after)) references t.symbol ≢ none
unfolding pick_of contested
pick_of-listed references t before after named bound free =
    let found =
      by_symbol-finds (λ (u : Collidable). any_of is_symbol_bound u.tracked) t.symbol t before after
        [] refl named bound in
    elim (Option-cases (lookup t.symbol (by_symbol (before ++ (t ∷ after)) []))) [
      | inl missing ↦ absurd (cc (rw missing at found))
      | inr (group, there) ↦
          absurd (ground (arith, rw there at found, rw (pick_of, there, contested) at free))
    ]

-- Of two tokens of the list with one symbol, both of which `resolveCollisions` leaves recognized under
-- it, the addresses are the same.
pub resolve_unique :
    (references : List (Text × Reference)) (t u : Collidable) (before after : List Collidable)
    → (t.symbol == empty_text) ≡ false
    → u.symbol ≡ t.symbol
    → recognized (before ++ (t ∷ after)) references t ≡ true
    → recognized (before ++ (t ∷ after)) references u ≡ true
    → t.address ≡ u.address
resolve_unique references t u before after named same first second =
    let tokens = before ++ (t ∷ after) in
    elim (recognized-cases tokens references t first) [
      | inl (free, bound) ↦ absurd (pick_of-listed references t before after named bound free)
      | inr (c, basis, picked, mine) ↦ elim (recognized-cases tokens references u second) [
        | inl (free, bound) ↦
            absurd (cc (picked, subst (λ s. pick_of tokens references s ≡ none) same free))
        | inr (d, basis', picked', theirs) ↦
            let agree : ◌≡◌ {A = Option Pick} (some (some c, basis)) (some (some d, basis')) =
              sym picked
              ∙ subst (λ s. pick_of tokens references s ≡ some (some d, basis')) same picked' in
            cc (agree, mine, theirs)
      ]
    ]
