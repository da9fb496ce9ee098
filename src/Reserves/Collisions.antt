-- ===== src/Reserves/Collisions.antt =====
-- apps/reserves/src/collisions.ts: which token carries the recognition of a symbol. Symbols are given as
-- they stand after `trim` and `toLowerCase`, and the empty text is no symbol.
pub mod Canonical
pub mod Closest
use picocash.Prelude.{
  ℕ, ◌+◌, ◌-◌, ◌*◌, Text, Bool, true, false, not, Option, none, some, List, [], ◌∷◌, ◌++◌, map,
  ◌==◌, ◌&&◌, ◌||◌, ltb, leb, if◌then◌else◌,
}
use picocash.Dict.{lookup, put}
use picocash.Acceptor.{empty_text}
use picocash.Reserves.Checks.{distance}

pub data TrackReason : Type 0 where
  attested listed major active collision : TrackReason

pub record Collidable : Type 0 where
  pub address : Text
  pub symbol : Text
  pub tempo_supply : ℕ
  pub tracked : List TrackReason

pub record Reference : Type 0 where
  pub tempo_supply : Option ℕ
  pub issuer_total : Option ℕ

pub data Basis : Type 0 where
  reference largest unique : Basis

pub record Resolved : Type 0 where
  pub token : Collidable
  pub canonical : Bool
  pub others : List Text
  pub canonical_address : Option Text
  pub basis : Basis
  pub given : Option Reference

abbrev pub Pick : Type 0
Pick = Option Collidable × Basis

abbrev pub is_symbol_bound : TrackReason → Bool
is_symbol_bound attested = true
is_symbol_bound listed = true
is_symbol_bound major = true
is_symbol_bound active = false
is_symbol_bound collision = false

abbrev pub is_collision : TrackReason → Bool
is_collision collision = true
is_collision _ = false

abbrev pub filter {ℓ} : {A : Type ℓ} → (A → Bool) → List A → List A
filter test [] = []
filter test (x ∷ xs) = let rest = filter test xs in if test x then x ∷ rest else rest

abbrev pub any_of {ℓ} : {A : Type ℓ} → (A → Bool) → List A → Bool
any_of test [] = false
any_of test (x ∷ xs) = test x || any_of test xs

-- `xs.reduce((best, x) => better(x, best) ? x : best)` with the first element as `best`.
abbrev pub reduce {ℓ} : {A : Type ℓ} → (A → A → Bool) → A → List A → A
reduce better best [] = best
reduce better best (x ∷ xs) = reduce better (if better x best then x else best) xs

abbrev pub is_positive : Option ℕ → Bool
is_positive none = false
is_positive (some n) = ltb 0 n

abbrev pub at_most : ℕ → Option ℕ → ℕ → Bool
at_most supply none bps = true
at_most supply (some limit) bps = leb (supply * 10000) (limit * (10000 + bps))

unfoldable pub eligible : Reference → Collidable → Bool
eligible ref t =
    if is_positive ref.issuer_total
    then at_most t.tempo_supply ref.issuer_total 100
    else if is_positive ref.tempo_supply
    then at_most t.tempo_supply ref.tempo_supply 10000
    else true

unfoldable pub has_reference : Option Reference → Bool
has_reference none = false
has_reference (some ref) = is_positive ref.issuer_total || is_positive ref.tempo_supply

-- `ref.tempoSupply ?? ref.issuerTotal`
abbrev pub target_of : Reference → ℕ
target_of ref = elim ref.tempo_supply [
  | some n ↦ n
  | none ↦ elim ref.issuer_total [ some n ↦ n | none ↦ 0 ]
]

abbrev pub closer : ℕ → Collidable → Collidable → Bool
closer target t best = ltb (distance t.tempo_supply target) (distance best.tempo_supply target)

abbrev pub larger : Collidable → Collidable → Bool
larger t best = ltb best.tempo_supply t.tempo_supply

abbrev pub pick_closest : ℕ → List Collidable → Option Collidable
pick_closest target [] = none
pick_closest target (t ∷ ts) = some (reduce (closer target) t ts)

-- The group is not empty.
abbrev pub pick_largest : List Collidable → Pick
pick_largest [] = (none, largest)
pick_largest (t ∷ []) = (some t, unique)
pick_largest (t ∷ u ∷ ts) = (some (reduce larger t (u ∷ ts)), largest)

unfoldable pub pick_canonical : List Collidable → Option Reference → Pick
pick_canonical group none = pick_largest group
pick_canonical group (some ref) =
    if has_reference (some ref)
    then (pick_closest (target_of ref) (filter (eligible ref) group), reference)
    else pick_largest group

abbrev pub or_empty {ℓ} : {A : Type ℓ} → Option (List A) → List A
or_empty none = []
or_empty (some xs) = xs

-- `bySymbol`
unfoldable pub by_symbol :
    List Collidable → List (Text × List Collidable) → List (Text × List Collidable)
by_symbol [] groups = groups
by_symbol (t ∷ ts) groups = by_symbol ts (
    if t.symbol == empty_text
    then groups
    else put t.symbol (or_empty (lookup t.symbol groups) ++ (t ∷ [])) groups)

unfoldable pub contested : Option Reference → List Collidable → Bool
contested ref group =
    has_reference ref || any_of (λ (t : Collidable). any_of is_symbol_bound t.tracked) group

-- What `canonicalBySymbol` has for a symbol.
unfoldable pub pick_of : List Collidable → List (Text × Reference) → Text → Option Pick
pick_of tokens references symbol = elim (lookup symbol (by_symbol tokens [])) [
  | none ↦ none
  | some group ↦
      if contested (lookup symbol references) group
      then some (pick_canonical group (lookup symbol references))
      else none
]

abbrev pub is_token : Text → Option Collidable → Bool
is_token address none = false
is_token address (some t) = t.address == address

unfoldable pub strip : List TrackReason → List TrackReason
strip reasons =
    filter (λ r. not (is_symbol_bound r) && not (is_collision r)) reasons ++ (collision ∷ [])

unfoldable pub resolve : List Collidable → List (Text × Reference) → Collidable → Resolved
resolve tokens references t = elim (pick_of tokens references t.symbol) [
  | none ↦ record {
    token = t;
    canonical = true;
    others = [];
    canonical_address = none;
    basis = unique;
    given = none;
  }
  | some (token, basis) ↦
      let canonical = is_token t.address token in
      record {
        token = if canonical then t else record t { tracked = strip t.tracked };
        canonical = canonical;
        others = map Collidable.address (
            filter (λ (x : Collidable). not (x.address == t.address))
              (or_empty (lookup t.symbol (by_symbol tokens []))));
        canonical_address =
            if canonical then none else elim token [ none ↦ none | some c ↦ some c.address ];
        basis = basis;
        given = lookup t.symbol references;
      }
]

unfoldable pub resolve_collisions : List Collidable → List (Text × Reference) → List Resolved
resolve_collisions tokens references = map (resolve tokens references) tokens
