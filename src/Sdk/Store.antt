-- ===== src/Sdk/Store.antt =====
-- store.ts: the transitions that every proof store shares, on the snapshot that it persists.
-- `y_of` is `yOfSecret` of blinding.ts, a proof's identity.
pub mod Keys
pub mod Reservations
pub mod Transitions
pub mod Memory
pub mod Safety
pub mod Spend
use picocash.Prelude.{
  ℕ, ◌+◌, Text, Bool, true, false, not, Option, none, some, List, [], ◌∷◌, ◌++◌, map, contains,
  ◌==◌, if◌then◌else◌,
}
use picocash.Prelude.Int.{ℤ}
use picocash.Result.{Result, ok, err, ◌>>=◌}

pub record Dleq : Type 0 where
  pub e : Text
  pub s : Text
  pub r : Text

pub record Proof : Type 0 where
  pub amount : ℕ
  pub keyset_id : Text
  pub secret : Text
  pub c : Text
  pub dleq : Option Dleq
  pub witness : Option Text

pub data HistoryKind : Type 0 where
  receive send pay mint melt refund : HistoryKind

pub record HistoryEntry : Type 0 where
  pub at : ℕ
  pub kind : HistoryKind
  pub delta : ℤ
  pub ref : Option Text

-- `reserved` is an object, kept as its entries in order.
pub record WalletSnapshot : Type 0 where
  pub proofs : List Proof
  pub reserved : List (Text × List Proof)
  pub history : List HistoryEntry
  pub seq : ℕ

pub data StoreError : Type 0 where
  not_spendable no_reservation : StoreError

abbrev pub empty_snapshot : WalletSnapshot
empty_snapshot = record { proofs = []; reserved = []; history = []; seq = 0 }

unfoldable pub balance_of : List Proof → ℕ
balance_of [] = 0
balance_of (p ∷ ps) = p.amount + balance_of ps

-- `Object.values(reserved).flat()`
unfoldable pub flat : List (Text × List Proof) → List Proof
flat [] = []
flat ((id, ps) ∷ rest) = ps ++ flat rest

-- `reserved[id]`
unfoldable pub get_reserved : Text → List (Text × List Proof) → Option (List Proof)
get_reserved id [] = none
get_reserved id ((j, ps) ∷ rest) = if j == id then some ps else get_reserved id rest

-- `{ ...reserved, [id]: ps }`
unfoldable pub set_reserved :
    Text → List Proof → List (Text × List Proof) → List (Text × List Proof)
set_reserved id ps [] = (id, ps) ∷ []
set_reserved id ps ((j, qs) ∷ rest) =
    if j == id then (id, ps) ∷ rest else (j, qs) ∷ set_reserved id ps rest

-- `const { [id]: _, ...rest } = reserved`
unfoldable pub omit_reserved : Text → List (Text × List Proof) → List (Text × List Proof)
omit_reserved id [] = []
omit_reserved id ((j, qs) ∷ rest) =
    if j == id then omit_reserved id rest else (j, qs) ∷ omit_reserved id rest

-- `[...new Set(ys)]`, behind those in `seen`
unfoldable pub unique_from : List Text → List Text → List Text
unique_from seen [] = []
unique_from seen (y ∷ ys) = elim (contains y seen) [
  | true ↦ unique_from seen ys
  | false ↦ y ∷ unique_from (y ∷ seen) ys
]

module _ (y_of : Text → Text) where
  -- `proofs.filter(…)`, with `held` growing along the way
  unfoldable pub fresh_from : List Text → List Proof → List Proof
  fresh_from held [] = []
  fresh_from held (p ∷ ps) = elim (contains (y_of p.secret) held) [
    | true ↦ fresh_from held ps
    | false ↦ p ∷ fresh_from (y_of p.secret ∷ held) ps
  ]

  -- `new Map(proofs.map((p) => [y, p])).get(y)`: of two entries the later one stays.
  unfoldable pub map_get : Text → List Proof → Option Proof
  map_get y [] = none
  map_get y (p ∷ ps) = elim (map_get y ps) [
    | some later ↦ some later
    | none ↦ if y_of p.secret == y then some p else none
  ]

  -- `for (const y of want) if (!spendable.has(y)) throw …`, with the proofs that are found
  unfoldable pub pick : List Text → List Proof → Result StoreError (List Proof)
  pick [] ps = ok []
  pick (y ∷ ys) ps = elim (map_get y ps) [
    | none ↦ err not_spendable
    | some p ↦ pick ys ps >>= λ others. ok (p ∷ others)
  ]

  -- `s.proofs.filter((p) => !want.has(y))`
  unfoldable pub without : List Text → List Proof → List Proof
  without want [] = []
  without want (p ∷ ps) =
      if contains (y_of p.secret) want then without want ps else p ∷ without want ps

  unfoldable pub ys_of : List Proof → List Text
  ys_of [] = []
  ys_of (p ∷ ps) = y_of p.secret ∷ ys_of ps

  -- All that the snapshot holds: the spendable proofs, then the reserved ones.
  unfoldable pub holdings : WalletSnapshot → List Proof
  holdings s = s.proofs ++ flat s.reserved

  -- `entry && fresh.length ? [...s.history, entry] : s.history`
  extended : Option HistoryEntry → List Proof → List HistoryEntry → List HistoryEntry
  extended none fresh history = history
  extended (some entry) [] history = history
  extended (some entry) (p ∷ ps) history = history ++ entry ∷ []

  unfoldable pub add : WalletSnapshot → List Proof → Option HistoryEntry → WalletSnapshot
  unfolding extended
  add s proofs entry =
      let fresh = fresh_from (ys_of (holdings s)) proofs in
      record s {
        proofs = s.proofs ++ fresh;
        history = extended entry fresh s.history;
        seq = s.seq + 1;
      }

  unfoldable pub reserve : WalletSnapshot → List Proof → Text → Result StoreError WalletSnapshot
  reserve s proofs id = do
    let want = unique_from [] (ys_of proofs)
    picked ← pick want s.proofs
    ok (record s {
      proofs = without want s.proofs;
      reserved = set_reserved id picked s.reserved;
      seq = s.seq + 1;
    })

  unfoldable pub commit :
      WalletSnapshot → Text → List Proof → HistoryEntry → Result StoreError WalletSnapshot
  commit s id change entry = elim (get_reserved id s.reserved) [
    | none ↦ err no_reservation
    | some spent ↦
        let with_change = add (record s { reserved = omit_reserved id s.reserved }) change none in
        ok (record with_change { history = with_change.history ++ entry ∷ []; seq = s.seq + 1 })
  ]

  unfoldable pub release : WalletSnapshot → Text → Result StoreError WalletSnapshot
  release s id = elim (get_reserved id s.reserved) [
    | none ↦ err no_reservation
    | some back ↦ ok (record s {
      proofs = s.proofs ++ back;
      reserved = omit_reserved id s.reserved;
      seq = s.seq + 1;
    })
  ]
