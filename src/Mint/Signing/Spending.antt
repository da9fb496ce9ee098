-- ===== src/Mint/Signing/Spending.antt =====
-- What `spendInputs` of signing.ts does to the spent ledger.
use picocash.Prelude.{
  ◌+◌, Text, ◌≡◌, ap, sym, true, All, map, ==→≡, ==_refl, Bool-cases, none, some, List, [], ◌∷◌,
  arith, ◌==◌, contains, sum_by, inl, inr, subst,
}
use picocash.Result.{ok, err, >>=-eq-ok, Result-cases}
use picocash.Table.{find, insert, Distinct}
use picocash.Mint.Data.{VerifiedInput, SpentSecret, Db, Failure, api_error, token_already_spent}
use picocash.Mint.Solvency.{spent_amount}
use picocash.Mint.Signing.{spend_input, spend_inputs}
use picocash.Mint.Signing.Inputs.{input_amount}

abbrev pub spent_row : VerifiedInput → SpentSecret
spent_row v = record { y = v.y; keyset_id = v.keyset_id; amount = v.amount }

-- The ledger with the rows of the inputs in it.
abbrev pub with_rows : List VerifiedInput → List SpentSecret → List SpentSecret
with_rows [] ledger = ledger
with_rows (v ∷ vs) ledger = with_rows vs (spent_row v ∷ ledger)

-- Whether a ledger key is recorded as spent.
abbrev pub IsSpent : Text → Db → Type 0
IsSpent y db = (row : SpentSecret) × (find SpentSecret.y y db.spent_secrets ≡ some row)

abbrev pub NoneSpent : List VerifiedInput → List SpentSecret → Type 0
NoneSpent [] ledger = Unit
NoneSpent (v ∷ vs) ledger =
    (find SpentSecret.y v.y ledger ≡ none) × NoneSpent vs (spent_row v ∷ ledger)

spend_input-eq-ok :
    (v : VerifiedInput) (db : Db) (r : Unit × Db)
    → spend_input v db ≡ ok r
    → (find SpentSecret.y v.y db.spent_secrets ≡ none)
      × (record db { spent_secrets = spent_row v ∷ db.spent_secrets } ≡ r.1)
unfolding spend_input insert
spend_input-eq-ok v db r h = ground arith

-- Success means that no key was spent before, and the ledger grows by exactly the inputs' rows.
pub spend_inputs-eq-ok :
    (vs : List VerifiedInput) (db : Db) (r : Unit × Db)
    → spend_inputs vs db ≡ ok r
    → NoneSpent vs db.spent_secrets
      × (record db { spent_secrets = with_rows vs db.spent_secrets } ≡ r.1)
unfolding spend_inputs
spend_inputs-eq-ok [] db r h = (tt, ground arith)
spend_inputs-eq-ok (v ∷ vs) db r h =
    let (s, e, h₁) = >>=-eq-ok (spend_input v db) _ h in
    let (free, step) = spend_input-eq-ok v db s e in
    let (others, all) =
      subst
        (λ (d : Db).
          NoneSpent vs d.spent_secrets
          × (record d { spent_secrets = with_rows vs d.spent_secrets } ≡ r.1))
        (sym step) (spend_inputs-eq-ok vs s.1 r h₁) in
    ((free, others), all)

-- The ledger of a keyset grows by what the inputs count for it.
pub sum_by-with_rows :
    (keyset : Text) (vs : List VerifiedInput) (ledger : List SpentSecret)
    → sum_by (spent_amount keyset) (with_rows vs ledger)
      ≡ sum_by (spent_amount keyset) ledger + sum_by (input_amount keyset) vs
unfolding spent_amount
sum_by-with_rows keyset [] ledger = omega arith
sum_by-with_rows keyset (v ∷ vs) ledger =
    rw (sum_by-with_rows keyset vs (spent_row v ∷ ledger)) (ground arith)

pub with_rows-Distinct :
    (vs : List VerifiedInput) (ledger : List SpentSecret)
    → NoneSpent vs ledger
    → Distinct SpentSecret.y ledger
    → Distinct SpentSecret.y (with_rows vs ledger)
with_rows-Distinct [] ledger n d = d
with_rows-Distinct (v ∷ vs) ledger n d = with_rows-Distinct vs (spent_row v ∷ ledger) n.1 (n.0, d)

-- What is spent stays spent.
pub find-with_rows :
    (y : Text) (row : SpentSecret) (vs : List VerifiedInput) (ledger : List SpentSecret)
    → NoneSpent vs ledger
    → find SpentSecret.y y ledger ≡ some row
    → find SpentSecret.y y (with_rows vs ledger) ≡ some row
find-with_rows y row [] ledger n h = h
find-with_rows y row (v ∷ vs) ledger n h =
    find-with_rows y row vs (spent_row v ∷ ledger) n.1
      (unfold find in ground (arith, h, n.0, ==→≡ v.y y))

-- The keys of the inputs are spent afterwards.
pub AllSpent-with_rows :
    (vs : List VerifiedInput) (ledger : List SpentSecret)
    → NoneSpent vs ledger
    → All (λ v. find SpentSecret.y v.y (with_rows vs ledger) ≡ some (spent_row v)) vs
AllSpent-with_rows [] ledger n = tt
AllSpent-with_rows (v ∷ vs) ledger n = (
  find-with_rows v.y (spent_row v) vs (spent_row v ∷ ledger) n.1 (unfold find in rw ==_refl),
  AllSpent-with_rows vs (spent_row v ∷ ledger) n.1,
)

-- Had a key among the inputs been spent before, the inputs could not be spent together.
pub NoneSpent-spent :
    (y : Text) (row : SpentSecret) (vs : List VerifiedInput) (ledger : List SpentSecret)
    → contains y (map (λ v. v.y) vs) ≡ true
    → NoneSpent vs ledger
    → find SpentSecret.y y ledger ≡ some row
    → ⊥
NoneSpent-spent y row [] ledger m n h = cc
NoneSpent-spent y row (v ∷ vs) ledger m n h = elim (Bool-cases (v.y == y)) [
  | inl same ↦ cc (n.0, h, ap (λ k. find SpentSecret.y k ledger) (==→≡ v.y y same))
  | inr other ↦
      NoneSpent-spent y row vs (spent_row v ∷ ledger) (rw other at m) n.1
        (unfold find in rw other h)
]

spend_input-eq-err :
    (v : VerifiedInput) (db : Db) (e : Failure)
    → spend_input v db ≡ err e
    → e ≡ api_error 409 token_already_spent
unfolding spend_input
spend_input-eq-err v db e h = ground arith

-- The only way to fail is a key that is already spent.
pub spend_inputs-eq-err :
    (vs : List VerifiedInput) (db : Db) (e : Failure)
    → spend_inputs vs db ≡ err e
    → e ≡ api_error 409 token_already_spent
unfolding spend_inputs
spend_inputs-eq-err [] db e h = cc
spend_inputs-eq-err (v ∷ vs) db e h = elim (Result-cases (spend_input v db)) [
  | inl (s, ok₁) ↦ spend_inputs-eq-err vs s.1 e (rw ok₁ at h)
  | inr (e₁, failed) ↦ ground (arith, spend_input-eq-err v db e₁ failed)
]
