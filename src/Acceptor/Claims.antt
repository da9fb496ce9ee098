-- ===== src/Acceptor/Claims.antt =====
-- kv-store.ts: `accept` of `KvAcceptorStore` as a thread that claims keys one by one in a store that
-- other threads use too. Each take_step is one call of the client, and any order of the threads' steps may
-- happen. No claim expires here: the statements hold until a claim's retention ends.
pub mod Ownership
pub mod Exclusive
use picocash.Prelude.{
  ℕ, zero, suc, ◌+◌, Text, Bool, true, false, not, Option, none, some, List, [], ◌∷◌, ◌==◌, ◌||◌,
  if◌then◌else◌, sum_by,
}
use mathlib.Core.Option

-- `paidKey(id)` and `yKey(y)`, told apart by their prefixes.
pub data ClaimKey : Type 0 where
  paid_key : Text → ClaimKey
  y_key : Text → ClaimKey

abbrev pub same_key : ClaimKey → ClaimKey → Bool
same_key (paid_key a) (paid_key b) = a == b
same_key (paid_key a) (y_key b) = false
same_key (y_key a) (paid_key b) = false
same_key (y_key a) (y_key b) = a == b

-- The keys that are set.
abbrev pub Kv : Type 0
Kv = List ClaimKey

unfoldable pub has_key : ClaimKey → Kv → Bool
has_key k [] = false
has_key k (j ∷ kv) = same_key k j || has_key k kv

-- `hasAnyY`
unfoldable pub has_any_claim : List Text → Kv → Bool
has_any_claim [] kv = false
has_any_claim (y ∷ ys) kv = has_key (y_key y) kv || has_any_claim ys kv

unfoldable pub delete_key : ClaimKey → Kv → Kv
delete_key k [] = []
delete_key k (j ∷ kv) = if same_key k j then delete_key k kv else j ∷ delete_key k kv

-- Where a call of `accept` is: before its first claim; with the keys claimed and those left;
-- rolling back the claims left; or finished. A thread that `died` answered nothing.
pub data Phase : Type 0 where
  fresh : Phase
  claiming : List Text → List Text → Phase
  rolling_back : List Text → Phase
  accepted refused died : Phase

pub record Thread : Type 0 where
  pub id : Text
  pub ys : List Text
  pub phase : Phase

-- What happens next to a thread: its next call succeeds, one deletion of its rollback succeeds or
-- fails, or its process dies.
pub data Event : Type 0 where
  proceed : Event
  delete_nth : ℕ → Event
  skip_nth : ℕ → Event
  die : Event

abbrev pub take_nth : ℕ → List Text → Option (Text × List Text)
take_nth n [] = none
take_nth zero (y ∷ ys) = some (y, ys)
take_nth (suc n) (y ∷ ys) = Option.map (λ (r : Text × List Text). (r.0, y ∷ r.1)) (take_nth n ys)

unfoldable pub to_phase : Thread → Phase → Thread
to_phase t phase = record t { phase = phase }

unfoldable pub advance_phase : Event → Thread → Phase → Kv → Thread × Kv
unfolding to_phase
advance_phase proceed t Phase.fresh kv =
    if has_key (paid_key t.id) kv
    then (to_phase t refused, kv)
    else (to_phase t (claiming [] t.ys), paid_key t.id ∷ kv)
advance_phase proceed t (Phase.claiming claimed []) kv = (to_phase t accepted, kv)
advance_phase proceed t (Phase.claiming claimed (y ∷ left)) kv =
    if has_key (y_key y) kv
    then (to_phase t (rolling_back claimed), kv)
    else (to_phase t (claiming (y ∷ claimed) left), y_key y ∷ kv)
advance_phase proceed t (Phase.rolling_back []) kv =
    (to_phase t refused, delete_key (paid_key t.id) kv)
advance_phase (delete_nth n) t (Phase.rolling_back left) kv = elim (take_nth n left) [
  | none ↦ (t, kv)
  | some (y, others) ↦ (to_phase t (rolling_back others), delete_key (y_key y) kv)
]
advance_phase (skip_nth n) t (Phase.rolling_back []) kv = (to_phase t refused, kv)
advance_phase (skip_nth n) t (Phase.rolling_back (x ∷ left)) kv = elim (take_nth n (x ∷ left)) [
  | none ↦ (t, kv)
  | some (y, others) ↦ (to_phase t (rolling_back others), kv)
]
advance_phase die t Phase.fresh kv = (to_phase t died, kv)
advance_phase die t (Phase.claiming claimed left) kv = (to_phase t died, kv)
advance_phase die t (Phase.rolling_back left) kv = (to_phase t died, kv)
advance_phase event t phase kv = (t, kv)

unfoldable pub advance : Event → Thread → Kv → Thread × Kv
unfolding advance_phase
advance event t kv = advance_phase event t t.phase kv

-- The thread at a place takes a step.
unfoldable pub take_step : ℕ → Event → List Thread → Kv → List Thread × Kv
take_step n event [] kv = ([], kv)
take_step zero event (t ∷ ts) kv = let (t', kv') = advance event t kv in (t' ∷ ts, kv')
take_step (suc n) event (t ∷ ts) kv = let (ts', kv') = take_step n event ts kv in (t ∷ ts', kv')

-- A schedule is the list of which thread takes which take_step.
unfoldable pub run_schedule : List (ℕ × Event) → List Thread → Kv → List Thread × Kv
run_schedule [] ts kv = (ts, kv)
run_schedule ((n, event) ∷ schedule) ts kv =
    let (ts', kv') = take_step n event ts kv in run_schedule schedule ts' kv'
