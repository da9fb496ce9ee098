-- ===== src/Mint/Tempo.antt =====
-- packages/mint/src/vault-tempo.ts, `TempoVault`: deposits found by scanning the chain. Calls of the
-- chain are parameters, told apart by the attempt; a refresh is one call of `scan`, since the source
-- lets no second scan start before the first has ended. `lower`, `slice` and `log_key` stand for the
-- string methods: `toLowerCase`, `slice(2)` and the text `tx:logIndex`.
pub mod Ledger
pub mod Chain
pub mod Loop
pub mod Books
pub mod Exact
pub mod Ends
pub mod Binding
mod Tests
use picocash.Prelude.{
  ℕ, zero, suc, ◌+◌, ◌-◌, Text, Bool, true, false, not, Option, none, some, List, [], ◌∷◌, ◌==◌,
  ◌||◌, ltb, leb, if◌then◌else◌, contains,
}
use picocash.Result.{Result, ok, err, ◌>>=◌}
use picocash.Dict.{lookup, put}
use picocash.Acceptor.{empty_text, get_or}
use picocash.Sdk.Blinding.{max_safe_integer}

pub record Deposit : Type 0 where
  pub amount : ℕ
  pub tx_ref : Text

pub record TransferLog : Type 0 where
  pub memo : Option Text
  pub amount : Option ℕ
  pub transaction_hash : Option Text
  pub log_index : Option ℕ

-- `none` of `is_overdue` and `emergency_mode`: the client has no `readContract`.
pub record ChainReader (E : Type 0) : Type 0 where
  pub is_rate_limit : E → Bool
  pub get_block_number : ℕ → Result E ℕ
  pub get_logs : ℕ → ℕ → ℕ → Result E (List TransferLog)
  pub is_overdue : Option (Result E Bool)
  pub emergency_mode : Result E Bool

pub record TempoVault : Type 0 where
  pub confirmations : ℕ
  pub lookback_blocks : ℕ
  pub cursor : Option ℕ
  pub totals : List (Text × Deposit)
  pub seen : List Text
  pub overdue_cache : Option (Bool × ℕ)

unfoldable pub new_vault : Option ℕ → Option ℕ → TempoVault
new_vault confirmations lookback_blocks = record {
  confirmations = get_or confirmations 1;
  lookback_blocks = get_or lookback_blocks 5000;
  cursor = none;
  totals = [];
  seen = [];
  overdue_cache = none;
}

pub data VaultError (E : Type 0) : Type 0 where
  chain : E → VaultError E
  unsafe_amount : VaultError E

module _ {E : Type 0} where
  -- The attempts from the `i`-th on, with so many left after it.
  unfoldable pub retry : {A : Type 0} → (E → Bool) → (ℕ → Result E A) → ℕ → ℕ → Result E A
  retry is_rate_limit fn i zero = fn i
  retry is_rate_limit fn i (suc left) = elim (fn i) [
    | ok a ↦ ok a
    | err e ↦ elim (is_rate_limit e) [ true ↦ retry is_rate_limit fn (suc i) left | false ↦ err e ]
  ]

  -- `withRetry(fn)`, with its five attempts.
  unfoldable pub with_retry : {A : Type 0} → (E → Bool) → (ℕ → Result E A) → Result E A
  with_retry is_rate_limit fn = retry is_rate_limit fn 0 4

abbrev pub chunk : ℕ
chunk = 10000

abbrev pub min : ℕ → ℕ → ℕ
min a b = if ltb a b then a else b

-- `settled`
unfoldable pub settled_at : ℕ → ℕ → ℕ
settled_at head confirmations = if ltb confirmations head then head - confirmations else 0

-- Where a scan starts.
unfoldable pub start_at : Option ℕ → ℕ → ℕ → ℕ
start_at (some cursor) lookback settled = cursor
start_at none lookback settled = if ltb lookback settled then settled - lookback else 0

abbrev pub to_block : ℕ → ℕ → ℕ
to_block cursor settled = min (cursor + chunk - 1) settled

abbrev pub fetch : {E : Type 0} → ChainReader E → ℕ → ℕ → Result E (List TransferLog)
fetch client from to = with_retry client.is_rate_limit (client.get_logs from to)

abbrev pub amount_of : Option Deposit → ℕ
amount_of none = 0
amount_of (some d) = d.amount

-- The log's memo and amount, where it has both.
unfoldable pub usable : TransferLog → Option (Text × ℕ)
usable log = elim log.memo [
  | none ↦ none
  | some memo ↦ elim log.amount [
    | none ↦ none
    | some amount ↦ if memo == empty_text then none else some (memo, amount)
  ]
]

module _ (lower slice : Text → Text) (log_key : Option Text → Option ℕ → Text) where
  abbrev pub quote_of : Text → Text
  quote_of memo = lower (slice memo)

  abbrev pub key_of : TransferLog → Text
  key_of log = log_key log.transaction_hash log.log_index

  -- The body of the loop over the logs.
  unfoldable pub take_log : TransferLog → TempoVault → TempoVault
  take_log log v = elim (usable log) [
    | none ↦ v
    | some (memo, amount) ↦ if contains (key_of log) v.seen then v else record v {
      seen = key_of log ∷ v.seen;
      totals =
          put (quote_of memo)
            (record {
              amount = amount_of (lookup (quote_of memo) v.totals) + amount;
              tx_ref = get_or log.transaction_hash (key_of log);
            })
            v.totals;
    }
  ]

  unfoldable pub take_logs : List TransferLog → TempoVault → TempoVault
  take_logs [] v = v
  take_logs (log ∷ logs) v = take_logs logs (take_log log v)

  module _ {E : Type 0} (client : ChainReader E) where
    -- The loop over the chunks; the first number bounds its rounds.
    unfoldable pub scan_loop : ℕ → ℕ → ℕ → TempoVault → Result E ℕ × TempoVault
    scan_loop zero cursor settled v = (ok cursor, v)
    scan_loop (suc fuel) cursor settled v = elim (leb cursor settled) [
      | false ↦ (ok cursor, v)
      | true ↦ elim (fetch client cursor (to_block cursor settled)) [
        | err e ↦ (err e, v)
        | ok logs ↦ scan_loop fuel (to_block cursor settled + 1) settled (take_logs logs v)
      ]
    ]

    abbrev pub set_cursor : Result E ℕ × TempoVault → Result E (Unit {0}) × TempoVault
    set_cursor (ok cursor, v) = (ok tt, record v { cursor = some cursor })
    set_cursor (err e, v) = (err e, v)

    unfoldable pub scan : TempoVault → Result E (Unit {0}) × TempoVault
    scan v = elim (with_retry client.is_rate_limit client.get_block_number) [
      | err e ↦ (err e, v)
      | ok head ↦
          let settled = settled_at head v.confirmations in
          let cursor = start_at v.cursor v.lookback_blocks settled in
          set_cursor (scan_loop (settled + 1 - cursor) cursor settled v)
    ]

    abbrev pub as_deposit : Option Deposit → Result (VaultError E) (Option Deposit)
    as_deposit none = ok none
    as_deposit (some d) = if ltb max_safe_integer d.amount then err unsafe_amount else ok (some d)

    unfoldable pub get_deposit :
        Text → TempoVault → Result (VaultError E) (Option Deposit) × TempoVault
    get_deposit quote_id v =
        let (scanned, v') = scan v in
        elim scanned [
          | err e ↦ (err (chain e), v')
          | ok _ ↦ (as_deposit (lookup (lower quote_id) v'.totals), v')
        ]

    -- The answer that was kept, where it is younger than 30 seconds.
    abbrev pub fresh : Option (Bool × ℕ) → ℕ → Option Bool
    fresh none now = none
    fresh (some (value, at)) now = if ltb (now - at) 30000 then some value else none

    -- An exception counts as no emergency.
    abbrev pub or_false : Result E Bool → Bool
    or_false (ok b) = b
    or_false (err e) = false

    unfoldable pub is_publication_overdue : ℕ → TempoVault → Result E Bool × TempoVault
    is_publication_overdue now v = elim (fresh v.overdue_cache now) [
      | some value ↦ (ok value, v)
      | none ↦ elim client.is_overdue [
        | none ↦ (ok false, v)
        | some (err e) ↦ (err e, v)
        | some (ok overdue) ↦
            let value = overdue || or_false client.emergency_mode in
            (ok value, record v { overdue_cache = some (value, now) })
      ]
    ]
