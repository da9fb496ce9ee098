-- ===== src/Mint/Tempo/Ledger.antt =====
-- vault-tempo.ts: what a vault's totals say of the logs that it took.
use picocash.Prelude.{
  ℕ, ◌+◌, ◌≡◌, refl, sym, subst, ap, ap₂, ==→≡, ◌∙◌, Text, false, Option, none, some, List, [], ◌∷◌,
  map, arith, ◌==◌, if◌then◌else◌, contains, All, sum_by, inl, inr, Bool-cases, Option-cases,
}
use picocash.Dict.{lookup, put, lookup-put}
use picocash.Mint.Tempo.{
  Deposit, TransferLog, TempoVault, amount_of, quote_of, usable, key_of, take_log, take_logs,
  new_vault,
}

module _ (lower slice : Text → Text) (log_key : Option Text → Option ℕ → Text) where
  abbrev pub keys_of : List TransferLog → List Text
  keys_of = map (key_of lower slice log_key)

  -- What a log adds to a quote.
  unfoldable pub credit : Text → TransferLog → ℕ
  credit quote log = elim (usable log) [
    | none ↦ 0
    | some (memo, amount) ↦ if quote_of lower slice log_key memo == quote then amount else 0
  ]

  abbrev pub Distinct : List Text → Type 0
  Distinct [] = Unit
  Distinct (k ∷ ks) = (contains k ks ≡ false) × Distinct ks

  -- The logs that were taken, the newest first.
  pub record IsLedger (P : TransferLog → Type 0) (v : TempoVault) (taken : List TransferLog)
      : Type 0 where
    pub seen : v.seen ≡ keys_of taken
    pub distinct : Distinct (keys_of taken)
    pub exact : (quote : Text) → amount_of (lookup quote v.totals) ≡ sum_by (credit quote) taken
    pub real : All P taken

  amount-put :
      (quote key : Text) (n : ℕ) (d : Deposit) (totals : List (Text × Deposit))
      → d.amount ≡ amount_of (lookup key totals) + n
      → amount_of (lookup quote (put key d totals))
        ≡ (if key == quote then n else 0) + amount_of (lookup quote totals)
  amount-put quote key n d totals h = elim (Bool-cases (key == quote)) [
    | inl same ↦
        let moved = ap (λ t. amount_of (lookup t totals)) (==→≡ key quote same) in
        rw (lookup-put quote key d totals, same) (omega (arith, h, moved))
    | inr other ↦ rw (lookup-put quote key d totals, other) (omega arith)
  ]

  module _ (P : TransferLog → Type 0) where
    take_log-IsLedger :
        (log : TransferLog) (v : TempoVault) (taken : List TransferLog)
        → P log
        → IsLedger P v taken
        → (taken' : List TransferLog) × IsLedger P (take_log lower slice log_key log v) taken'
    unfolding take_log credit
    take_log-IsLedger log v taken p i = elim (Option-cases (usable log)) [
      | inl e ↦ (taken, rw (take_log, e) i)
      | inr ((memo, amount), e) ↦
          elim (Bool-cases (contains (key_of lower slice log_key log) v.seen)) [
            | inl old ↦ (taken, rw (take_log, e, old) i)
            | inr new ↦ (
              log ∷ taken,
              rw (take_log, e, new)
                  (record {
                    seen = ap (λ ks. key_of lower slice log_key log ∷ ks) i.seen;
                    distinct = (
                      subst (λ ks. contains (key_of lower slice log_key log) ks ≡ false) i.seen new,
                      i.distinct,
                    );
                    exact = λ quote.
                        amount-put quote (quote_of lower slice log_key memo) amount _ v.totals refl
                        ∙ ap₂ (λ a b. a + b) (sym (rw (credit, e) refl)) (i.exact quote);
                    real = (p, i.real);
                  }),
            )
          ]
    ]

    pub take_logs-IsLedger :
        (logs : List TransferLog) (v : TempoVault) (taken : List TransferLog)
        → All P logs
        → IsLedger P v taken
        → (taken' : List TransferLog) × IsLedger P (take_logs lower slice log_key logs v) taken'
    unfolding take_logs
    take_logs-IsLedger [] v taken ps i = (taken, i)
    take_logs-IsLedger (log ∷ logs) v taken ps i =
        let (taken', i') = take_log-IsLedger log v taken ps.0 i in
        take_logs-IsLedger logs (take_log lower slice log_key log v) taken' ps.1 i'

    pub new_vault-IsLedger :
        (confirmations lookback : Option ℕ) → IsLedger P (new_vault confirmations lookback) []
    unfolding new_vault lookup
    new_vault-IsLedger confirmations lookback = record {
      seen = refl;
      distinct = tt;
      exact = λ quote. refl;
      real = tt;
    }
