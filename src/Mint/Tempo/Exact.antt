-- ===== src/Mint/Tempo/Exact.antt =====
-- vault-tempo.ts: scans of a chain, whatever calls fail, count each log of a settled block once.
use picocash.Prelude.{ℕ, ◌-◌, ◌≤◌, ◌≡◌, Text, Option, List, [], ◌∷◌, ◌++◌, All, ◌⊎◌}
use picocash.Result.{ok}
use picocash.Mint.Tempo.{TransferLog, ChainReader, TempoVault, scan}
use picocash.Mint.Tempo.Ledger.{IsLedger}
use picocash.Mint.Tempo.Loop.{Counted}
use picocash.Mint.Tempo.Books.{reported, ended_head, Books}

-- A block that is settled by the head that one of the clients reports.
abbrev pub IsSettled : {E : Type 0} → ℕ → List (ChainReader E) → ℕ → Type 0
IsSettled confirmations [] b = ⊥
IsSettled confirmations (client ∷ clients) b =
    ((head : ℕ) × (reported client ≡ ok head) × (b ≤ head - confirmations))
    ⊎ IsSettled confirmations clients b

module _ (lower slice : Text → Text) (log_key : Option Text → Option ℕ → Text) where
  -- One refresh after the other, each with what the client answers then.
  unfoldable pub run_scans : {E : Type 0} → List (ChainReader E) → TempoVault → TempoVault
  run_scans [] v = v
  run_scans (client ∷ clients) v = run_scans clients ((scan lower slice log_key client v).1)

  -- The heads of the scans that ended, the first one first.
  unfoldable pub ended_heads : {E : Type 0} → List (ChainReader E) → TempoVault → List ℕ
  ended_heads [] v = []
  ended_heads (client ∷ clients) v =
      ended_head ((scan lower slice log_key client v).0) (reported client)
      ++ ended_heads clients ((scan lower slice log_key client v).1)

  module _ (P : TransferLog → Type 0) (chain : ℕ → List TransferLog) where
    -- The totals are those of distinct logs with the property, and from the lookback behind the
    -- settled block of the first scan that ended, no log of a block is missing that is settled for a
    -- scan that ended.
    pub record IsExact (confirmations lookback : ℕ) (heads : List ℕ) (v : TempoVault) : Type 0 where
      pub taken : List TransferLog
      pub ledger : IsLedger lower slice log_key P v taken
      pub covered :
          (first : ℕ) (others : List ℕ)
          → heads ≡ first ∷ others
          → (b : ℕ) → first - confirmations - lookback ≤ b
          → All
              (λ head. b ≤ head - confirmations → All (Counted lower slice log_key v) (chain b))
              heads
