-- ===== src/Mint/Tempo/Loop.antt =====
-- vault-tempo.ts: one scan from a block to a block, whatever calls fail.
use picocash.Prelude.{
  ℕ, zero, suc, ◌+◌, ◌-◌, ◌≤◌, ◌<◌, ◌≡◌, refl, sym, subst, ◌∙◌, Text, true, Option, none, List, [],
  ◌∷◌, arith, leb, contains, All, ◌⊎◌, inl, inr, Bool-cases, Option-cases, ==_refl,
}
use picocash.Result.{Result, ok, err, Result-cases, ok-eq-ok}
use picocash.Mint.Tempo.{
  TransferLog, ChainReader, TempoVault, key_of, usable, take_log, take_logs, fetch, to_block,
  scan_loop,
}
use picocash.Mint.Tempo.Ledger.{IsLedger, take_logs-IsLedger}
use picocash.Mint.Tempo.Chain.{blocks, Agrees, with_retry-eq-ok, All_weaken, blocks-All, All-blocks}

module _ (lower slice : Text → Text) (log_key : Option Text → Option ℕ → Text) where
  -- A log that counts, if it is one that can.
  abbrev pub Counted : TempoVault → TransferLog → Type 0
  Counted v log = (usable log ≡ none) ⊎ (contains (key_of lower slice log_key log) v.seen ≡ true)

  -- What a step keeps: the cursor, the options, and every log that counts.
  pub record Keeps (v v' : TempoVault) : Type 0 where
    pub cursor : v'.cursor ≡ v.cursor
    pub confirmations : v'.confirmations ≡ v.confirmations
    pub lookback : v'.lookback_blocks ≡ v.lookback_blocks
    pub counted : (log : TransferLog) → Counted v log → Counted v' log

  pub Keeps-refl : (v : TempoVault) → Keeps v v
  Keeps-refl v = record {
    cursor = refl;
    confirmations = refl;
    lookback = refl;
    counted = λ log c. c;
  }

  Keeps-trans : (u v w : TempoVault) → Keeps u v → Keeps v w → Keeps u w
  Keeps-trans u v w k l = record {
    cursor = l.cursor ∙ k.cursor;
    confirmations = l.confirmations ∙ k.confirmations;
    lookback = l.lookback ∙ k.lookback;
    counted = λ log c. l.counted log (k.counted log c);
  }

  take_log-Keeps :
      (log : TransferLog) (v : TempoVault)
      → Keeps v (take_log lower slice log_key log v)
        × Counted (take_log lower slice log_key log v) log
  unfolding take_log
  take_log-Keeps log v = elim (Option-cases (usable log)) [
    | inl e ↦ (rw (take_log, e) (Keeps-refl v), inl e)
    | inr ((memo, amount), e) ↦
        elim (Bool-cases (contains (key_of lower slice log_key log) v.seen)) [
          | inl old ↦ (rw (take_log, e, old) (Keeps-refl v), inr (rw (take_log, e, old) old))
          | inr new ↦ (
            rw (take_log, e, new)
                (record {
                  cursor = refl;
                  confirmations = refl;
                  lookback = refl;
                  counted = λ other c. elim c [
                    | inl unusable ↦ inl unusable
                    | inr held ↦ inr (ground (arith, held))
                  ];
                }),
            inr (rw (take_log, e, new, ==_refl (key_of lower slice log_key log)) refl),
          )
        ]
  ]

  take_logs-Keeps :
      (logs : List TransferLog) (v : TempoVault)
      → Keeps v (take_logs lower slice log_key logs v)
        × All (Counted (take_logs lower slice log_key logs v)) logs
  unfolding take_logs
  take_logs-Keeps [] v = (Keeps-refl v, tt)
  take_logs-Keeps (log ∷ logs) v =
      let v' = take_log lower slice log_key log v in
      let (first, counted) = take_log-Keeps log v in
      let (later, others) = take_logs-Keeps logs v' in
      (
        Keeps-trans v v' (take_logs lower slice log_key logs v') first later,
        (later.counted log counted, others),
      )

  module _ (P : TransferLog → Type 0) (chain : ℕ → List TransferLog) where
    -- What a loop from `cursor` to `settled` does, where it ends.
    pub record Looped {E : Type 0} (cursor settled : ℕ) (v : TempoVault)
        (r : Result E ℕ × TempoVault) : Type 0 where
      pub keeps : Keeps v r.1
      pub taken : List TransferLog
      pub ledger : IsLedger lower slice log_key P r.1 taken
      pub covers :
          (c : ℕ)
          → r.0 ≡ ok c
          → (settled < c)
            × (cursor ≤ c)
            × ((b : ℕ) → cursor ≤ b → b < c → All (Counted r.1) (chain b))

    module _ {E : Type 0} where
      ended-Looped :
          (cursor settled : ℕ) (v : TempoVault) (taken : List TransferLog)
          → settled < cursor
          → IsLedger lower slice log_key P v taken
          → Looped {E = E} cursor settled v (ok cursor, v)
      ended-Looped cursor settled v taken past i = record {
        keeps = Keeps-refl v;
        taken = taken;
        ledger = i;
        covers = λ c h.
            let same = ok-eq-ok h in
            (omega (arith, same), omega (arith, same), λ b m n. absurd (omega (arith, same)));
      }

      thrown-Looped :
          (cursor settled : ℕ) (v : TempoVault) (taken : List TransferLog) (e : E)
          → IsLedger lower slice log_key P v taken
          → Looped cursor settled v (err e, v)
      thrown-Looped cursor settled v taken e i = record {
        keeps = Keeps-refl v;
        taken = taken;
        ledger = i;
        covers = λ c h. absurd (cc h);
      }

      -- A round that took the blocks up to `to`, and what came after it.
      round-Looped :
          (cursor to settled : ℕ) (logs : List TransferLog) (v : TempoVault)
          (r : Result E ℕ × TempoVault)
          → cursor ≤ to
          → logs ≡ blocks chain cursor (to + 1 - cursor)
          → Looped (to + 1) settled (take_logs lower slice log_key logs v) r
          → Looped cursor settled v r
      round-Looped cursor to settled logs v r low given later =
          let (first, counted) = take_logs-Keeps logs v in
          record {
            keeps = Keeps-trans v (take_logs lower slice log_key logs v) r.1 first later.keeps;
            taken = later.taken;
            ledger = later.ledger;
            covers = λ c h.
                let (done, on, covered) = later.covers c h in
                (
                  done,
                  omega arith,
                  λ b m n. elim (Bool-cases (leb b to)) [
                    | inr after ↦ covered b (ground (arith, after)) n
                    | inl before ↦
                        let counted' =
                          subst (All (Counted (take_logs lower slice log_key logs v))) given
                            counted in
                        All_weaken (Counted (take_logs lower slice log_key logs v)) (Counted r.1)
                          (chain b) later.keeps.counted
                          (All-blocks (Counted (take_logs lower slice log_key logs v)) chain cursor
                            (to + 1 - cursor) b counted' m (ground (arith, before)))
                  ],
                );
          }

    module _ {E : Type 0} (client : ChainReader E) (agrees : Agrees chain client) where
      pub scan_loop-Looped :
          (fuel cursor settled : ℕ) (v : TempoVault) (taken : List TransferLog)
          → settled < cursor + fuel
          → ((b : ℕ) → b ≤ settled → All P (chain b))
          → IsLedger lower slice log_key P v taken
          → Looped cursor settled v (scan_loop lower slice log_key client fuel cursor settled v)
      unfolding scan_loop
      scan_loop-Looped zero cursor settled v taken low real i =
          ended-Looped cursor settled v taken (omega arith) i
      scan_loop-Looped (suc fuel) cursor settled v taken low real i =
          let to = to_block cursor settled in
          elim (Bool-cases (leb cursor settled)) [
            | inr past ↦
                rw (scan_loop, past) (ended-Looped cursor settled v taken (ground (arith, past)) i)
            | inl within ↦ elim (Result-cases (fetch client cursor to)) [
              | inr (x, e) ↦ rw (scan_loop, within, e) (thrown-Looped cursor settled v taken x i)
              | inl (logs, e) ↦
                  let (attempt, answered) =
                    with_retry-eq-ok client.is_rate_limit (client.get_logs cursor to) e in
                  let given = agrees cursor to attempt logs answered in
                  let all_real = subst (All P) (sym given) (
                    blocks-All P chain cursor (to + 1 - cursor)
                      (λ b m. real b (ground (arith, m, within)))) in
                  let (taken', i') =
                    take_logs-IsLedger lower slice log_key P logs v taken all_real i in
                  let low_to : cursor ≤ to = ground (arith, within) in
                  rw (scan_loop, within, e)
                    (round-Looped cursor to settled logs v _ low_to given (
                      scan_loop-Looped fuel (to + 1) settled (take_logs lower slice log_key logs v)
                        taken' (ground (arith, within, low)) real i'))
            ]
          ]
