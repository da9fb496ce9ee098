-- ===== src/Mint/Tempo/Ends.antt =====
-- vault-tempo.ts: a scan ends, and behind every settled block.
use picocash.Prelude.{
  ℕ, zero, suc, ◌+◌, ◌-◌, ◌<◌, ◌≡◌, refl, Text, Option, some, List, arith, leb, inl, inr,
  Bool-cases,
}
use picocash.Result.{Result, ok, err}
use picocash.Mint.Tempo.{
  TransferLog, ChainReader, TempoVault, with_retry, fetch, to_block, scan_loop, scan, take_logs,
  set_cursor, start_at, settled_at,
}

module _ (lower slice : Text → Text) (log_key : Option Text → Option ℕ → Text) {E : Type 0}
    (client : ChainReader E)
    (answers : (from to : ℕ) → (logs : List TransferLog) × (fetch client from to ≡ ok logs)) where
  scan_loop_ends :
      (fuel cursor settled : ℕ) (v : TempoVault)
      → settled < cursor + fuel
      → (c : ℕ) × ((scan_loop lower slice log_key client fuel cursor settled v).0 ≡ ok c)
        × (settled < c)
  unfolding scan_loop
  scan_loop_ends zero cursor settled v low = (cursor, refl, omega arith)
  scan_loop_ends (suc fuel) cursor settled v low =
      let to = to_block cursor settled in
      elim (Bool-cases (leb cursor settled)) [
        | inr past ↦ (cursor, rw (scan_loop, past) refl, ground (arith, past))
        | inl within ↦
            let (logs, e) = answers cursor to in
            let (c, ended, behind) =
              scan_loop_ends fuel (to + 1) settled (take_logs lower slice log_key logs v)
                (ground (arith, within, low)) in
            (c, rw (scan_loop, within, e) ended, behind)
      ]

  set_cursor_ends :
      (r : Result E ℕ × TempoVault) (c : ℕ)
      → r.0 ≡ ok c
      → ((set_cursor lower slice log_key client r).0 ≡ ok tt)
        × ((set_cursor lower slice log_key client r).1.cursor ≡ some c)
  set_cursor_ends (ok d, v) c h = (refl, cc h)
  set_cursor_ends (err e, v) c h = absurd (cc h)

  -- Where the client answers, within its attempts, with the head and with the logs of every range, a
  -- scan succeeds, and the cursor is then behind the settled block.
  pub scan_ends :
      (head : ℕ) (v : TempoVault)
      → with_retry client.is_rate_limit client.get_block_number ≡ ok head
      → ((scan lower slice log_key client v).0 ≡ ok tt)
        × ((c : ℕ) × ((scan lower slice log_key client v).1.cursor ≡ some c)
            × (settled_at head v.confirmations < c))
  unfolding scan
  scan_ends head v h =
      let settled = settled_at head v.confirmations in
      let start = start_at v.cursor v.lookback_blocks settled in
      let (c, ended, behind) = scan_loop_ends (settled + 1 - start) start settled v (omega arith) in
      let (good, moved) =
        set_cursor_ends (scan_loop lower slice log_key client (settled + 1 - start) start settled v)
          c ended in
      rw (scan, h) (good, (c, moved, behind))
