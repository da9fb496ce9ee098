-- ===== src/Mint/Tempo/Tests.antt =====
-- Scans of a small chain, with calls that fail.
use picocash.Prelude.{
  ℕ, ◌+◌, ◌-◌, ◌*◌, ◌<◌, ◌≡◌, refl, Text, Bool, true, false, Option, none, some, List, [], ◌∷◌,
  ◌==◌, if◌then◌else◌,
}
use picocash.Result.{ok, err}
use picocash.Dict.{lookup, put}
use picocash.Mint.Tempo.{
  TransferLog, ChainReader, new_vault, usable, take_log, take_logs, retry, with_retry, scan_loop,
  scan, settled_at, start_at, get_deposit,
}
use picocash.Mint.Tempo.Chain.{blocks}
use picocash.Mint.Tempo.Exact.{run_scans, ended_heads}
use picocash.Mint.Tempo.Books.{ended_head}
use picocash.Mint.Tempo.Ends.{scan_ends}

abbrev same : Text → Text
same t = t

abbrev key : Option Text → Option ℕ → Text
key (some hash) (some index) = hash * 100 + index
key _ _ = 1

abbrev deposit_log : Text → ℕ → ℕ → TransferLog
deposit_log memo amount index = record {
  memo = some memo;
  amount = some amount;
  transaction_hash = some 77;
  log_index = some index;
}

-- Two transfers for one quote, one without a memo, and one that is never settled.
abbrev toy_chain : ℕ → List TransferLog
toy_chain b =
    if b == 8
    then deposit_log 500 30 0 ∷ record (deposit_log 500 9 1) { memo = none } ∷ []
    else if b == 9
    then deposit_log 500 12 2 ∷ []
    else if b == 12
    then record (deposit_log 500 70 3) { transaction_hash = some 78 } ∷ []
    else []

abbrev answer : ℕ → ChainReader Bool
answer head = record {
  is_rate_limit = λ e. e;
  get_block_number = λ attempt. if attempt == 0 then err true else ok head;
  get_logs = λ from to attempt. ok (blocks toy_chain from (to + 1 - from));
  is_overdue = some (ok false);
  emergency_mode = err false;
}

-- A client whose range calls fail.
abbrev broken : ℕ → ChainReader Bool
broken head = record (answer head) { get_logs = λ from to attempt. err false }

abbrev HasHash : TransferLog → Type 0
HasHash log = log.transaction_hash ≡ some 77

abbrev refreshes : List (ChainReader Bool)
refreshes = answer 9 ∷ broken 11 ∷ answer 12 ∷ []

-- The first and the last scan end.
ended_twice : ended_heads same same key refreshes (new_vault none (some 5)) ≡ 9 ∷ 12 ∷ []
unfolding ended_heads ended_head new_vault scan settled_at start_at scan_loop with_retry retry
    blocks take_logs take_log usable lookup put
ended_twice = refl

-- The second transfer is seen by the third scan, each is counted once.
get_deposit_twice :
    (get_deposit same same key
      (answer 12)
      500
      (run_scans same same key refreshes (new_vault none (some 5)))).0
    ≡ ok (some (record { amount = 42; tx_ref = 77 }))
unfolding get_deposit run_scans new_vault scan settled_at start_at scan_loop with_retry retry blocks
    take_logs take_log usable lookup put
get_deposit_twice = refl

first_scan_ends :
    ((scan same same key (answer 12) (new_vault none none)).0 ≡ ok tt)
    × ((c : ℕ) × ((scan same same key (answer 12) (new_vault none none)).1.cursor ≡ some c)
        × (settled_at 12 (new_vault none none).confirmations < c))
unfolding with_retry retry
first_scan_ends =
    scan_ends same same key (answer 12) (λ from to. (blocks toy_chain from (to + 1 - from), refl))
      12 (new_vault none none) refl
