-- ===== src/Mint/Tempo/Books.antt =====
-- vault-tempo.ts: what one scan adds to the blocks that were counted.
use picocash.Prelude.{
  ℕ, ◌+◌, ◌-◌, ◌≤◌, ◌<◌, ◌≡◌, refl, sym, subst, ap, ◌∙◌, Text, Option, none, some, List, [], ◌∷◌,
  ◌++◌, arith, ltb, All, inl, inr, Bool-cases,
}
use picocash.Result.{Result, ok, err, Result-cases}
use picocash.Mint.Tempo.{
  TransferLog, ChainReader, TempoVault, with_retry, scan_loop, set_cursor, scan, start_at,
  settled_at,
}
use picocash.Mint.Tempo.Ledger.{IsLedger}
use picocash.Mint.Tempo.Chain.{Agrees, All-append, All_weaken}
use picocash.Mint.Tempo.Loop.{Counted, Keeps, Looped, scan_loop-Looped}

-- The head that a client reports, within the attempts.
abbrev pub reported : {E : Type 0} → ChainReader E → Result E ℕ
reported client = with_retry client.is_rate_limit client.get_block_number

-- The head of a scan, if it ended.
unfoldable pub ended_head : {E : Type 0} → Result E (Unit {0}) → Result E ℕ → List ℕ
ended_head (ok u) (ok head) = head ∷ []
ended_head _ _ = []

settled_at_monus : (head confirmations : ℕ) → settled_at head confirmations ≡ head - confirmations
unfolding settled_at
settled_at_monus head confirmations = ground arith

start_none :
    {cursor : Option ℕ} (lookback settled : ℕ)
    → cursor ≡ none
    → start_at cursor lookback settled ≡ settled - lookback
unfolding start_at
start_none lookback settled h = ap (λ o. start_at o lookback settled) h ∙ (ground arith)

start_some :
    {cursor : Option ℕ} (lookback settled c : ℕ)
    → cursor ≡ some c
    → start_at cursor lookback settled ≡ c
unfolding start_at
start_some lookback settled c h = ap (λ o. start_at o lookback settled) h

pub append-nil_lem : (xs : List ℕ) → xs ++ [] ≡ xs
append-nil_lem [] = refl
append-nil_lem (x ∷ xs) = ap (λ l. x ∷ l) (append-nil_lem xs)

module _ (lower slice : Text → Text) (log_key : Option Text → Option ℕ → Text)
    (P : TransferLog → Type 0) (chain : ℕ → List TransferLog) (confirmations lookback : ℕ) where
  -- Where `head` is the head of the first scan that ended, the logs of the blocks from the lookback
  -- on count, up to the cursor, which is behind the settled block of every scan that ended.
  pub record Begun (v : TempoVault) (head : ℕ) (others : List ℕ) : Type 0 where
    pub at : ℕ
    pub cursor : v.cursor ≡ some at
    pub behind : All (λ h. h - confirmations < at) (head ∷ others)
    pub covered :
        (b : ℕ)
        → head - confirmations - lookback ≤ b
        → b < at
        → All (Counted lower slice log_key v) (chain b)

  abbrev pub Behind : TempoVault → List ℕ → Type 0
  Behind v [] = v.cursor ≡ none
  Behind v (head ∷ others) = Begun v head others

  pub record Books (v : TempoVault) (heads : List ℕ) : Type 0 where
    pub taken : List TransferLog
    pub ledger : IsLedger lower slice log_key P v taken
    pub confirmed : v.confirmations ≡ confirmations
    pub looks : v.lookback_blocks ≡ lookback
    pub behind : Behind v heads

  Behind-Keeps :
      (v v' : TempoVault) (heads : List ℕ)
      → Keeps lower slice log_key v v'
      → Behind v heads
      → Behind v' heads
  Behind-Keeps v v' [] k b = k.cursor ∙ b
  Behind-Keeps v v' (head ∷ others) k b = record {
    at = b.at;
    cursor = k.cursor ∙ b.cursor;
    behind = b.behind;
    covered = λ n low high.
        All_weaken (Counted lower slice log_key v) (Counted lower slice log_key v') (chain n)
          k.counted (b.covered n low high);
  }

  module _ {E : Type 0} where
    abbrev Loops : ℕ → TempoVault → Result E ℕ × TempoVault → Type 0
    Loops settled v r =
        Looped lower slice log_key P chain (start_at v.cursor v.lookback_blocks settled) settled v r

    Behind-ended :
        (head c : ℕ) (v v' : TempoVault) (heads : List ℕ)
        → v.lookback_blocks ≡ lookback
        → Behind v heads
        → Loops (head - confirmations) v (ok c, v')
        → Behind (record v' { cursor = some c }) (heads ++ head ∷ [])
    Behind-ended head c v v' [] looks none_yet d =
        let (passed, on, new) = d.covers c refl in
        let from = start_none v.lookback_blocks (head - confirmations) none_yet in
        record {
          at = c;
          cursor = refl;
          behind = (passed, tt);
          covered = λ b low high. new b (omega (arith, low, from, looks)) high;
        }
    Behind-ended head c v v' (first ∷ others) looks was d =
        let (passed, on, new) = d.covers c refl in
        let from = start_some v.lookback_blocks (head - confirmations) was.at was.cursor in
        let on_from : was.at ≤ c = omega (arith, on, from) in
        let further : (h : ℕ) → h - confirmations < was.at → h - confirmations < c =
          λ h m. omega (arith, m, on_from) in
        record {
          at = c;
          cursor = refl;
          behind =
              All-append (λ h. h - confirmations < c) (first ∷ others) (head ∷ [])
                (All_weaken (λ h. h - confirmations < was.at) (λ h. h - confirmations < c)
                  (first ∷ others) further was.behind)
                (passed, tt);
          covered = λ b low high. elim (Bool-cases (ltb b was.at)) [
            | inl before ↦
                All_weaken (Counted lower slice log_key v) (Counted lower slice log_key v')
                  (chain b) d.keeps.counted (was.covered b low (ground (arith, before)))
            | inr after ↦ new b (ground (arith, after, from)) high
          ];
        }

    set_cursor-Books :
        (client : ChainReader E) (head : ℕ) (v : TempoVault) (heads : List ℕ)
        (r : Result E ℕ × TempoVault)
        → Books v heads
        → Loops (head - confirmations) v r
        → Books
            ((set_cursor lower slice log_key client r).1)
            (heads ++ ended_head ((set_cursor lower slice log_key client r).0) (ok head))
    unfolding ended_head
    set_cursor-Books client head v heads (err e, v') x d = record {
      taken = d.taken;
      ledger = d.ledger;
      confirmed = d.keeps.confirmations ∙ x.confirmed;
      looks = d.keeps.lookback ∙ x.looks;
      behind =
          subst (Behind v') (sym (append-nil_lem heads)) (Behind-Keeps v v' heads d.keeps x.behind);
    }
    set_cursor-Books client head v heads (ok c, v') x d = record {
      taken = d.taken;
      ledger = record {
        seen = d.ledger.seen;
        distinct = d.ledger.distinct;
        exact = d.ledger.exact;
        real = d.ledger.real;
      };
      confirmed = d.keeps.confirmations ∙ x.confirmed;
      looks = d.keeps.lookback ∙ x.looks;
      behind = Behind-ended head c v v' heads x.looks x.behind d;
    }

    -- A scan of a client that agrees with the chain, whose reported head settles only blocks whose logs
    -- have the property.
    pub scan-Books :
        (client : ChainReader E) (v : TempoVault) (heads : List ℕ)
        → Agrees chain client
        → ((head : ℕ)
            → reported client ≡ ok head
            → (b : ℕ) → b ≤ head - confirmations
            → All P (chain b))
        → Books v heads
        → Books
            ((scan lower slice log_key client v).1)
            (heads ++ ended_head ((scan lower slice log_key client v).0) (reported client))
    unfolding scan ended_head
    scan-Books client v heads agrees real x = elim (Result-cases (reported client)) [
      | inr (e, h) ↦ rw (scan, h) (subst (Books v) (sym (append-nil_lem heads)) x)
      | inl (head, h) ↦
          let settled = settled_at head v.confirmations in
          let at_head : settled ≡ head - confirmations =
            settled_at_monus head v.confirmations ∙ ap (λ n. head - n) x.confirmed in
          let start = start_at v.cursor v.lookback_blocks settled in
          let r = scan_loop lower slice log_key client (settled + 1 - start) start settled v in
          let looped : Looped lower slice log_key P chain start settled v r =
            scan_loop-Looped lower slice log_key P chain client agrees (settled + 1 - start) start
              settled v x.taken (omega arith) (λ b m. real head h b (omega (arith, m, at_head)))
              x.ledger in
          rw (scan, h)
            (set_cursor-Books client head v heads r x (
              subst
                (λ n.
                  Looped lower slice log_key P chain (start_at v.cursor v.lookback_blocks n) n v r)
                at_head looped))
    ]
