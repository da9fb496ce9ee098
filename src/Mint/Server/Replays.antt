-- ===== src/Mint/Server/Replays.antt =====
-- After any requests, a request to mint that was answered is answered the same way again.
use picocash.Prelude.{
  ℕ, ◌≡◌, refl, subst, Option, none, some, List, [], ◌∷◌, arith, Bool-cases, inl, inr,
}
use picocash.Result.{ok}
use picocash.Mint.Data.{Crypto, Keyset, SignatureResponse, MeltQuote, Db, empty_db}
use picocash.Mint.Signing.Spending.{with_rows}
use picocash.Mint.Attribution.{
  IsAttributed, empty_db-IsAttributed, IsAttributed-same, IsAttributed-unattributed,
  IsAttributed-issued,
}
use picocash.Mint.Swap.{SwapRequest, swap}
use picocash.Mint.Swap.Outcome.{swap-cases}
use picocash.Mint.Issue.{Config, Oracle, MintRequest, is_issued, marked_issued, mint}
use picocash.Mint.Issue.Outcome.{mint-cases}
use picocash.Mint.Issue.Quotes.{request_quote-Keeps, get_quote-Keeps}
use picocash.Mint.Issue.Replay.{mint-replay, mint-replay_issued}
use picocash.Mint.Melt.{fetch_melt, Executor, MeltRequest, pay_out, melt_with, melt}
use picocash.Mint.Melt.Outcome.{refused, replays, retries, consumes, prepare-cases}
use picocash.Mint.Melt.Payout.{recovers, pays, fails, pay_out-cases}
use picocash.Mint.Melt.Quotes.{request_melt-Keeps}
use picocash.Mint.Server.{
  Context, Request, post_swap, post_mint_quote, get_mint_quote, post_mint, post_melt_quote,
  post_melt, step, run,
}

module _ (c : Crypto) (keyset : Keyset) where
  swap-IsAttributed :
      (now : ℕ) (body : SwapRequest) (db : Db)
      → IsAttributed db
      → IsAttributed (swap c keyset now body db).1
  swap-IsAttributed now body db v = elim (swap-cases c keyset now body db) [
    | inl (e, p) ↦ rw p v
    | inr (signatures, db', p, s) ↦
        let rows = with_rows s.inputs db.spent_secrets in
        let spent_db = record db { spent_secrets = rows } in
        rw p (
          subst IsAttributed s.exchanged.signed.recorded (
            IsAttributed-unattributed body.outputs signatures spent_db
              (IsAttributed-same db spent_db refl refl v)))
  ]

  mint-IsAttributed :
      (config : Config) (oracle : Oracle) (body : MintRequest) (db : Db)
      → IsAttributed db
      → IsAttributed (mint c config keyset oracle body db).1
  mint-IsAttributed config oracle body db v = elim (mint-cases c config keyset oracle body db) [
    | inl (e, p) ↦ rw p v
    | inr (quote, found, cases) ↦ elim cases [
      | inl (done, p) ↦ rw p v
      | inr (inl (e, p)) ↦ rw p v
      | inr (inr (inl (e, q, d, polled, p))) ↦ rw p (polled.attributed v)
      | inr (inr (inr (signatures, db', p, m))) ↦
          rw (p, ← m.done.after, ← m.done.records.recorded)
            (IsAttributed-issued m.polled.id marked_issued m.polled body.outputs signatures
              m.polled_db (λ r. refl) m.polling.stored refl (m.polling.attributed v))
    ]
  ]

  module _ {S : Type 0} (executor : Executor S) where
    pay_out-IsAttributed :
        (melt : MeltQuote) (db : Db) (s : S)
        → IsAttributed db
        → IsAttributed (pay_out executor melt db s).1
    unfolding fetch_melt
    pay_out-IsAttributed melt db s v = elim (pay_out-cases executor melt db s) [
      | recovers _ _ e ↦ rw e (IsAttributed-same db _ refl refl v)
      | pays hash s' called e ↦ rw e (IsAttributed-same db _ refl refl v)
      | fails s' called e ↦ rw e (IsAttributed-same db _ refl refl v)
    ]

    melt_with-IsAttributed :
        (now : ℕ) (body : MeltRequest) (db : Db) (s : S)
        → IsAttributed db
        → IsAttributed (melt_with executor c keyset now body db s).1
    unfolding melt_with
    melt_with-IsAttributed now body db s v = elim (prepare-cases c keyset now body db) [
      | refused e p ↦ rw p v
      | replays melt p _ ↦ rw p v
      | retries melt inputs p checked stored settled _ ↦ rw p (pay_out-IsAttributed melt db s v)
      | consumes melt inputs db' p checked stored t ↦ rw p (
          pay_out-IsAttributed melt db' s
            (subst IsAttributed t.after (IsAttributed-same db _ refl refl v)))
    ]

module _ {S : Type 0} (ctx : Context S) where
  step-IsAttributed :
      (r : Oracle × Request) (state : Db × S)
      → IsAttributed state.0
      → IsAttributed (step ctx r state).0
  unfolding step melt
  step-IsAttributed (oracle, post_swap body) (db, s) v =
      swap-IsAttributed ctx.crypto ctx.keyset oracle.now body db v
  step-IsAttributed (oracle, post_mint_quote id body) (db, s) v =
      (request_quote-Keeps ctx.config ctx.keyset oracle id body db).attributed v
  step-IsAttributed (oracle, get_mint_quote id) (db, s) v =
      (get_quote-Keeps ctx.keyset oracle id db).attributed v
  step-IsAttributed (oracle, post_mint body) (db, s) v =
      mint-IsAttributed ctx.crypto ctx.keyset ctx.config oracle body db v
  step-IsAttributed (oracle, post_melt_quote id body) (db, s) v =
      (request_melt-Keeps ctx.payout ctx.config ctx.keyset oracle.now id body db).attributed v
  step-IsAttributed (oracle, post_melt body) (db, s) v = melted ctx.payout
    where
      melted :
          (payout : Option (Executor S))
          → IsAttributed (melt payout ctx.crypto ctx.keyset oracle.now body db s).1
      melted none = v
      melted (some executor) =
          melt_with-IsAttributed ctx.crypto ctx.keyset executor oracle.now body db s v

  run-IsAttributed :
      (rs : List (Oracle × Request)) (db : Db) (s : S)
      → IsAttributed db
      → IsAttributed (run ctx rs (db, s)).0
  unfolding run
  run-IsAttributed [] db s v = v
  run-IsAttributed (r ∷ rs) db s v =
      let next = step ctx r (db, s) in
      run-IsAttributed rs next.0 next.1 (step-IsAttributed r (db, s) v)

  -- After any requests to a mint that began with an empty database, a request to mint that succeeds
  -- can be repeated at once: it gives the same signatures again, whatever the deposit oracle and the
  -- clock say then, and writes nothing.
  pub run-replay :
      (rs : List (Oracle × Request)) (s : S) (oracle oracle' : Oracle) (body : MintRequest)
      (db' : Db) (signatures : List SignatureResponse)
      → mint ctx.crypto ctx.config ctx.keyset oracle body (run ctx rs (empty_db, s)).0
        ≡ (ok signatures, db')
      → mint ctx.crypto ctx.config ctx.keyset oracle' body db' ≡ (ok signatures, db')
  run-replay rs s oracle oracle' body db' signatures h =
      let db = (run ctx rs (empty_db, s)).0 in
      let v = run-IsAttributed rs empty_db s empty_db-IsAttributed in
      elim (mint-cases ctx.crypto ctx.config ctx.keyset oracle body db) [
        | inl (e, p) ↦ absurd (cc (p, h))
        | inr (quote, found, cases) ↦ elim (Bool-cases (is_issued quote.state)) [
          | inl issued ↦
              mint-replay_issued ctx.crypto ctx.config ctx.keyset oracle oracle' body db db' quote
                signatures found issued h
          | inr pending ↦
              mint-replay ctx.crypto ctx.config ctx.keyset oracle oracle' body db db' quote
                signatures found pending (v.none_yet body.quote_id (ground (arith, found, pending)))
                h
        ]
      ]
