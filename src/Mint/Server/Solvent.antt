-- ===== src/Mint/Server/Solvent.antt =====
-- After any requests, successful or not, the outstanding supply is what was minted less what was
-- melted, within the cap.
use picocash.Prelude.{◌≡◌, Option, none, some, List, [], ◌∷◌, ℕ, arith}
use picocash.Prelude.Int.{sub_ℕ}
use picocash.Mint.Data.{Keyset, Db, empty_db}
use picocash.Mint.Solvency.{compute_outstanding, issued, spent}
use picocash.Mint.Invariant.{IsSolvent, IsCapped, minted, melted, empty_db-IsSolvent}
use picocash.Mint.Swap.Safety.{swap-IsSolvent, swap-IsCapped}
use picocash.Mint.Issue.{Oracle}
use picocash.Mint.Issue.Safety.{mint-IsSolvent, mint-IsCapped}
use picocash.Mint.Issue.Quotes.{request_quote-Keeps, get_quote-Keeps, Keeps-IsCapped}
use picocash.Mint.Melt.{Executor, melt}
use picocash.Mint.Melt.Quotes.{request_melt-Keeps}
use picocash.Mint.Melt.Safety.{melt_with-IsSolvent, melt_with-IsCapped}
use picocash.Mint.Server.{
  Context, Request, post_swap, post_mint_quote, get_mint_quote, post_mint, post_melt_quote,
  post_melt, step, run,
}

pub record IsSound (cap : ℕ) (keyset : Keyset) (db : Db) : Type 0 where
  pub solvent : IsSolvent keyset db
  pub capped : IsCapped cap keyset db

pub empty_db-IsSound : (cap : ℕ) (keyset : Keyset) → IsSound cap keyset empty_db
unfolding issued spent
empty_db-IsSound cap keyset = record {
  solvent = empty_db-IsSolvent keyset;
  capped = record { within = λ w. omega arith };
}

module _ {S : Type 0} (ctx : Context S) where
  abbrev Sound : Db × S → Type 0
  Sound state = IsSound ctx.config.max_outstanding ctx.keyset state.0

  step-Sound : (r : Oracle × Request) (state : Db × S) → Sound state → Sound (step ctx r state)
  unfolding step melt
  step-Sound (oracle, post_swap body) (db, s) v = record {
    solvent = swap-IsSolvent ctx.crypto ctx.keyset oracle.now body db v.solvent;
    capped =
        swap-IsCapped ctx.crypto ctx.keyset oracle.now body db ctx.config.max_outstanding v.capped;
  }
  step-Sound (oracle, post_mint_quote id body) (db, s) v =
      let kept = request_quote-Keeps ctx.config ctx.keyset oracle id body db in
      record {
        solvent = kept.solvent v.solvent;
        capped = Keeps-IsCapped ctx.config.max_outstanding ctx.keyset db _ kept v.capped;
      }
  step-Sound (oracle, get_mint_quote id) (db, s) v =
      let kept = get_quote-Keeps ctx.keyset oracle id db in
      record {
        solvent = kept.solvent v.solvent;
        capped = Keeps-IsCapped ctx.config.max_outstanding ctx.keyset db _ kept v.capped;
      }
  step-Sound (oracle, post_mint body) (db, s) v = record {
    solvent = mint-IsSolvent ctx.crypto ctx.config ctx.keyset oracle body db v.solvent;
    capped = mint-IsCapped ctx.crypto ctx.config ctx.keyset oracle body db v.capped;
  }
  step-Sound (oracle, post_melt_quote id body) (db, s) v =
      let kept = request_melt-Keeps ctx.payout ctx.config ctx.keyset oracle.now id body db in
      record {
        solvent = kept.solvent v.solvent;
        capped = Keeps-IsCapped ctx.config.max_outstanding ctx.keyset db _ kept v.capped;
      }
  step-Sound (oracle, post_melt body) (db, s) v = melt-Sound ctx.payout
    where
      melt-Sound :
          (payout : Option (Executor S))
          → IsSound ctx.config.max_outstanding ctx.keyset
              (melt payout ctx.crypto ctx.keyset oracle.now body db s).1
      melt-Sound none = v
      melt-Sound (some executor) = record {
        solvent = melt_with-IsSolvent executor ctx.crypto ctx.keyset oracle.now body db s v.solvent;
        capped =
            melt_with-IsCapped executor ctx.crypto ctx.keyset oracle.now body db s
              ctx.config.max_outstanding v.capped;
      }

  -- From a sound database, any sequence of requests leads to a sound database: no quote, spent
  -- secret, melt or signature stands twice, what was issued and melted is what was spent and minted,
  -- and where a cap is set no more is outstanding than it allows.
  pub run-IsSound :
      (rs : List (Oracle × Request)) (db : Db) (s : S)
      → IsSound ctx.config.max_outstanding ctx.keyset db
      → IsSound ctx.config.max_outstanding ctx.keyset (run ctx rs (db, s)).0
  unfolding run
  run-IsSound [] db s v = v
  run-IsSound (r ∷ rs) db s v =
      let next = step ctx r (db, s) in run-IsSound rs next.0 next.1 (step-Sound r (db, s) v)

  -- From an empty database, the outstanding supply is what was minted less what was melted.
  pub outstanding-run :
      (rs : List (Oracle × Request)) (s : S)
      → let db = (run ctx rs (empty_db, s)).0 in
        compute_outstanding db ctx.keyset.id ≡ sub_ℕ (minted db) (melted db)
  unfolding compute_outstanding
  outstanding-run rs s = ground (
    arith,
    (run-IsSound rs empty_db s
        (empty_db-IsSound ctx.config.max_outstanding ctx.keyset)).solvent.balanced,
  )
