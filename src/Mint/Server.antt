-- ===== src/Mint/Server.antt =====
-- app.ts: the mint as a machine that answers requests one after the other, each with what it sees
-- of the clock and of the deposit oracle. Requests that only read are left out of the machine.
pub mod Solvent
pub mod Replays
use picocash.Prelude.{ℕ, Text, Option, List, [], ◌∷◌}
use picocash.Mint.Data.{Crypto, Keyset, Db}
use picocash.Mint.Swap.{SwapRequest, swap}
use picocash.Mint.Issue.{Config, Oracle, QuoteRequest, MintRequest, request_quote, get_quote, mint}
use picocash.Mint.Melt.{Executor, MeltQuoteRequest, MeltRequest, request_melt, melt}

-- context.ts, `MintContext` but for the database.
pub record Context (S : Type 0) : Type 0 where
  pub crypto : Crypto
  pub config : Config
  pub keyset : Keyset
  pub payout : Option (Executor S)

pub data Request : Type 0 where
  post_swap : SwapRequest → Request
  post_mint_quote : Text → QuoteRequest → Request
  get_mint_quote : Text → Request
  post_mint : MintRequest → Request
  post_melt_quote : Text → MeltQuoteRequest → Request
  post_melt : MeltRequest → Request

module _ {S : Type 0} (ctx : Context S) where
  -- The database and the chain after a request, whatever it answered.
  pub step : Oracle × Request → Db × S → Db × S
  step (oracle, post_swap body) (db, s) = ((swap ctx.crypto ctx.keyset oracle.now body db).1, s)
  step (oracle, post_mint_quote id body) (db, s) =
      ((request_quote ctx.config ctx.keyset oracle id body db).1, s)
  step (oracle, get_mint_quote id) (db, s) = ((get_quote oracle id db).1, s)
  step (oracle, post_mint body) (db, s) =
      ((mint ctx.crypto ctx.config ctx.keyset oracle body db).1, s)
  step (oracle, post_melt_quote id body) (db, s) =
      ((request_melt ctx.payout ctx.config oracle.now id body db).1, s)
  step (oracle, post_melt body) (db, s) =
      let (_, db', s') = melt ctx.payout ctx.crypto ctx.keyset oracle.now body db s in (db', s')

  unfoldable pub run : List (Oracle × Request) → Db × S → Db × S
  unfolding step
  run [] state = state
  run (r ∷ rs) state = run rs (step r state)
