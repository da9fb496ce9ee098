-- ===== src/Mint/Invariant.antt =====
-- The books of the mint over its four tables: keys stand once, and what was issued and melted
-- agrees with what was spent and minted.
use picocash.Prelude.{ℕ, ◌+◌, ◌≤◌, ◌<◌, Text, ◌≡◌, some, arith, sum_by}
use picocash.Table.{Distinct, find, update, sum_by-update}
use picocash.Mint.Data.{
  Keyset, MintQuote, QuoteState, SpentSecret, MeltQuote, MeltState, BlindSignature, Db, empty_db,
}
use picocash.Mint.Solvency.{issued, spent}

-- A quote counts once its signatures are issued.
abbrev pub minted_amount : MintQuote → ℕ
minted_amount quote = elim quote.state [ QuoteState.issued ↦ quote.amount | _ ↦ 0 ]

-- A melt counts, with its fee, from the moment its proofs are consumed, paid out or not.
abbrev pub melted_amount : MeltQuote → ℕ
melted_amount melt = elim melt.state [ MeltState.unpaid ↦ 0 | _ ↦ melt.amount + melt.fee ]

unfoldable pub minted : Db → ℕ
minted db = sum_by minted_amount db.mint_quotes

unfoldable pub melted : Db → ℕ
melted db = sum_by melted_amount db.melt_quotes

pub record IsSolvent (keyset : Keyset) (db : Db) : Type 0 where
  pub quotes : Distinct MintQuote.id db.mint_quotes
  pub spent_once : Distinct SpentSecret.y db.spent_secrets
  pub melts : Distinct MeltQuote.id db.melt_quotes
  pub signed_once : Distinct BlindSignature.b db.blind_signatures
  pub balanced : issued keyset.id db + melted db ≡ spent keyset.id db + minted db

-- Where a cap is set, no more is outstanding than it allows.
pub record IsCapped (cap : ℕ) (keyset : Keyset) (db : Db) : Type 0 where
  pub within : 0 < cap → issued keyset.id db ≤ spent keyset.id db + cap

pub empty_db-IsSolvent : (keyset : Keyset) → IsSolvent keyset empty_db
unfolding issued spent minted melted
empty_db-IsSolvent keyset = record {
  quotes = tt;
  spent_once = tt;
  melts = tt;
  signed_once = tt;
  balanced = omega arith;
}

-- A change of one quote moves the minted total by what that quote counts for.
pub minted-update :
    (id : Text) (f : MintQuote → MintQuote) (q : MintQuote) (db : Db)
    → Distinct MintQuote.id db.mint_quotes
    → find MintQuote.id id db.mint_quotes ≡ some q
    → minted (record db { mint_quotes = update MintQuote.id id f db.mint_quotes }) + minted_amount q
      ≡ minted db + minted_amount (f q)
unfolding minted
minted-update id f q db d h = sum_by-update MintQuote.id minted_amount id f q db.mint_quotes d h

pub melted-update :
    (id : Text) (f : MeltQuote → MeltQuote) (q : MeltQuote) (db : Db)
    → Distinct MeltQuote.id db.melt_quotes
    → find MeltQuote.id id db.melt_quotes ≡ some q
    → melted (record db { melt_quotes = update MeltQuote.id id f db.melt_quotes }) + melted_amount q
      ≡ melted db + melted_amount (f q)
unfolding melted
melted-update id f q db d h = sum_by-update MeltQuote.id melted_amount id f q db.melt_quotes d h
