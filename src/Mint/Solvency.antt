-- ===== src/Mint/Solvency.antt =====
-- solvency.ts: what the mint owes, from its own tables. The sums are over ℕ and the difference
-- over ℤ; the source computes both on doubles, which are exact below 2^53.
use picocash.Prelude.{ℕ, Text, Bool, true, false, ◌==◌, ◌&&◌, leb, if◌then◌else◌, sum_by}
use picocash.Prelude.Int.{ℤ, sub_ℕ}
use picocash.Mint.Data.{Db, BlindSignature, SpentSecret, MintQuote, QuoteState}

-- SELECT COALESCE(SUM(amount), 0) FROM blind_signatures WHERE keyset_id = $1
unfoldable pub issued_amount : Text → BlindSignature → ℕ
issued_amount keyset row = if row.keyset_id == keyset then row.amount else 0

unfoldable pub spent_amount : Text → SpentSecret → ℕ
spent_amount keyset row = if row.keyset_id == keyset then row.amount else 0

unfoldable pub issued : Text → Db → ℕ
issued keyset db = sum_by (issued_amount keyset) db.blind_signatures

unfoldable pub spent : Text → Db → ℕ
spent keyset db = sum_by (spent_amount keyset) db.spent_secrets

unfoldable pub compute_outstanding : Db → Text → ℤ
compute_outstanding db keyset = sub_ℕ (issued keyset db) (spent keyset db)

-- `state IN ('UNPAID', 'PAID')`
abbrev is_open : QuoteState → Bool
is_open QuoteState.unpaid = true
is_open QuoteState.paid = true
is_open QuoteState.issued = false

reserved_amount : ℕ → MintQuote → ℕ
reserved_amount now quote =
    if is_open quote.state && leb now quote.expires_at then quote.amount else 0

unfoldable pub compute_reserved : Db → ℕ → ℕ
unfolding reserved_amount
compute_reserved db now = sum_by (reserved_amount now) db.mint_quotes
