-- ===== src/Mint/Melt/Quotes.antt =====
-- A request for a melt quote in routes/melt.ts writes one unpaid row, or nothing.
use picocash.Prelude.{
  ℕ, ◌+◌, Text, ◌≡◌, refl, ◌⊎◌, inl, inr, Bool-cases, Option-cases, Option, none, some, ◌∷◌, arith,
  ◌==◌, subst, sym,
}
use picocash.Table.{insert, insert-eq-some}
use picocash.Mint.Data.{Keyset, MeltQuote, MeltState, Db}
use picocash.Mint.Solvency.{issued, spent}
use picocash.Mint.Invariant.{minted, melted}
use picocash.Mint.Attribution.{IsAttributed-same}
use picocash.Mint.Issue.{Config}
use picocash.Mint.Issue.Quotes.{Keeps, Keeps-refl}
use picocash.Mint.Melt.{Executor, MeltQuoteRequest, fetch_melt, insert_melt, request_melt}

insert_melt-Keeps :
    (keyset : Keyset) (melt : MeltQuote) (db : Db)
    → melt.state ≡ MeltState.unpaid
    → Keeps keyset db (insert_melt melt db).1
unfolding insert_melt issued spent minted melted
insert_melt-Keeps keyset melt db unpaid = elim (Bool-cases (melt.amount == 0)) [
  | inl zero_amount ↦ subst (Keeps keyset db) (ground arith) (Keeps-refl keyset db)
  | inr positive ↦ elim (Option-cases (insert MeltQuote.id melt db.melt_quotes)) [
    | inl taken ↦ subst (Keeps keyset db) (ground arith) (Keeps-refl keyset db)
    | inr (rows, e) ↦
        let (grown, free) = insert-eq-some MeltQuote.id melt db.melt_quotes e in
        subst (Keeps keyset db) {x = record db { melt_quotes = melt ∷ db.melt_quotes }}
          (ground (arith, grown))
          (record {
            solvent = λ v. record {
              quotes = v.quotes;
              spent_once = v.spent_once;
              melts = (free, v.melts);
              signed_once = v.signed_once;
              balanced = ground (arith, unpaid, v.balanced);
            };
            issued_kept = refl;
            spent_kept = refl;
            attributed = IsAttributed-same db _ refl refl;
          })
  ]
]

abbrev new_melt : Config → ℕ → Text → MeltQuoteRequest → MeltQuote
new_melt config now id body = record {
  id = id;
  amount = body.amount;
  fee = config.melt_fee;
  unit = body.unit;
  to_address = body.to;
  state = MeltState.unpaid;
  inputs_hash = none;
  tx_hash = none;
  expires_at = now + config.quote_ttl_seconds;
}

module _ {S : Type 0} where
  request_melt-cases :
      (executor : Option (Executor S)) (config : Config) (now : ℕ) (id : Text)
      (body : MeltQuoteRequest) (db : Db)
      → ((request_melt executor config now id body db).1 ≡ db)
        ⊎ ((request_melt executor config now id body db).1
            ≡ (insert_melt (new_melt config now id body) db).1)
  unfolding request_melt fetch_melt
  request_melt-cases none config now id body db = inl refl
  request_melt-cases (some executor) config now id body db = ground arith

  pub request_melt-Keeps :
      (executor : Option (Executor S)) (config : Config) (keyset : Keyset) (now : ℕ) (id : Text)
      (body : MeltQuoteRequest) (db : Db)
      → Keeps keyset db (request_melt executor config now id body db).1
  request_melt-Keeps executor config keyset now id body db =
      elim (request_melt-cases executor config now id body db) [
        | inl same ↦ subst (Keeps keyset db) (sym same) (Keeps-refl keyset db)
        | inr written ↦
            subst (Keeps keyset db) (sym written)
              (insert_melt-Keeps keyset (new_melt config now id body) db refl)
      ]
