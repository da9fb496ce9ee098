-- ===== src/Mint/Issue/Safety.antt =====
-- Issuing keeps the books of the mint and its cap on the outstanding supply.
use picocash.Prelude.{ℕ, ◌+◌, ◌≤◌, ◌<◌, ◌≡◌, refl, inl, inr, false, some, List, [], arith, subst}
use picocash.Table.{find, update-Distinct}
use picocash.Mint.Data.{
  Crypto, Keyset, BlindedMessage, SignatureResponse, MintQuote, QuoteState, Db,
}
use picocash.Mint.Signing.{sum_outputs}
use picocash.Mint.Signing.Signatures.{AreValid, sum_by-with_signatures, with_signatures-Distinct}
use picocash.Mint.Solvency.{issued, spent, compute_outstanding}
use picocash.Mint.Invariant.{IsSolvent, IsCapped, minted, minted-update, melted}
use picocash.Mint.Issue.{Config, Oracle, MintRequest, marked_issued, update_quote, over_cap, mint}
use picocash.Mint.Issue.Outcome.{Issues, Minted, mint-cases}

pub over_cap-false :
    (config : Config) (keyset : Keyset) (db : Db) (more : ℕ)
    → over_cap config keyset db more ≡ false
    → 0 < config.max_outstanding
    → issued keyset.id db + more ≤ spent keyset.id db + config.max_outstanding
unfolding over_cap compute_outstanding
over_cap-false config keyset db more h p = ground arith

module _ (c : Crypto) (config : Config) (keyset : Keyset) where
  -- What the issue of a stored quote has moved, when the outputs total its amount.
  pub Issues-moves :
      (quote : MintQuote) (outputs : List BlindedMessage) (db : Db)
      (r : List SignatureResponse × Db)
      → AreValid keyset [] outputs
      → Issues c config keyset quote outputs db r
      → (issued keyset.id r.1 ≡ issued keyset.id db + sum_outputs outputs)
        × (spent keyset.id r.1 ≡ spent keyset.id db)
  unfolding issued spent
  Issues-moves quote outputs db r valid s =
      let records = s.records in
      subst
        (λ (d : Db).
          (issued keyset.id d ≡ issued keyset.id db + sum_outputs outputs)
          × (spent keyset.id d ≡ spent keyset.id db))
        s.after
        (subst
          (λ (d : Db).
            (issued keyset.id (update_quote quote.id marked_issued d)
              ≡ issued keyset.id db + sum_outputs outputs)
            × (spent keyset.id (update_quote quote.id marked_issued d) ≡ spent keyset.id db))
          records.recorded
          (
            omega (
              arith,
              valid.counted,
              sum_by-with_signatures c keyset keyset.id outputs r.0 (some quote.id)
                  db.blind_signatures records.signed,
            ),
            refl,
          ))

  Issues-IsSolvent :
      (quote : MintQuote) (outputs : List BlindedMessage) (db : Db)
      (r : List SignatureResponse × Db)
      → AreValid keyset [] outputs
      → find MintQuote.id quote.id db.mint_quotes ≡ some quote
      → sum_outputs outputs ≡ quote.amount
      → Issues c config keyset quote outputs db r
      → IsSolvent keyset db
      → IsSolvent keyset r.1
  unfolding melted minted issued spent
  Issues-IsSolvent quote outputs db r valid stored total s v =
      let records = s.records in
      let paid : quote.state ≡ QuoteState.paid = ground (arith, s.stored, s.paid, stored) in
      let moved = minted-update quote.id marked_issued quote db v.quotes stored in
      subst (IsSolvent keyset) s.after (
        subst (λ (d : Db). IsSolvent keyset (update_quote quote.id marked_issued d))
          records.recorded
          (record {
            quotes =
                update-Distinct MintQuote.id quote.id marked_issued db.mint_quotes (λ q. refl)
                  v.quotes;
            spent_once = v.spent_once;
            melts = v.melts;
            signed_once =
                with_signatures-Distinct outputs r.0 (some quote.id) db.blind_signatures
                  records.unsigned v.signed_once;
            balanced = ground (
              arith,
              paid,
              moved,
              total,
              valid.counted,
              v.balanced,
              sum_by-with_signatures c keyset keyset.id outputs r.0 (some quote.id)
                  db.blind_signatures records.signed,
            );
          }))

  Minted-IsSolvent :
      (outputs : List BlindedMessage) (quote : MintQuote) (db : Db)
      (r : List SignatureResponse × Db)
      → Minted c config keyset outputs quote db r
      → IsSolvent keyset db
      → IsSolvent keyset r.1
  Minted-IsSolvent outputs quote db r m v =
      Issues-IsSolvent m.polled outputs m.polled_db r m.valid m.polling.stored m.total m.done
        (m.polling.solvent v)

  Minted-IsCapped :
      (outputs : List BlindedMessage) (quote : MintQuote) (db : Db)
      (r : List SignatureResponse × Db)
      → Minted c config keyset outputs quote db r
      → IsCapped config.max_outstanding keyset db
      → IsCapped config.max_outstanding keyset r.1
  Minted-IsCapped outputs quote db r m v =
      let moves = Issues-moves m.polled outputs m.polled_db r m.valid m.done in
      record {
        within = λ p. omega (
          arith,
          moves.0,
          moves.1,
          m.total,
          over_cap-false config keyset m.polled_db m.polled.amount m.done.uncapped p,
        );
      }

  -- Whatever its outcome, a request to mint keeps the books of the mint.
  pub mint-IsSolvent :
      (oracle : Oracle) (body : MintRequest) (db : Db)
      → IsSolvent keyset db
      → IsSolvent keyset (mint c config keyset oracle body db).1
  mint-IsSolvent oracle body db v = elim (mint-cases c config keyset oracle body db) [
    | inl (e, p) ↦ rw p v
    | inr (quote, found, cases) ↦ elim cases [
      | inl (done, p) ↦ rw p v
      | inr (inl (e, p)) ↦ rw p v
      | inr (inr (inl (e, q, d, polled, p))) ↦ rw p (polled.solvent v)
      | inr (inr (inr (signatures, db', p, m))) ↦
          rw p (Minted-IsSolvent body.outputs quote db (signatures, db') m v)
    ]
  ]

  -- Nor does it take the outstanding supply over the cap.
  pub mint-IsCapped :
      (oracle : Oracle) (body : MintRequest) (db : Db)
      → IsCapped config.max_outstanding keyset db
      → IsCapped config.max_outstanding keyset (mint c config keyset oracle body db).1
  mint-IsCapped oracle body db v = elim (mint-cases c config keyset oracle body db) [
    | inl (e, p) ↦ rw p v
    | inr (quote, found, cases) ↦ elim cases [
      | inl (done, p) ↦ rw p v
      | inr (inl (e, p)) ↦ rw p v
      | inr (inr (inl (e, q, d, polled, p))) ↦ rw p (record {
        within = λ w. omega (arith, v.within w, polled.issued_kept, polled.spent_kept);
      })
      | inr (inr (inr (signatures, db', p, m))) ↦
          rw p (Minted-IsCapped body.outputs quote db (signatures, db') m v)
    ]
  ]
