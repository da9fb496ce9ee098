-- ===== src/Mint/Issue/Outcome.antt =====
-- What `POST /v1/mint` of routes/mint.ts has done, whichever way it ended.
use picocash.Prelude.{
  ◌≡◌, ◌⊎◌, true, inl, inr, Bool-cases, Option-cases, false, ◌&&◌, some, List, [], arith, ◌==◌,
  ==→≡, ltb, subst, sym,
}
use picocash.Result.{Result, ok, err, Result-cases, >>=-eq-ok}
use picocash.Table.{find, find-key}
use picocash.Mint.Data.{
  Crypto, Keyset, BlindedMessage, SignatureResponse, MintQuote, QuoteState, Db, Failure, api_error,
  amount_mismatch, payment_required, quote_expired, quote_not_found, transact,
}
use picocash.Mint.Signing.{sum_outputs, validate_outputs, sign_all}
use picocash.Mint.Signing.Signatures.{
  AreValid, validate_outputs-AreValid, Records, sign_all-Records,
}
use picocash.Mint.Issue.{
  Config, Oracle, MintRequest, is_unpaid, is_paid, is_issued, marked_issued, update_quote, over_cap,
  fetch_quote, replay, issue_tx, locked_tx, mint_tx, mint_open, mint,
}
use picocash.Mint.Issue.Polling.{Polled, poll_deposit-Polled}

module _ (c : Crypto) (config : Config) (keyset : Keyset) where
  -- The transaction found the quote paid, stayed below the cap, signed every output and marked
  -- the quote issued.
  pub record Issues (quote : MintQuote) (outputs : List BlindedMessage) (db : Db)
      (r : List SignatureResponse × Db) : Type 0 where
    pub locked : MintQuote
    pub stored : find MintQuote.id quote.id db.mint_quotes ≡ some locked
    pub paid : locked.state ≡ QuoteState.paid
    pub uncapped : over_cap config keyset db quote.amount ≡ false
    pub signed_db : Db
    pub records : Records c keyset outputs (some quote.id) db (r.0, signed_db)
    pub after : update_quote quote.id marked_issued signed_db ≡ r.1

  issue_tx-Records :
      (quote : MintQuote) (outputs : List BlindedMessage) (db : Db)
      (r : List SignatureResponse × Db)
      → issue_tx c config keyset quote outputs db ≡ ok r
      → (over_cap config keyset db quote.amount ≡ false)
        × (d : Db) × Records c keyset outputs (some quote.id) db (r.0, d)
        × (update_quote quote.id marked_issued d ≡ r.1)
  unfolding issue_tx
  issue_tx-Records quote outputs db r h =
      elim (Bool-cases (over_cap config keyset db quote.amount)) [
        | inl over ↦ ground arith
        | inr under ↦
            let ((signed, d), e, h₁) =
              >>=-eq-ok (sign_all c keyset outputs (some quote.id) db) _ (rw under at h) in
            (
              under,
              d,
              sign_all-Records c keyset outputs (some quote.id) db (r.0, d) (ground arith),
              ground arith,
            )
      ]

  -- Where the stored row is the paid quote at hand, the transaction issues it.
  mint_tx-Issues :
      (quote : MintQuote) (outputs : List BlindedMessage) (db : Db)
      (r : List SignatureResponse × Db)
      → find MintQuote.id quote.id db.mint_quotes ≡ some quote
      → is_paid quote.state ≡ true
      → mint_tx c config keyset quote outputs db ≡ ok r
      → Issues quote outputs db r
  unfolding mint_tx
  mint_tx-Issues quote outputs db r e p h =
      let paid : quote.state ≡ QuoteState.paid = ground arith in
      let (under, d, records, after) =
        issue_tx-Records quote outputs db r (rw (e, locked_tx, paid) at h) in
      record {
        locked = quote;
        stored = e;
        paid = paid;
        uncapped = under;
        signed_db = d;
        records = records;
        after = after;
      }

  -- A successful issue: the quote as it was polled, its total, and the transaction.
  pub record Minted (outputs : List BlindedMessage) (quote : MintQuote) (db : Db)
      (r : List SignatureResponse × Db) : Type 0 where
    pub polled : MintQuote
    pub polled_db : Db
    pub polling : Polled keyset quote db polled polled_db
    pub valid : AreValid keyset [] outputs
    pub total : sum_outputs outputs ≡ polled.amount
    pub done : Issues polled outputs polled_db r

  -- The four ways through the handler: an issued quote is answered from its signatures, or the
  -- request fails, with nothing written or with a deposit at most recorded, or the quote is issued.
  abbrev pub MintCases :
      MintQuote → List BlindedMessage → Db → Result Failure (List SignatureResponse) × Db → Type 0
  MintCases quote outputs db r =
      ((is_issued quote.state ≡ true) × (r ≡ (replay quote.id outputs db, db)))
      ⊎ ((e : Failure) × (r ≡ (err e, db)))
      ⊎ ((e : Failure) × (q : MintQuote) × (d : Db) × Polled keyset quote db q d × (r ≡ (err e, d)))
      ⊎ ((signatures : List SignatureResponse) × (db' : Db) × (r ≡ (ok signatures, db'))
          × Minted outputs quote db (signatures, db'))

  mint_open-cases :
      (oracle : Oracle) (quote : MintQuote) (outputs : List BlindedMessage) (db : Db)
      → AreValid keyset [] outputs
      → find MintQuote.id quote.id db.mint_quotes ≡ some quote
      → MintCases quote outputs db (mint_open c config keyset oracle quote outputs db)
  unfolding mint_open transact
  mint_open-cases oracle quote outputs db valid h =
      let (q, d, e, p) = poll_deposit-Polled keyset oracle quote db h in
      elim (Bool-cases (is_unpaid quote.state && ltb quote.expires_at oracle.now)) [
        | inl expired ↦ inr (inl (api_error 400 quote_expired, ground arith))
        | inr live ↦ elim (Bool-cases (is_paid q.state)) [
          | inr open_still ↦ inr (inr (inl (api_error 402 payment_required, q, d, p, ground arith)))
          | inl paid ↦ elim (Bool-cases (sum_outputs outputs == q.amount)) [
            | inr differ ↦ inr (inr (inl (api_error 400 amount_mismatch, q, d, p, ground arith)))
            | inl agree ↦ elim (Result-cases (mint_tx c config keyset q outputs d)) [
              | inr (f, t) ↦ inr (inr (inl (f, q, d, p, ground arith)))
              | inl ((signatures, db'), t) ↦ inr (
                  inr (
                    inr (
                      signatures,
                      db',
                      ground arith,
                      record {
                        polled = q;
                        polled_db = d;
                        polling = p;
                        valid = valid;
                        total = ==→≡ _ _ agree;
                        done = mint_tx-Issues q outputs d (signatures, db') p.stored paid t;
                      },
                    )))
            ]
          ]
        ]
      ]

  pub mint-cases :
      (oracle : Oracle) (body : MintRequest) (db : Db)
      → ((e : Failure) × (mint c config keyset oracle body db ≡ (err e, db)))
        ⊎ ((quote : MintQuote) × (find MintQuote.id body.quote_id db.mint_quotes ≡ some quote)
            × MintCases quote body.outputs db (mint c config keyset oracle body db))
  unfolding mint fetch_quote
  mint-cases oracle body db = elim (Option-cases (find MintQuote.id body.quote_id db.mint_quotes)) [
    | inl missing ↦ inl (api_error 404 quote_not_found, ground arith)
    | inr (quote, e) ↦ elim (Result-cases (validate_outputs body.outputs keyset)) [
      | inr (f, p) ↦ inl (f, ground arith)
      | inl (u, p) ↦ inr (
        quote,
        e,
        elim (Bool-cases (is_issued quote.state)) [
          | inl done ↦ inl (done, ground arith)
          | inr open_still ↦ subst (MintCases quote body.outputs db) (sym (ground arith)) (
              mint_open-cases oracle quote body.outputs db
                (validate_outputs-AreValid body.outputs keyset p)
                (find-key MintQuote.id body.quote_id quote db.mint_quotes e))
        ],
      )
    ]
  ]
