-- ===== src/Mint/Credit/Idempotent.antt =====
-- A reference funds one quote, and a quote is funded once.
use picocash.Prelude.{
  ℕ, Text, ◌≡◌, refl, sym, ap, subst, ◌∙◌, ◌⊎◌, Bool, true, false, not, none, some, List, [], ◌∷◌,
  arith, ◌==◌, Bool-cases, Option-cases, inl, inr, ==_refl, ==→≡,
}
use picocash.Result.{Result, ok, err, ok-eq-ok}
use picocash.Table.{find}
use picocash.Mint.Data.{Failure, MintQuote}
use picocash.Mint.Credit.{
  CreditIssuance, IssueBody, Issued, get_deposit, insert_issuance, is_open, fund_quote,
  issue_credit, CreditRequest, serve_credit,
}

-- An answer to a first request.
abbrev is_first : Result Failure Issued → Bool
is_first (err e) = false
is_first (ok issued) = not issued.replay

-- What a request leaves: the table as it was, or one row more, whose keys are new.
issue_credit-cases :
    (authorized : Bool) (now : ℕ) (body : IssueBody) (quotes : List MintQuote)
    (rows : List CreditIssuance)
    → (((issue_credit authorized now body quotes rows).1 ≡ rows)
        × (is_first (issue_credit authorized now body quotes rows).0 ≡ false))
      ⊎ ((amount : ℕ) × (find CreditIssuance.ref body.ref rows ≡ none)
          × (find CreditIssuance.quote_id body.quote_id rows ≡ none)
          × (issue_credit authorized now body quotes rows ≡ (
            ok (record {
              quote_id = body.quote_id;
              ref = body.ref;
              amount = amount;
              replay = false;
            }),
            record { ref = body.ref; quote_id = body.quote_id; amount = amount } ∷ rows,
          )))
unfolding issue_credit fund_quote insert_issuance
issue_credit-cases authorized now body quotes rows = elim (Bool-cases authorized) [
  | inr stranger ↦ inl (rw (issue_credit, stranger) refl, rw (issue_credit, stranger) refl)
  | inl issuer ↦ elim (Option-cases (find CreditIssuance.ref body.ref rows)) [
    | inr (row, known) ↦ inl (ground (arith, issuer, known), ground (arith, issuer, known))
    | inl new ↦ elim (Option-cases (find MintQuote.id body.quote_id quotes)) [
      | inl missing ↦
          inl (ground (arith, issuer, new, missing), ground (arith, issuer, new, missing))
      | inr (quote, found) ↦ elim (Option-cases (find CreditIssuance.quote_id body.quote_id rows)) [
        | inr (row, funded) ↦
            inl (
              ground (arith, issuer, new, found, funded),
              ground (arith, issuer, new, found, funded),
            )
        | inl free ↦ elim (Bool-cases (is_open quote now)) [
          | inr closed ↦ inl (
            ground (arith, issuer, new, found, closed),
            ground (arith, issuer, new, found, closed),
          )
          | inl live ↦ elim (Bool-cases (quote.amount == 0)) [
            | inl nothing ↦ inl (
              ground (arith, issuer, new, found, live, nothing, free),
              ground (arith, issuer, new, found, live, nothing, free),
            )
            | inr something ↦ inr (
              quote.amount,
              new,
              free,
              rw
                  (
                    issue_credit, issuer, new, found, fund_quote, live, insert_issuance, new, free,
                    something,
                  )
                  refl,
            )
          ]
        ]
      ]
    ]
  ]
]

find-new :
    {A : Type 0} (key : A → ℕ) (added row : A) (k : ℕ) (rows : List A)
    → find key (key added) rows ≡ none
    → find key k rows ≡ some row
    → find key k (added ∷ rows) ≡ some row
unfolding find
find-new key added row k rows new held = elim (Bool-cases (key added == k)) [
  | inr apart ↦ rw apart held
  | inl same ↦ absurd (cc (subst (λ j. find key j rows ≡ none) (==→≡ (key added) k same) new, held))
]

find-head :
    {A : Type 0} (key : A → ℕ) (row : A) (rows : List A)
    → find key (key row) (row ∷ rows) ≡ some row
unfolding find
find-head key row rows = rw (==_refl (key row)) refl

-- A row is kept under both of its keys.
abbrev IsKept : CreditIssuance → List CreditIssuance → Type 0
IsKept row rows =
    (find CreditIssuance.ref row.ref rows ≡ some row)
    × (find CreditIssuance.quote_id row.quote_id rows ≡ some row)

issue_credit-IsKept :
    (r : CreditRequest) (row : CreditIssuance) (rows : List CreditIssuance)
    → IsKept row rows
    → IsKept row (issue_credit r.authorized r.now r.body r.quotes rows).1
issue_credit-IsKept r row rows kept =
    elim (issue_credit-cases r.authorized r.now r.body r.quotes rows) [
      | inl (same, _) ↦ rw same kept
      | inr (amount, new, free, e) ↦
          let added : CreditIssuance = record {
            ref = r.body.ref;
            quote_id = r.body.quote_id;
            amount = amount;
          } in
          rw e (
            find-new CreditIssuance.ref added row row.ref rows new kept.0,
            find-new CreditIssuance.quote_id added row row.quote_id rows free kept.1,
          )
    ]

serve_credit-IsKept :
    (rs : List CreditRequest) (row : CreditIssuance) (rows : List CreditIssuance)
    → IsKept row rows
    → IsKept row (serve_credit rs rows)
unfolding serve_credit
serve_credit-IsKept [] row rows kept = kept
serve_credit-IsKept (r ∷ rs) row rows kept =
    serve_credit-IsKept rs row (issue_credit r.authorized r.now r.body r.quotes rows).1
      (issue_credit-IsKept r row rows kept)

issue_credit-replay :
    (row : CreditIssuance) (rows : List CreditIssuance) (now : ℕ) (body : IssueBody)
    (quotes : List MintQuote)
    → find CreditIssuance.ref body.ref rows ≡ some row
    → row.quote_id ≡ body.quote_id
    → issue_credit true now body quotes rows ≡ (
      ok (record { quote_id = body.quote_id; ref = body.ref; amount = row.amount; replay = true }),
      rows,
    )
unfolding issue_credit
issue_credit-replay row rows now body quotes kept same =
    rw (issue_credit, kept, ap (λ q. q == body.quote_id) same, ==_refl body.quote_id) refl

issue_credit-shared :
    (row : CreditIssuance) (rows : List CreditIssuance) (now : ℕ) (body : IssueBody)
    (quotes : List MintQuote)
    → IsKept row rows
    → (body.ref ≡ row.ref) ⊎ (body.quote_id ≡ row.quote_id)
    → (issue_credit true now body quotes rows).1 ≡ rows
issue_credit-shared row rows now body quotes kept shared =
    elim (issue_credit-cases true now body quotes rows) [
      | inl (same, _) ↦ same
      | inr (amount, new, free, e) ↦ elim shared [
        | inl ref ↦ absurd (cc (subst (λ r. find CreditIssuance.ref r rows ≡ none) ref new, kept.0))
        | inr quote ↦
            absurd (cc (subst (λ q. find CreditIssuance.quote_id q rows ≡ none) quote free, kept.1))
      ]
    ]

-- What a request that was no replay has recorded.
issue_credit-recorded :
    (now : ℕ) (body : IssueBody) (quotes : List MintQuote) (rows rows' : List CreditIssuance)
    (issued : Issued)
    → issue_credit true now body quotes rows ≡ (ok issued, rows')
    → issued.replay ≡ false
    → (issued ≡ record {
      quote_id = body.quote_id;
      ref = body.ref;
      amount = issued.amount;
      replay = false;
    })
      × IsKept (record { ref = body.ref; quote_id = body.quote_id; amount = issued.amount }) rows'
issue_credit-recorded now body quotes rows rows' issued h first =
    elim (issue_credit-cases true now body quotes rows) [
      | inl (same, later) ↦ absurd (cc (ap (λ r. is_first r.0) h, later, first))
      | inr (amount, new, free, e) ↦
          let made : record {
            quote_id = body.quote_id;
            ref = body.ref;
            amount = amount;
            replay = false;
          }
              ≡ issued =
            ok-eq-ok (ap (λ r. r.0) (sym e ∙ h)) in
          let table : record { ref = body.ref; quote_id = body.quote_id; amount = amount } ∷ rows
              ≡ rows' =
            ap (λ r. r.1) (sym e ∙ h) in
          let same : amount ≡ issued.amount = ap Issued.amount made in
          let row : ℕ → CreditIssuance =
            λ n. record { ref = body.ref; quote_id = body.quote_id; amount = n } in
          (
            sym made
                ∙ ap
                    (λ n. record {
                      quote_id = body.quote_id;
                      ref = body.ref;
                      amount = n;
                      replay = false;
                    })
                    same,
            subst (λ n. IsKept (row n) rows') same
                (subst (IsKept (row amount)) table (
                  find-head CreditIssuance.ref (row amount) rows,
                  find-head CreditIssuance.quote_id (row amount) rows,
                )),
          )
    ]

-- Once credit was issued for a reference and a quote, then whatever is requested in between: the same
-- request is answered as a replay with the same amount, the quote's deposit is that amount, and no
-- request with the reference or for the quote changes the table.
pub issue_credit-once :
    (credit_ref : Text → Text) (now later : ℕ) (body other : IssueBody)
    (quotes quotes' : List MintQuote) (rows rows' : List CreditIssuance) (issued : Issued)
    (rs : List CreditRequest)
    → issue_credit true now body quotes rows ≡ (ok issued, rows')
    → issued.replay ≡ false
    → (other.ref ≡ body.ref) ⊎ (other.quote_id ≡ body.quote_id)
    → (issue_credit true later body quotes' (serve_credit rs rows')
        ≡ (ok (record issued { replay = true }), serve_credit rs rows'))
      × (get_deposit credit_ref body.quote_id (serve_credit rs rows')
          ≡ some (record { amount = issued.amount; tx_ref = credit_ref body.ref }))
      × ((issue_credit true later other quotes' (serve_credit rs rows')).1 ≡ serve_credit rs rows')
unfolding get_deposit
issue_credit-once credit_ref now later body other quotes quotes' rows rows' issued rs h first
      shared =
    let row : CreditIssuance = record {
      ref = body.ref;
      quote_id = body.quote_id;
      amount = issued.amount;
    } in
    let (made, recorded) = issue_credit-recorded now body quotes rows rows' issued h first in
    let kept = serve_credit-IsKept rs row rows' recorded in
    (
      issue_credit-replay row (serve_credit rs rows') later body quotes' kept.0 refl
          ∙ ap (λ (i : Issued). (ok (record i { replay = true }), serve_credit rs rows'))
              (sym made),
      rw (get_deposit, kept.1) refl,
      issue_credit-shared row (serve_credit rs rows') later other quotes' kept shared,
    )
