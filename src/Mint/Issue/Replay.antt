-- ===== src/Mint/Issue/Replay.antt =====
-- A request to mint that is repeated after it was answered, in routes/mint.ts.
use picocash.Prelude.{◌≡◌, refl, sym, ◌∙◌, subst, true, false, some, List, [], arith, inl, inr}
use picocash.Result.{ok}
use picocash.Table.{find, find-update_self, key-find}
use picocash.Mint.Data.{Crypto, Keyset, SignatureResponse, MintQuote, Db}
use picocash.Mint.Signing.{stored_for, validate_outputs, load_issued_signatures}
use picocash.Mint.Signing.Replay.{load_issued_signatures-recorded}
use picocash.Mint.Issue.{
  Config, Oracle, MintRequest, is_issued, marked_issued, fetch_quote, replay, mint,
}
use picocash.Mint.Issue.Outcome.{Issues, Minted, mint-cases}

module _ (c : Crypto) (config : Config) (keyset : Keyset) where
  valid_outputs :
      (oracle : Oracle) (body : MintRequest) (db db' : Db) (signatures : List SignatureResponse)
      → mint c config keyset oracle body db ≡ (ok signatures, db')
      → validate_outputs body.outputs keyset ≡ ok tt
  unfolding mint fetch_quote
  valid_outputs oracle body db db' signatures h = ground (arith, h)

  -- An issued quote is answered from its signatures.
  mint-issued :
      (oracle : Oracle) (body : MintRequest) (db : Db) (quote : MintQuote)
      → find MintQuote.id body.quote_id db.mint_quotes ≡ some quote
      → is_issued quote.state ≡ true
      → validate_outputs body.outputs keyset ≡ ok tt
      → mint c config keyset oracle body db ≡ (replay body.quote_id body.outputs db, db)
  unfolding mint fetch_quote
  mint-issued oracle body db quote found issued valid =
      ground (
        arith,
        found,
        valid,
        issued,
        key-find MintQuote.id body.quote_id quote db.mint_quotes found,
      )

  -- So the oracle and the clock do not matter to its answer.
  pub mint-replay_issued :
      (oracle oracle' : Oracle) (body : MintRequest) (db db' : Db) (quote : MintQuote)
      (signatures : List SignatureResponse)
      → find MintQuote.id body.quote_id db.mint_quotes ≡ some quote
      → is_issued quote.state ≡ true
      → mint c config keyset oracle body db ≡ (ok signatures, db')
      → mint c config keyset oracle' body db' ≡ (ok signatures, db')
  mint-replay_issued oracle oracle' body db db' quote signatures found issued h =
      let valid = valid_outputs oracle body db db' signatures h in
      let first = mint-issued oracle body db quote found issued valid in
      let again = mint-issued oracle' body db quote found issued valid in
      let same : db ≡ db' = cc (first, h) in
      subst (λ (d : Db). mint c config keyset oracle' body d ≡ (ok signatures, db')) same
        (again ∙ sym first ∙ h)

  -- What an issue leaves behind: the quote is issued, and its signatures can be read back.
  Issues-replay :
      (quote : MintQuote) (body : MintRequest) (db db' : Db) (signatures : List SignatureResponse)
      → find MintQuote.id quote.id db.mint_quotes ≡ some quote
      → stored_for quote.id db.blind_signatures ≡ []
      → Issues c config keyset quote body.outputs db (signatures, db')
      → (find MintQuote.id quote.id db'.mint_quotes ≡ some (marked_issued quote))
        × (load_issued_signatures quote.id body.outputs db' ≡ some signatures)
  unfolding load_issued_signatures
  Issues-replay quote body db db' signatures found none_yet s =
      let loaded =
        load_issued_signatures-recorded c keyset quote.id body.outputs signatures db
          s.records.signed s.records.unsigned none_yet in
      let marked =
        find-update_self MintQuote.id quote.id marked_issued quote db.mint_quotes (λ q. refl)
          found in
      rw (← s.after, ← s.records.recorded) (marked, loaded)

  Minted-replay :
      (oracle' : Oracle) (body : MintRequest) (quote : MintQuote) (db db' : Db)
      (signatures : List SignatureResponse)
      → quote.id ≡ body.quote_id
      → stored_for body.quote_id db.blind_signatures ≡ []
      → validate_outputs body.outputs keyset ≡ ok tt
      → Minted c config keyset body.outputs quote db (signatures, db')
      → mint c config keyset oracle' body db' ≡ (ok signatures, db')
  unfolding replay
  Minted-replay oracle' body quote db db' signatures named none_yet valid m =
      let same : m.polled.id ≡ body.quote_id = m.polling.same_id ∙ named in
      let (found, loaded) =
        Issues-replay m.polled body m.polled_db db' signatures m.polling.stored
          (rw (m.polling.signatures_kept, same) none_yet) m.done in
      mint-issued oracle' body db' (marked_issued m.polled)
        (subst (λ k. find MintQuote.id k db'.mint_quotes ≡ some (marked_issued m.polled)) same
          found)
        refl valid
      ∙ rw (replay, rw same at loaded) refl

  -- Where a request to mint has issued a quote, for which no signatures were recorded before, the
  -- same request answers with the same signatures again, whatever the oracle and the clock say, and
  -- writes nothing.
  pub mint-replay :
      (oracle oracle' : Oracle) (body : MintRequest) (db db' : Db) (quote : MintQuote)
      (signatures : List SignatureResponse)
      → find MintQuote.id body.quote_id db.mint_quotes ≡ some quote
      → is_issued quote.state ≡ false
      → stored_for body.quote_id db.blind_signatures ≡ []
      → mint c config keyset oracle body db ≡ (ok signatures, db')
      → mint c config keyset oracle' body db' ≡ (ok signatures, db')
  mint-replay oracle oracle' body db db' quote signatures found pending none_yet h =
      elim (mint-cases c config keyset oracle body db) [
        | inl (e, p) ↦ absurd (cc (p, h))
        | inr (quote', found', cases) ↦ elim cases [
          | inl (done, p) ↦ absurd (ground (arith, done, pending, found, found'))
          | inr (inl (e, p)) ↦ absurd (cc (p, h))
          | inr (inr (inl (e, q, d, polled, p))) ↦ absurd (cc (p, h))
          | inr (inr (inr (signatures', d, p, m))) ↦
              let (same, after) : (signatures' ≡ signatures) × (d ≡ db') = (cc (p, h), cc (p, h)) in
              Minted-replay oracle' body quote' db db' signatures
                (key-find MintQuote.id body.quote_id quote' db.mint_quotes found') none_yet
                (valid_outputs oracle body db db' signatures h)
                (subst
                  (λ (r : List SignatureResponse × Db).
                    Minted c config keyset body.outputs quote' db r)
                  (cc (same, after)) m)
        ]
      ]
