-- ===== src/Mint/Attribution.antt =====
-- Signatures are recorded for a quote only once it is issued: the reason why routes/mint.ts can answer
-- a repeated request from them.
use picocash.Prelude.{
  Text, ◌≡◌, refl, ◌∙◌, Bool, true, false, Option, none, some, List, [], ◌∷◌, arith, ◌==◌,
  Bool-cases, ==→≡, ==→≢, inl, inr, ◌⊎◌,
}
use picocash.Table.{find, update, find-update_self, find-update_ne}
use picocash.Mint.Data.{
  BlindedMessage, SignatureResponse, BlindSignature, MintQuote, QuoteState, Db, empty_db,
}
use picocash.Mint.Signing.{stored_for}
use picocash.Mint.Signing.Signatures.{signature_row, with_signatures}

-- No row of this key is issued.
abbrev pub is_pending : Option MintQuote → Bool
is_pending none = true
is_pending (some row) = elim row.state [ QuoteState.issued ↦ false | _ ↦ true ]

pub record IsAttributed (db : Db) : Type 0 where
  pub none_yet :
      (q : Text)
      → is_pending (find MintQuote.id q db.mint_quotes) ≡ true
      → stored_for q db.blind_signatures ≡ []

pub empty_db-IsAttributed : IsAttributed empty_db
unfolding stored_for
empty_db-IsAttributed = record { none_yet = λ q h. refl }

-- Other tables do not matter.
pub IsAttributed-same :
    (db d : Db)
    → d.mint_quotes ≡ db.mint_quotes
    → d.blind_signatures ≡ db.blind_signatures
    → IsAttributed db
    → IsAttributed d
IsAttributed-same db d e f v = record { none_yet = λ q h. rw f (v.none_yet q (rw e at h)) }

stored_for-others :
    (q : Text) (for : Option Text) (os : List BlindedMessage) (rs : List SignatureResponse)
    (rows : List BlindSignature)
    → (for ≡ none) ⊎ ((k : Text) × (for ≡ some k) × ((k == q) ≡ false))
    → stored_for q (with_signatures os rs for rows) ≡ stored_for q rows
unfolding stored_for
stored_for-others q for [] rs rows h = refl
stored_for-others q for (o ∷ os) [] rows h = refl
stored_for-others q for (o ∷ os) (r ∷ rs) rows h =
    stored_for-others q for os rs (signature_row o r for ∷ rows) h ∙ ground (arith, h)

-- Signatures for no quote change nothing here.
pub IsAttributed-unattributed :
    (os : List BlindedMessage) (rs : List SignatureResponse) (db : Db)
    → IsAttributed db
    → IsAttributed (record db { blind_signatures = with_signatures os rs none db.blind_signatures })
IsAttributed-unattributed os rs db v = record {
  none_yet = λ q h. stored_for-others q none os rs db.blind_signatures (inl refl) ∙ v.none_yet q h;
}

-- Nor does a change of a quote that leaves it unissued.
pub IsAttributed-update :
    (id : Text) (f : MintQuote → MintQuote) (quote : MintQuote) (db : Db)
    → ((r : MintQuote) → (f r).id ≡ r.id)
    → find MintQuote.id id db.mint_quotes ≡ some quote
    → is_pending (some quote) ≡ true
    → IsAttributed db
    → IsAttributed (record db { mint_quotes = update MintQuote.id id f db.mint_quotes })
IsAttributed-update id f quote db hf found pending v = record {
  none_yet = λ q h. elim (Bool-cases (id == q)) [
    | inl same ↦ v.none_yet q (ground (arith, ==→≡ id q same, found, pending))
    | inr other ↦
        v.none_yet q
          (rw (find-update_ne MintQuote.id id q f db.mint_quotes hf (==→≢ id q other)) at h)
  ];
}

-- A quote may have signatures once it is marked issued.
pub IsAttributed-issued :
    (id : Text) (f : MintQuote → MintQuote) (quote : MintQuote) (os : List BlindedMessage)
    (rs : List SignatureResponse) (db : Db)
    → ((r : MintQuote) → (f r).id ≡ r.id)
    → find MintQuote.id id db.mint_quotes ≡ some quote
    → (f quote).state ≡ QuoteState.issued
    → IsAttributed db
    → IsAttributed (record db {
      mint_quotes = update MintQuote.id id f db.mint_quotes;
      blind_signatures = with_signatures os rs (some id) db.blind_signatures;
    })
IsAttributed-issued id f quote os rs db hf found issued v = record {
  none_yet = λ q h. elim (Bool-cases (id == q)) [
    | inl same ↦ absurd (
        ground (
          arith,
          ==→≡ id q same,
          find-update_self MintQuote.id id f quote db.mint_quotes hf found,
          issued,
          h,
        ))
    | inr other ↦
        stored_for-others q (some id) os rs db.blind_signatures (inr (id, refl, other))
        ∙ v.none_yet q
            (rw (find-update_ne MintQuote.id id q f db.mint_quotes hf (==→≢ id q other)) at h)
  ];
}

-- A new row that is not issued leaves its key without signatures.
pub IsAttributed-insert :
    (quote : MintQuote) (db : Db)
    → is_pending (some quote) ≡ true
    → find MintQuote.id quote.id db.mint_quotes ≡ none
    → IsAttributed db
    → IsAttributed (record db { mint_quotes = quote ∷ db.mint_quotes })
unfolding find
IsAttributed-insert quote db pending free v = record {
  none_yet = λ q h. elim (Bool-cases (quote.id == q)) [
    | inl same ↦ v.none_yet q (ground (arith, ==→≡ quote.id q same, free))
    | inr other ↦ v.none_yet q (rw other at h)
  ];
}
