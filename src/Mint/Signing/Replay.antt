-- ===== src/Mint/Signing/Replay.antt =====
-- `loadIssuedSignatures` of signing.ts reads back what `signAndRecord` recorded for a quote.
use picocash.Prelude.{
  ◌+◌, Text, ◌≡◌, refl, ap, ◌∙◌, subst, Option, none, some, List, [], ◌∷◌, arith, ==_refl, length,
}
use picocash.Table.{find}
use picocash.Mint.Data.{Crypto, Keyset, BlindedMessage, SignatureResponse, BlindSignature, Db}
use picocash.Mint.Signing.{
  is_for, stored_for, by_b, response_of, replay_from, load_issued_signatures,
}
use picocash.Mint.Signing.Signatures.{signature_row, with_signatures, NoneSigned, AllSigned}

-- The rows for a quote, after rows for it were added.
stored_for-with_signatures :
    (q : Text) (os : List BlindedMessage) (rs : List SignatureResponse) (rows : List BlindSignature)
    → stored_for q (with_signatures os rs (some q) rows)
      ≡ with_signatures os rs (some q) (stored_for q rows)
unfolding stored_for is_for
stored_for-with_signatures q [] rs rows = refl
stored_for-with_signatures q (o ∷ os) [] rows = refl
stored_for-with_signatures q (o ∷ os) (r ∷ rs) rows =
    stored_for-with_signatures q os rs (signature_row o r (some q) ∷ rows)
    ∙ ap (λ rows'. with_signatures os rs (some q) rows') (rw (==_refl q) refl)

find-stored_for :
    (q b : Text) (rows : List BlindSignature)
    → find BlindSignature.b b rows ≡ none
    → find BlindSignature.b b (stored_for q rows) ≡ none
unfolding stored_for is_for find
find-stored_for q b [] h = refl
find-stored_for q b (row ∷ rows) h = ground (arith, find-stored_for q b rows)

by_b-none :
    (b : Text) (rows : List BlindSignature)
    → find BlindSignature.b b rows ≡ none
    → by_b b rows ≡ none
unfolding by_b find
by_b-none b [] h = refl
by_b-none b (row ∷ rows) h = ground (arith, by_b-none b rows)

module _ (q : Option Text) where
  by_b-with_signatures :
      (b : Text) (row : BlindSignature) (os : List BlindedMessage) (rs : List SignatureResponse)
      (rows : List BlindSignature)
      → by_b b rows ≡ some row
      → by_b b (with_signatures os rs q rows) ≡ some row
  unfolding by_b
  by_b-with_signatures b row [] rs rows h = h
  by_b-with_signatures b row (o ∷ os) [] rows h = h
  by_b-with_signatures b row (o ∷ os) (r ∷ rs) rows h =
      by_b-with_signatures b row os rs (signature_row o r q ∷ rows) (rw (by_b, h) refl)

  abbrev AllFound : List BlindSignature → List BlindedMessage → List SignatureResponse → Type 0
  AllFound table [] rs = Unit
  AllFound table (o ∷ os) [] = Unit
  AllFound table (o ∷ os) (r ∷ rs) =
      (by_b o.b table ≡ some (signature_row o r q)) × AllFound table os rs

  AllFound-with_signatures :
      (os : List BlindedMessage) (rs : List SignatureResponse) (rows : List BlindSignature)
      → NoneSigned os rs q rows
      → AllFound (with_signatures os rs q rows) os rs
  unfolding by_b
  AllFound-with_signatures [] rs rows n = tt
  AllFound-with_signatures (o ∷ os) [] rows n = tt
  AllFound-with_signatures (o ∷ os) (r ∷ rs) rows n = (
    by_b-with_signatures o.b (signature_row o r q) os rs (signature_row o r q ∷ rows)
        (rw (by_b, by_b-none o.b rows n.0, ==_refl o.b) refl),
    AllFound-with_signatures os rs (signature_row o r q ∷ rows) n.1,
  )

  module _ (c : Crypto) (keyset : Keyset) where
    -- Where every output is found, the replay is the list of the responses.
    replay_from-AllFound :
        (table : List BlindSignature) (os : List BlindedMessage) (rs : List SignatureResponse)
        → AllSigned c keyset os rs
        → AllFound table os rs
        → replay_from table os ≡ some rs
    unfolding replay_from response_of
    replay_from-AllFound table [] [] s f = refl
    replay_from-AllFound table [] (r ∷ rs) s f = absurd s
    replay_from-AllFound table (o ∷ os) [] s f = absurd s
    replay_from-AllFound table (o ∷ os) (r ∷ rs) s f =
        rw (replay_from, f.0, replay_from-AllFound table os rs s.1 f.1)
          (rw ((s.0).amount, (s.0).of_keyset) refl)

    length-with_signatures :
        (os : List BlindedMessage) (rs : List SignatureResponse) (rows : List BlindSignature)
        → AllSigned c keyset os rs
        → length (with_signatures os rs q rows) ≡ length os + length rows
    length-with_signatures [] rs rows s = omega arith
    length-with_signatures (o ∷ os) [] rows s = absurd s
    length-with_signatures (o ∷ os) (r ∷ rs) rows s =
        omega (arith, length-with_signatures os rs (signature_row o r q ∷ rows) s.1)

NoneSigned-stored_for :
    (q : Text) (os : List BlindedMessage) (rs : List SignatureResponse) (rows : List BlindSignature)
    → NoneSigned os rs (some q) rows
    → NoneSigned os rs (some q) (stored_for q rows)
unfolding stored_for is_for
NoneSigned-stored_for q [] rs rows n = tt
NoneSigned-stored_for q (o ∷ os) [] rows n = tt
NoneSigned-stored_for q (o ∷ os) (r ∷ rs) rows n = (
  find-stored_for q o.b rows n.0,
  subst (NoneSigned os rs (some q)) (rw (==_refl q) refl)
      (NoneSigned-stored_for q os rs (signature_row o r (some q) ∷ rows) n.1),
)

-- The signatures that were recorded for a quote without any are read back, in order.
pub load_issued_signatures-recorded :
    (c : Crypto) (keyset : Keyset) (q : Text) (os : List BlindedMessage)
    (rs : List SignatureResponse) (db : Db)
    → AllSigned c keyset os rs
    → NoneSigned os rs (some q) db.blind_signatures
    → stored_for q db.blind_signatures ≡ []
    → load_issued_signatures q os
        (record db { blind_signatures = with_signatures os rs (some q) db.blind_signatures })
      ≡ some rs
unfolding load_issued_signatures
load_issued_signatures-recorded c keyset q os rs db s n none_yet =
    let rows = with_signatures os rs (some q) [] in
    let stored : stored_for q (with_signatures os rs (some q) db.blind_signatures) ≡ rows =
      stored_for-with_signatures q os rs db.blind_signatures
      ∙ ap (λ rows'. with_signatures os rs (some q) rows') none_yet in
    let unsigned =
      subst (NoneSigned os rs (some q)) none_yet
        (NoneSigned-stored_for q os rs db.blind_signatures n) in
    let all : length rows ≡ length os =
      omega (arith, length-with_signatures (some q) c keyset os rs [] s) in
    rw (stored, all, ==_refl (length os))
      (replay_from-AllFound (some q) c keyset rows os rs s
        (AllFound-with_signatures (some q) os rs [] unsigned))
