-- ===== src/Mint/Relay/Safety.antt =====
-- A link of routes/relay.ts is read once at most, and until it expires it can be read.
use picocash.Prelude.{ℕ, Text, ◌≡◌, refl, false, none, List, [], ◌∷◌, arith, ◌==◌, All}
use picocash.Result.{ok, err}
use picocash.Table.{find, insert}
use picocash.Mint.Data.{api_error, relay_not_found}
use picocash.Mint.Relay.{
  RelayConfig, RelayBlob, RelayRequest, upload, read, purge, delete, post_blob, take_blob, serve,
}

find-delete_self : (id : Text) (bs : List RelayBlob) → find RelayBlob.id id (delete id bs) ≡ none
unfolding find delete
find-delete_self id [] = refl
find-delete_self id (b ∷ bs) = ground (arith, find-delete_self id bs)

find-delete-none :
    (id j : Text) (bs : List RelayBlob)
    → find RelayBlob.id id bs ≡ none
    → find RelayBlob.id id (delete j bs) ≡ none
unfolding find delete
find-delete-none id j [] h = refl
find-delete-none id j (b ∷ bs) h = ground (arith, find-delete-none id j bs)

find-purge-none :
    (id : Text) (now : ℕ) (bs : List RelayBlob)
    → find RelayBlob.id id bs ≡ none
    → find RelayBlob.id id (purge now bs) ≡ none
unfolding find purge
find-purge-none id now [] h = refl
find-purge-none id now (b ∷ bs) h = ground (arith, find-purge-none id now bs)

-- The request stores nothing under the id.
abbrev pub IsOther : Text → ℕ × RelayRequest → Type 0
IsOther id (now, upload j ct) = (j == id) ≡ false
IsOther id (now, read j) = Unit

module _ (config : RelayConfig) where
  post_blob-none :
      (id : Text) (now : ℕ) (j : Text) (ct : List ℕ) (bs : List RelayBlob)
      → (j == id) ≡ false
      → find RelayBlob.id id bs ≡ none
      → find RelayBlob.id id (post_blob config now j ct bs).1 ≡ none
  unfolding post_blob insert find
  post_blob-none id now j ct bs other h = ground (arith, h, find-purge-none id now bs h)

  take_blob-none :
      (id : Text) (now : ℕ) (j : Text) (bs : List RelayBlob)
      → find RelayBlob.id id bs ≡ none
      → find RelayBlob.id id (take_blob config now j bs).1 ≡ none
  unfolding take_blob
  take_blob-none id now j bs h = ground (arith, h, find-delete-none id j bs h)

  serve-none :
      (id : Text) (rs : List (ℕ × RelayRequest)) (bs : List RelayBlob)
      → All (IsOther id) rs
      → find RelayBlob.id id bs ≡ none
      → find RelayBlob.id id (serve config rs bs) ≡ none
  unfolding serve
  serve-none id [] bs o h = h
  serve-none id ((now, upload j ct) ∷ rs) bs o h =
      serve-none id rs (post_blob config now j ct bs).1 o.1 (post_blob-none id now j ct bs o.0 h)
  serve-none id ((now, read j) ∷ rs) bs o h =
      serve-none id rs (take_blob config now j bs).1 o.1 (take_blob-none id now j bs h)

  -- Once a link was read, every later read of it answers that there is no such link, whatever is
  -- asked in between, as long as nothing is stored under its id again.
  pub take_blob-once :
      (id : Text) (now later : ℕ) (ct : List ℕ) (bs bs' : List RelayBlob)
      (rs : List (ℕ × RelayRequest))
      → take_blob config now id bs ≡ (ok ct, bs')
      → All (IsOther id) rs
      → (take_blob config later id (serve config rs bs')).0 ≡ err (api_error 404 relay_not_found)
  unfolding take_blob
  take_blob-once id now later ct bs bs' rs h o =
      let gone : find RelayBlob.id id bs' ≡ none = ground (arith, h, find-delete_self id bs) in
      let missing = serve-none id rs bs' o gone in ground (arith, h, missing)
