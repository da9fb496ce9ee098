-- ===== src/Mint/Relay.antt =====
-- routes/relay.ts: encrypted links that can be read once. The table `relay_blobs` is a state of its
-- own; a ciphertext is the list of its characters' codes, and an id is a text, numbered.
pub mod Safety
mod Tests
use picocash.Prelude.{
  ℕ, zero, suc, ◌+◌, ◌*◌, ◌/◌, ◌%◌, Text, Bool, true, false, not, none, some, List, [], ◌∷◌, length,
  ◌==◌, ◌&&◌, ◌||◌, ltb, leb, if◌then◌else◌,
}
use picocash.Result.{Result, ok, err}
use picocash.Table.{find, insert}
use picocash.Mint.Data.{
  Failure, api_error, internal, invalid_request, relay_disabled, relay_not_found, payload_too_large,
}

pub record RelayConfig : Type 0 where
  pub enabled : Bool
  pub max_bytes : ℕ
  pub ttl_seconds : ℕ

pub record RelayBlob : Type 0 where
  pub id : Text
  pub ct : List ℕ
  pub expires_at : ℕ

pub data RelayRequest : Type 0 where
  upload : Text → List ℕ → RelayRequest
  read : Text → RelayRequest

-- `[A-Za-z0-9_-]`
unfoldable pub is_b64url : ℕ → Bool
is_b64url code =
    (leb 65 code && leb code 90)
    || (leb 97 code && leb code 122)
    || (leb 48 code && leb code 57)
    || code == 95
    || code == 45

unfoldable pub all_b64url : List ℕ → Bool
all_b64url [] = true
all_b64url (code ∷ codes) = is_b64url code && all_b64url codes

-- `B64URL.test(id)` for a text of `n` bytes: its number has their digits behind a leading one.
unfoldable pub is_b64url_text : ℕ → Text → Bool
is_b64url_text zero t = t == 1
is_b64url_text (suc n) t = is_b64url (t % 256) && is_b64url_text n (t / 256)

-- `uploadSchema`
unfoldable pub is_upload : List ℕ → Bool
is_upload ct = leb 1 (length ct) && leb (length ct) 1000000 && all_b64url ct

-- DELETE FROM relay_blobs WHERE expires_at < now
unfoldable pub purge : ℕ → List RelayBlob → List RelayBlob
purge now [] = []
purge now (b ∷ bs) = if ltb b.expires_at now then purge now bs else b ∷ purge now bs

-- DELETE FROM relay_blobs WHERE id = …
unfoldable pub delete : Text → List RelayBlob → List RelayBlob
delete id [] = []
delete id (b ∷ bs) = if b.id == id then delete id bs else b ∷ delete id bs

module _ (config : RelayConfig) where
  -- POST /v1/relay, which answers with the id. `id` is the text of 16 random bytes.
  unfoldable pub post_blob :
      ℕ → Text → List ℕ → List RelayBlob → Result Failure Text × List RelayBlob
  post_blob now id ct blobs =
      if not config.enabled
      then (err (api_error 404 relay_disabled), blobs)
      else if not (is_upload ct)
      then (err (api_error 400 invalid_request), blobs)
      else if ltb config.max_bytes (length ct * 3 / 4)
      then (err (api_error 413 payload_too_large), blobs)
      else (let kept = purge now blobs in
          let blob : RelayBlob = record {
            id = id;
            ct = ct;
            expires_at = now + config.ttl_seconds;
          } in
          elim (insert RelayBlob.id blob kept) [
            | none ↦ (err internal, kept)
            | some rows ↦ (ok id, rows)
          ])

  -- GET /v1/relay/:id, which answers with the ciphertext.
  unfoldable pub take_blob : ℕ → Text → List RelayBlob → Result Failure (List ℕ) × List RelayBlob
  take_blob now id blobs =
      if not config.enabled
      then (err (api_error 404 relay_disabled), blobs)
      else if not (is_b64url_text 22 id)
      then (err (api_error 404 relay_not_found), blobs)
      else elim (find RelayBlob.id id blobs) [
        | none ↦ (err (api_error 404 relay_not_found), delete id blobs)
        | some row ↦
            if ltb row.expires_at now
            then (err (api_error 404 relay_not_found), delete id blobs)
            else (ok row.ct, delete id blobs)
      ]

  -- The table after requests, each with its time.
  unfoldable pub serve : List (ℕ × RelayRequest) → List RelayBlob → List RelayBlob
  serve [] blobs = blobs
  serve ((now, upload id ct) ∷ rs) blobs = serve rs (post_blob now id ct blobs).1
  serve ((now, read id) ∷ rs) blobs = serve rs (take_blob now id blobs).1
