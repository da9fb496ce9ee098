-- ===== src/Mint/Relay/Tests.antt =====
-- Runs of routes/relay.ts on concrete inputs.
use picocash.Prelude.{◌≡◌, refl, Text, true, [], ◌∷◌}
use picocash.Result.{ok, err}
use picocash.Table.{find}
use picocash.Mint.Data.{api_error, payload_too_large, relay_not_found}
use picocash.Mint.Relay.{
  RelayConfig, RelayBlob, upload, read, is_b64url, all_b64url, is_b64url_text, is_upload, delete,
  post_blob, take_blob, serve,
}
use picocash.Mint.Relay.Safety.{take_blob-once}

abbrev relay : RelayConfig
relay = record { enabled = true; max_bytes = 3; ttl_seconds = 60 }

-- Twenty-two times the letter A.
abbrev link : Text
link = 120195728695363832028105649188259543813234440955576641

abbrev blob : RelayBlob
blob = record { id = link; ct = 97 ∷ 98 ∷ []; expires_at = 160 }

too_large :
    (post_blob relay 100 link (97 ∷ 97 ∷ 97 ∷ 97 ∷ 97 ∷ 97 ∷ []) []).0
    ≡ err (api_error 413 payload_too_large)
unfolding post_blob is_upload all_b64url is_b64url
too_large = refl

taken : take_blob relay 150 link (blob ∷ []) ≡ (ok (97 ∷ 98 ∷ []), [])
unfolding take_blob is_b64url_text is_b64url find delete
taken = refl

take_blob-once_example :
    (take_blob relay 155 link
      (serve relay ((151, read link) ∷ (152, upload 5 (97 ∷ [])) ∷ []) [])).0
    ≡ err (api_error 404 relay_not_found)
take_blob-once_example =
    take_blob-once relay link 150 155 (97 ∷ 98 ∷ []) (blob ∷ []) []
      ((151, read link) ∷ (152, upload 5 (97 ∷ [])) ∷ []) taken (tt, (refl, tt))
