-- ===== src/Mint/Swap/Tests.antt =====
-- Runs of routes/swap.ts on concrete inputs.
use picocash.Prelude.{◌*◌, ◌≡◌, refl, List, [], ◌∷◌}
use picocash.Result.{ok}
use picocash.Table.{find}
use picocash.Mint.Data.{get_key, BlindedMessage, SignatureResponse, VerifiedInput, Db, empty_db}
use picocash.Mint.Signing.{sum_inputs, sum_outputs, verify_inputs, validate_outputs}
use picocash.Mint.Signing.Signatures.{AllSigned}
use picocash.Mint.Signing.Success.{IsSignable}
use picocash.Mint.Swap.{SwapRequest, swap}
use picocash.Mint.Swap.Success.{swap_total}
use picocash.Mint.Toy.{toy_crypto, keyset, output, token}

-- Two units for one and one.
abbrev change : SwapRequest
change = record { inputs = token 2 31 13 ∷ []; outputs = output 1 43 ∷ output 1 44 ∷ [] }

abbrev inputs : List VerifiedInput
inputs = record { input = token 2 31 13; y = 31 } ∷ []

toy_crypto-IsSignable : (o : BlindedMessage) → IsSignable toy_crypto keyset o
toy_crypto-IsSignable o key h = (o.b * key.privkey, (o.b, key.privkey), refl, refl)

swap_total_example :
    (signatures : List SignatureResponse) × (db' : Db) × (swap toy_crypto keyset 1000 change
        empty_db
      ≡ (ok signatures, db'))
    × AllSigned toy_crypto keyset change.outputs signatures
unfolding verify_inputs validate_outputs sum_inputs sum_outputs get_key find
swap_total_example =
    swap_total toy_crypto keyset 1000 change inputs empty_db refl refl refl (refl, tt)
      (refl, (refl, tt))
      (toy_crypto-IsSignable (output 1 43), (toy_crypto-IsSignable (output 1 44), tt))
