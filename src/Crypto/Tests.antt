-- ===== src/Crypto/Tests.antt =====
-- Runs of the blind signatures and their proofs on a toy curve.
use picocash.Prelude.{ℕ, ◌<◌, ◌⊎◌, ◌++◌, false, ◌≡◌, refl, true, none, some, [], ◌∷◌}
use picocash.Result.{ok, err}
use picocash.Crypto.Curve.{
  Bytes, bytes_to_bigint, read_be, write_be, modulo, bytes_to_scalar, scalar_to_bytes, parse_point,
  mul_point, mul_base, hex_points, hash_e, bytes_to_hex, hex_digit, candidate, search_point,
  hash_to_curve, bytes_equal, domain_separator, no_valid_point, to_bytes,
}
use picocash.Crypto.Curve.Search.{NoneBelow, hash_to_curve-first}
use picocash.Crypto.Bdhke.Unblinding.{blind_message_complete}
use picocash.Crypto.Bdhke.{
  BlindingResult, blind_message, sign_blinded_message, unblind_signature, verify_proof,
  derive_public_key,
}
use picocash.Crypto.Dleq.{
  DleqProof, create_dleq_proof, verify_dleq_blind_signature, deterministic_nonce, nonce_or_drawn,
  verify, recompute,
}
use picocash.Crypto.Toy.{toy, toy-IsCurve, padded, scalar, Residue}

abbrev secret : Bytes
secret = 5 ∷ []

abbrev blinding : BlindingResult
blinding = record { b_ = 2 ∷ 2 ∷ []; r = scalar 1 }

abbrev dleq : DleqProof
dleq = record { e = padded 2; s = scalar 0 }

key_read : bytes_to_scalar toy (scalar 2) ≡ ok 2
unfolding bytes_to_scalar bytes_to_bigint read_be
key_read = refl

blinded : blind_message toy secret (scalar 1) ≡ ok blinding
unfolding blind_message bytes_to_scalar hash_to_curve search_point candidate mul_base mul_point
    modulo bytes_to_bigint read_be
blinded = refl

made : create_dleq_proof toy (2 ∷ 2 ∷ []) (scalar 2) none ≡ ok dleq
unfolding create_dleq_proof nonce_or_drawn deterministic_nonce bytes_to_scalar parse_point mul_base
    mul_point modulo bytes_to_bigint read_be hash_e hex_points bytes_to_hex hex_digit
    scalar_to_bytes write_be
made = refl

signed : sign_blinded_message toy (2 ∷ 2 ∷ []) (scalar 2) ≡ ok (2 ∷ 1 ∷ [])
unfolding sign_blinded_message bytes_to_scalar parse_point bytes_to_bigint read_be
signed = refl

derived : derive_public_key toy (scalar 2) ≡ ok (2 ∷ 2 ∷ [])
unfolding derive_public_key bytes_to_scalar mul_base mul_point modulo bytes_to_bigint read_be
derived = refl

unsealed : unblind_signature toy (2 ∷ 1 ∷ []) (scalar 1) (2 ∷ 2 ∷ []) ≡ ok (2 ∷ 2 ∷ [])
unfolding unblind_signature bytes_to_scalar parse_point bytes_to_bigint read_be
unsealed = refl

-- A proof for another key is refused.
wrong_key : verify_dleq_blind_signature toy (2 ∷ 2 ∷ []) (2 ∷ 1 ∷ []) (2 ∷ 1 ∷ []) dleq ≡ false
unfolding verify_dleq_blind_signature verify recompute parse_point mul_base mul_point modulo
    bytes_to_bigint read_be hash_e hex_points bytes_to_hex hex_digit bytes_equal
wrong_key = refl

blind_message_complete_example :
    (c_ mint_pubkey c : Bytes) × (y : Residue) × (sign_blinded_message toy (2 ∷ 2 ∷ []) (scalar 2)
      ≡ ok c_)
    × (derive_public_key toy (scalar 2) ≡ ok mint_pubkey)
    × (unblind_signature toy c_ (scalar 1) mint_pubkey ≡ ok c)
    × (verify_proof toy secret c (scalar 2) ≡ ok true)
    × (hash_to_curve toy secret ≡ ok y)
    × (to_bytes toy true (toy.multiply 2 y) ≡ ok c)
blind_message_complete_example =
    blind_message_complete toy toy-IsCurve secret (scalar 1) (scalar 2) 2 blinding blinded key_read

hash_to_curve-first_example :
    ((p : Residue) × (n : ℕ) × (hash_to_curve toy secret ≡ ok p)
      × (n < 65536)
      × (toy.from_hex (candidate toy (toy.sha256 (domain_separator ++ secret)) n) ≡ some p)
      × NoneBelow toy (toy.sha256 (domain_separator ++ secret)) 0 n)
    ⊎ ((hash_to_curve toy secret ≡ err no_valid_point)
        × NoneBelow toy (toy.sha256 (domain_separator ++ secret)) 0 65536)
hash_to_curve-first_example = hash_to_curve-first toy secret
