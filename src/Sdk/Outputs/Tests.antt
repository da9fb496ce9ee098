-- ===== src/Sdk/Outputs/Tests.antt =====
-- An output blinded, signed and taken, on a toy curve and a toy encoding of bytes.
use picocash.Prelude.{◌≡◌, refl, true, none, some, [], ◌∷◌}
use picocash.Result.{ok, err}
use picocash.Dict.{lookup}
use picocash.Crypto.Curve.{
  bytes_to_bigint, read_be, modulo, bytes_to_scalar, parse_point, mul_point, mul_base, hex_points,
  hash_e, bytes_to_hex, hex_digit, candidate, search_point, hash_to_curve, bytes_equal,
}
use picocash.Crypto.Bdhke.{blind_message, unblind_signature}
use picocash.Crypto.Dleq.{verify_dleq_blind_signature, verify, recompute}
use picocash.Crypto.Toy.{toy, toy-IsCurve, padded, scalar}
use picocash.Sdk.Store.{Proof}
use picocash.Acceptor.{pubkey_of, all_of, verify_proof_offline}
use picocash.Sdk.Outputs.{
  OutputSpec, PendingOutput, WireOutput, signature_count, prepare_output, prepare_pending, to_wire,
  prepare_outputs, finalize_signature, finalize_each, finalize_signatures,
}
use picocash.Sdk.Outputs.Offline.{offline, finalize_signatures-offline}
-- A byte is doublings, and its end an odd number.
use picocash.Sdk.Outputs.Toy.{encode, toy_hex, decodes, toy_proofs, keyset, signature}

abbrev spec : OutputSpec
spec = record { amount = 2; secret = encode (5 ∷ []) }

abbrev pending : PendingOutput
pending = record { amount = 2; secret = encode (5 ∷ []); r = scalar 1; b_ = encode (2 ∷ 2 ∷ []) }

abbrev wire : WireOutput
wire = record { amount = 2; keyset_id = 22; b_ = encode (2 ∷ 2 ∷ []) }

abbrev proof : Proof
proof = record {
  amount = 2;
  keyset_id = 22;
  secret = encode (5 ∷ []);
  c = encode (2 ∷ 2 ∷ []);
  dleq = some (record { e = encode (padded 2); s = encode (scalar 0); r = encode (scalar 1) });
  witness = none;
}

prepared : prepare_outputs toy toy_hex 22 ((spec, scalar 1) ∷ []) ≡ ok (wire ∷ [], pending ∷ [])
unfolding prepare_outputs prepare_pending prepare_output to_wire blind_message bytes_to_scalar
    hash_to_curve search_point candidate mul_base mul_point modulo bytes_to_bigint read_be
prepared = refl

finalized : finalize_signatures toy toy_hex keyset (pending ∷ []) (signature ∷ []) ≡ ok (proof ∷ [])
unfolding finalize_signatures finalize_each finalize_signature pubkey_of lookup
    verify_dleq_blind_signature verify recompute unblind_signature bytes_to_scalar parse_point
    mul_base mul_point modulo bytes_to_bigint read_be hash_e hex_points bytes_to_hex hex_digit
    bytes_equal
finalized = refl

-- One signature too few is refused.
too_few : finalize_signatures toy toy_hex keyset (pending ∷ []) [] ≡ err signature_count
unfolding finalize_signatures
too_few = refl

finalize_signatures-offline_example :
    all_of
      (verify_proof_offline (offline toy toy-IsCurve toy_hex decodes toy_proofs keyset) keyset)
      (proof ∷ [])
    ≡ true
finalize_signatures-offline_example =
    finalize_signatures-offline toy toy-IsCurve toy_hex decodes toy_proofs keyset 22
      ((spec, scalar 1) ∷ []) (wire ∷ []) (pending ∷ []) (signature ∷ []) (proof ∷ []) prepared
      finalized
