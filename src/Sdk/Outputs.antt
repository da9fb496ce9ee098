-- ===== src/Sdk/Outputs.antt =====
-- blinding.ts: outputs blinded for a mint, and its signatures unblinded into proofs; with the check of
-- verify.ts that anyone can repeat offline. Drawn secrets and factors are arguments.
pub mod Finalized
pub mod Offline
pub mod Kept
pub mod Toy
mod Tests
use picocash.Prelude.{
  ℕ, Text, Bool, true, false, Option, none, some, List, [], ◌∷◌, map, length, sum_by, ◌==◌,
  if◌then◌else◌,
}
use picocash.Result.{Result, ok, err, ensure, ◌>>=◌, ◌>>◌}
use picocash.Crypto.Curve.{Bytes, Curve, CurveError, hash_to_curve, to_bytes}
use picocash.Crypto.Bdhke.{BlindingResult, blind_message, unblind_signature}
use picocash.Crypto.Dleq.{DleqProof, verify_dleq_blind_signature, verify_dleq_proof}
use picocash.Sdk.Store.{Proof, Dleq}
use picocash.Acceptor.{KeysetInfo, pubkey_of}

-- `bytesToHex` and `hexToBytes` of @noble/hashes; `none` is an exception.
pub record Hex : Type 0 where
  pub to_hex : Bytes → Text
  pub of_hex : Text → Option Bytes

pub record OutputSpec : Type 0 where
  pub amount : ℕ
  pub secret : Text

pub record PendingOutput : Type 0 where
  pub amount : ℕ
  pub secret : Text
  pub r : Bytes
  pub b_ : Text

pub record WireOutput : Type 0 where
  pub amount : ℕ
  pub keyset_id : Text
  pub b_ : Text

pub record WireSignature : Type 0 where
  pub amount : ℕ
  pub c_ : Text
  pub e : Text
  pub s : Text

pub data OutputError : Type 0 where
  bad_hex curve_failure signature_count no_key dleq_failed : OutputError

abbrev pub crypto : {A : Type 0} → Result CurveError A → Result OutputError A
crypto (ok a) = ok a
crypto (err e) = err curve_failure

abbrev pub or_throw_error : {A : Type 0} → OutputError → Option A → Result OutputError A
or_throw_error e none = err e
or_throw_error e (some a) = ok a

module _ {P : Type 0} (curve : Curve P) (hex : Hex) where
  abbrev pub bytes_of : Text → Result OutputError Bytes
  bytes_of text = or_throw_error bad_hex (hex.of_hex text)

  unfoldable pub prepare_output : OutputSpec → Bytes → Result OutputError PendingOutput
  prepare_output spec factor = do
    secret ← bytes_of spec.secret
    blinding ← crypto (blind_message curve secret factor)
    ok (record {
      amount = spec.amount;
      secret = spec.secret;
      r = blinding.r;
      b_ = hex.to_hex blinding.b_;
    })

  unfoldable pub prepare_pending :
      List (OutputSpec × Bytes) → Result OutputError (List PendingOutput)
  prepare_pending [] = ok []
  prepare_pending ((spec, factor) ∷ specs) = do
    p ← prepare_output spec factor
    rest ← prepare_pending specs
    ok (p ∷ rest)

  unfoldable pub to_wire : Text → PendingOutput → WireOutput
  to_wire keyset_id p = record { amount = p.amount; keyset_id = keyset_id; b_ = p.b_ }

  unfoldable pub prepare_outputs :
      Text → List (OutputSpec × Bytes) → Result OutputError (List WireOutput × List PendingOutput)
  prepare_outputs keyset_id specs = do
    pending ← prepare_pending specs
    ok (map (to_wire keyset_id) pending, pending)

  unfoldable pub finalize_signature :
      KeysetInfo → PendingOutput → WireSignature → Result OutputError Proof
  finalize_signature keyset p sig = do
    pubkey_hex ← or_throw_error no_key (pubkey_of keyset.keys p.amount)
    pubkey ← bytes_of pubkey_hex
    b_ ← bytes_of p.b_
    c_ ← bytes_of sig.c_
    e ← bytes_of sig.e
    s ← bytes_of sig.s
    ensure (verify_dleq_blind_signature curve b_ c_ pubkey (record { e = e; s = s })) dleq_failed
    c ← crypto (unblind_signature curve c_ p.r pubkey)
    ok (record {
      amount = p.amount;
      keyset_id = keyset.id;
      secret = p.secret;
      c = hex.to_hex c;
      dleq = some (record { e = sig.e; s = sig.s; r = hex.to_hex p.r });
      witness = none;
    })

  unfoldable pub finalize_each :
      KeysetInfo → List PendingOutput → List WireSignature → Result OutputError (List Proof)
  finalize_each keyset (p ∷ pending) (sig ∷ signatures) = do
    proof ← finalize_signature keyset p sig
    rest ← finalize_each keyset pending signatures
    ok (proof ∷ rest)
  finalize_each keyset _ _ = ok []

  unfoldable pub finalize_signatures :
      KeysetInfo → List PendingOutput → List WireSignature → Result OutputError (List Proof)
  finalize_signatures keyset pending signatures = do
    ensure (length signatures == length pending) signature_count
    finalize_each keyset pending signatures

  unfoldable pub y_of_secret : Text → Result OutputError Text
  y_of_secret secret = do
    bytes ← bytes_of secret
    y ← crypto (hash_to_curve curve bytes)
    raw ← crypto (to_bytes curve true y)
    ok (hex.to_hex raw)

  unfoldable pub verify_offline : Text → Text → Text → Text → Text → Text → Result OutputError Bool
  verify_offline secret c r pubkey e s = do
    secret' ← bytes_of secret
    c' ← bytes_of c
    r' ← bytes_of r
    pubkey' ← bytes_of pubkey
    e' ← bytes_of e
    s' ← bytes_of s
    ok (verify_dleq_proof curve secret' c' r' pubkey' (record { e = e'; s = s' }))

  -- What the acceptor is given as `verify_dleq_proof`.
  unfoldable pub verify_or_none : Text → Text → Text → Text → Text → Text → Option Bool
  verify_or_none secret c r pubkey e s = elim (verify_offline secret c r pubkey e s) [
    | err _ ↦ none
    | ok answer ↦ some answer
  ]
