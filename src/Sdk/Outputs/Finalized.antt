-- ===== src/Sdk/Outputs/Finalized.antt =====
-- blinding.ts: what `finalizeSignatures` has checked of a signature that it took.
use picocash.Prelude.{Text, ◌≡◌, true, Option, none, some}
use picocash.Result.{Result, ok, err, ensure, >>=-eq-ok, ok-eq-ok, ensure-eq-ok}
use picocash.Crypto.Curve.{Bytes, Curve, CurveError}
use picocash.Crypto.Bdhke.{unblind_signature}
use picocash.Crypto.Dleq.{verify_dleq_blind_signature}
use picocash.Sdk.Store.{Proof}
use picocash.Acceptor.{KeysetInfo, pubkey_of}
use picocash.Sdk.Outputs.{
  Hex, PendingOutput, WireSignature, OutputError, crypto, or_throw_error, no_key, dleq_failed,
  bytes_of, finalize_signature,
}

pub crypto-eq-ok : {A : Type 0} (r : Result CurveError A) {a : A} → crypto r ≡ ok a → r ≡ ok a
crypto-eq-ok (ok b) h = cc h
crypto-eq-ok (err e) h = cc h

or_throw_error-eq-ok :
    {A : Type 0} (e : OutputError) (o : Option A) {a : A} → or_throw_error e o ≡ ok a → o ≡ some a
or_throw_error-eq-ok e none h = cc
or_throw_error-eq-ok e (some b) h = cc

module _ {P : Type 0} (curve : Curve P) (hex : Hex) where
  -- A signature that `finalizeSignatures` took.
  pub record Finalized (keyset : KeysetInfo) (p : PendingOutput) (sig : WireSignature)
      (proof : Proof) : Type 0 where
    pub pubkey_hex : Text
    pub pubkey : Bytes
    pub b_ : Bytes
    pub c_ : Bytes
    pub e : Bytes
    pub s : Bytes
    pub c : Bytes
    pub keyed : pubkey_of keyset.keys p.amount ≡ some pubkey_hex
    pub pubkey_read : bytes_of curve hex pubkey_hex ≡ ok pubkey
    pub b_read : bytes_of curve hex p.b_ ≡ ok b_
    pub e_read : bytes_of curve hex sig.e ≡ ok e
    pub s_read : bytes_of curve hex sig.s ≡ ok s
    pub verified : verify_dleq_blind_signature curve b_ c_ pubkey (record { e = e; s = s }) ≡ true
    pub unsealed : unblind_signature curve c_ p.r pubkey ≡ ok c
    pub made :
        record {
          amount = p.amount;
          keyset_id = keyset.id;
          secret = p.secret;
          c = hex.to_hex c;
          dleq = some (record { e = sig.e; s = sig.s; r = hex.to_hex p.r });
          witness = none;
        }
        ≡ proof

  pub finalize_signature-Finalized :
      (keyset : KeysetInfo) (p : PendingOutput) (sig : WireSignature) (proof : Proof)
      → finalize_signature curve hex keyset p sig ≡ ok proof
      → Finalized keyset p sig proof
  unfolding finalize_signature
  finalize_signature-Finalized keyset p sig proof h =
      let (pubkey_hex, keyed, h₁) =
        >>=-eq-ok (or_throw_error no_key (pubkey_of keyset.keys p.amount)) _ h in
      let (pubkey, pubkey_read, h₂) = >>=-eq-ok (bytes_of curve hex pubkey_hex) _ h₁ in
      let (b_, b_read, h₃) = >>=-eq-ok (bytes_of curve hex p.b_) _ h₂ in
      let (c_, c_read, h₄) = >>=-eq-ok (bytes_of curve hex sig.c_) _ h₃ in
      let (e, e_read, h₅) = >>=-eq-ok (bytes_of curve hex sig.e) _ h₄ in
      let (s, s_read, h₆) = >>=-eq-ok (bytes_of curve hex sig.s) _ h₅ in
      let (u, tested, h₇) =
        >>=-eq-ok
          (ensure (verify_dleq_blind_signature curve b_ c_ pubkey (record { e = e; s = s }))
            dleq_failed)
          _ h₆ in
      let (c, unsealed, h₈) = >>=-eq-ok (crypto (unblind_signature curve c_ p.r pubkey)) _ h₇ in
      record {
        pubkey_hex = pubkey_hex;
        pubkey = pubkey;
        b_ = b_;
        c_ = c_;
        e = e;
        s = s;
        c = c;
        keyed = or_throw_error-eq-ok no_key (pubkey_of keyset.keys p.amount) keyed;
        pubkey_read = pubkey_read;
        b_read = b_read;
        e_read = e_read;
        s_read = s_read;
        verified =
            ensure-eq-ok (verify_dleq_blind_signature curve b_ c_ pubkey (record { e = e; s = s }))
              dleq_failed tested;
        unsealed = crypto-eq-ok (unblind_signature curve c_ p.r pubkey) unsealed;
        made = ok-eq-ok h₈;
      }
