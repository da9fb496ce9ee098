-- ===== src/Sdk/Outputs/Toy.antt =====
-- Bytes as numbers, and a mint's signature on the toy curve, for runs of blinding.ts.
use picocash.Prelude.{
  ℕ, zero, suc, ◌+◌, ◌-◌, ◌*◌, ◌/◌, ◌%◌, ◌≤◌, ◌≡◌, refl, ap, ◌∙◌, true, false, none, some, [], ◌∷◌,
  arith, ◌==◌,
}
use native.Mathlib.Nat.{add-zero, zero-add}
use picocash.Crypto.Curve.{Bytes}
use picocash.Crypto.Toy.{padded, scalar}
use picocash.Acceptor.{Proofs, KeysetInfo}
use picocash.Sdk.Outputs.{Hex, WireSignature}

-- A byte is doublings, and its end an odd number.
abbrev pub shifted : ℕ → ℕ → ℕ
shifted zero n = n
shifted (suc b) n = 2 * shifted b n

abbrev pub encode : Bytes → ℕ
encode [] = 0
encode (b ∷ bytes) = shifted b (2 * encode bytes + 1)

abbrev pub decode : ℕ → ℕ → ℕ → Bytes
decode zero byte n = []
decode (suc fuel) byte n = elim (n == 0) [
  | true ↦ []
  | false ↦ elim (n % 2 == 0) [
    | true ↦ decode fuel (suc byte) (n / 2)
    | false ↦ byte ∷ decode fuel 0 (n / 2)
  ]
]

abbrev pub toy_hex : Hex
toy_hex = record { to_hex = encode; of_hex = λ n. some (decode n 0 n) }

shifted_size : (b n : ℕ) → 1 ≤ n → n + b ≤ shifted b n
shifted_size zero n h = omega arith
shifted_size (suc b) n h = omega (arith, shifted_size b n h)

decode-shifted :
    (b fuel byte n : ℕ) → 1 ≤ n → decode (b + fuel) byte (shifted b n) ≡ decode fuel (byte + b) n
decode-shifted zero fuel byte n h = rw (zero-add fuel, add-zero byte) refl
decode-shifted (suc b) fuel byte n h =
    let m = shifted b n in
    let more : suc b + fuel ≡ suc (b + fuel) = omega arith in
    let positive : (2 * m == 0) ≡ false = ground (arith, shifted_size b n h) in
    let even : (2 * m % 2 == 0) ≡ true = ground arith in
    let half : 2 * m / 2 ≡ m = omega arith in
    let one : suc byte + b ≡ byte + suc b = omega arith in
    rw (more, decode, positive, even, half)
      (decode-shifted b fuel (suc byte) n h ∙ ap (λ start. decode fuel start n) one)

decode-encode :
    (bytes : Bytes) (fuel : ℕ) → encode bytes ≤ fuel → decode fuel 0 (encode bytes) ≡ bytes
decode-encode [] zero h = refl
decode-encode [] (suc fuel) h = refl
decode-encode (b ∷ bytes) fuel h =
    let e = encode bytes in
    let large = shifted_size b (2 * e + 1) (omega arith) in
    let rest = fuel - suc b in
    let enough : fuel ≡ b + suc rest = omega (arith, h, large) in
    let positive : (2 * e + 1 == 0) ≡ false = ground arith in
    let odd : ((2 * e + 1) % 2 == 0) ≡ false = ground arith in
    let half : (2 * e + 1) / 2 ≡ e = omega arith in
    let tail = decode-encode bytes rest (omega (arith, h, large)) in
    ap (λ f. decode f 0 (shifted b (2 * e + 1))) enough
    ∙ decode-shifted b (suc rest) 0 (2 * e + 1) (omega arith)
    ∙ rw (decode, positive, odd, half, zero-add b, tail) refl

pub decodes : (b : Bytes) → toy_hex.of_hex (toy_hex.to_hex b) ≡ some b
decodes b = ap some (decode-encode b (encode b) (omega arith))

abbrev pub toy_proofs : Proofs
toy_proofs = record {
  y_of_secret = λ secret. secret;
  parse_pc_bind = λ secret. none;
  parse_p2pk_secret = λ secret. none;
  verify_dleq_proof = λ secret c r pubkey e s. none;
  lower = λ t. t;
}

abbrev pub keyset : KeysetInfo
keyset = record { id = 22; unit = 23; keys = (2, encode (2 ∷ 2 ∷ [])) ∷ [] }

abbrev pub signature : WireSignature
signature = record {
  amount = 2;
  c_ = encode (2 ∷ 1 ∷ []);
  e = encode (padded 2);
  s = encode (scalar 0);
}
