-- ===== src/Crypto/P2pk/Toy.antt =====
-- Secrets and witnesses as numbers, for runs of p2pk.ts: lists written into one number and read back.
use picocash.Prelude.{
  ℕ, zero, suc, ◌+◌, ◌*◌, ◌/◌, ◌%◌, ◌≤◌, ◌<◌, ◌≡◌, refl, ap, true, false, some, List, [], ◌∷◌, map,
  length, arith, ◌==◌, leb, if◌then◌else◌, ==_refl,
}
use picocash.Crypto.P2pk.{TagName}
use picocash.Crypto.P2pk.Secret.{SecretShape, p2pk, malformed, SecretText, Tags}
use picocash.Crypto.P2pk.Secret.RoundTrip.{IsSecretText}

unfoldable pub pair : ℕ → ℕ → ℕ
pair zero b = 2 * b + 1
pair (suc a) b = 2 * pair a b

unfoldable pub unpair : ℕ → ℕ → ℕ × ℕ
unpair zero x = (0, 0)
unpair (suc fuel) x =
    let (a, b) = unpair fuel (x / 2) in if x % 2 == 0 then (suc a, b) else (0, x / 2)

unpair-pair : (fuel a b : ℕ) → a < fuel → unpair fuel (pair a b) ≡ (a, b)
unfolding unpair pair
unpair-pair zero a b h = absurd (omega arith)
unpair-pair (suc fuel) zero b h =
    let odd : (2 * b + 1) % 2 ≡ 1 = omega arith in
    let half : (2 * b + 1) / 2 ≡ b = omega arith in rw (odd, half) refl
unpair-pair (suc fuel) (suc a) b h =
    let even : (2 * pair a b) % 2 ≡ 0 = omega arith in
    let half : (2 * pair a b) / 2 ≡ pair a b = omega arith in
    rw (even, half, unpair-pair fuel a b (omega arith)) refl

below : (a b : ℕ) → (a < pair a b) × (b < pair a b)
unfolding pair
below zero b = (omega arith, omega arith)
below (suc a) b = let (l, r) = below a b in (omega (arith, l), omega (arith, r))

unfoldable pub code : List ℕ → ℕ
code [] = 0
code (x ∷ xs) = pair x (code xs)

unfoldable pub decode : ℕ → ℕ → List ℕ
decode zero x = []
decode (suc fuel) x =
    let (a, b) = unpair x x in let rest = decode fuel b in if x == 0 then [] else a ∷ rest

decode-code : (fuel : ℕ) (xs : List ℕ) → length xs ≤ fuel → decode fuel (code xs) ≡ xs
unfolding decode code
decode-code zero [] h = refl
decode-code zero (x ∷ xs) h = absurd (omega arith)
decode-code (suc fuel) [] h = refl
decode-code (suc fuel) (x ∷ xs) h =
    let (left, right) = below x (code xs) in
    let positive : (pair x (code xs) == 0) ≡ false = ground (arith, left) in
    rw
      (unpair-pair (pair x (code xs)) x (code xs) left, positive, decode-code fuel xs (omega arith))
      refl

length-code : (xs : List ℕ) → length xs ≤ code xs
unfolding code
length-code [] = omega arith
length-code (x ∷ xs) = let (left, right) = below x (code xs) in omega (arith, right, length-code xs)

unfoldable pub read_list : ℕ → List ℕ
read_list x = decode x x

pub read_list-code : (xs : List ℕ) → read_list (code xs) ≡ xs
unfolding read_list
read_list-code xs = decode-code (code xs) xs (length-code xs)

abbrev number_of : TagName → ℕ
number_of TagName.locktime = 0
number_of TagName.refund = 1
number_of TagName.pubkeys = 2
number_of TagName.n_sigs = 3
number_of TagName.sigflag = 4
number_of TagName.unknown = 5

abbrev name_of : ℕ → TagName
name_of zero = TagName.locktime
name_of (suc zero) = TagName.refund
name_of (suc (suc zero)) = TagName.pubkeys
name_of (suc (suc (suc zero))) = TagName.n_sigs
name_of (suc (suc (suc (suc zero)))) = TagName.sigflag
name_of (suc (suc (suc (suc (suc n))))) = TagName.unknown

name_of-number_of : (name : TagName) → name_of (number_of name) ≡ name
name_of-number_of TagName.locktime = refl
name_of-number_of TagName.refund = refl
name_of-number_of TagName.pubkeys = refl
name_of-number_of TagName.n_sigs = refl
name_of-number_of TagName.sigflag = refl
name_of-number_of TagName.unknown = refl

abbrev tag_code : TagName × List ℕ → ℕ
tag_code (name, values) = code (number_of name ∷ values)

abbrev tag_of : List ℕ → TagName × List ℕ
tag_of [] = (TagName.unknown, [])
tag_of (n ∷ values) = (name_of n, values)

abbrev shape_of : List ℕ → SecretShape
shape_of (nonce ∷ key ∷ tags) = p2pk nonce key (map (λ t. tag_of (read_list t)) tags)
shape_of _ = malformed

tags_read : (tags : Tags) → map (λ t. tag_of (read_list t)) (map tag_code tags) ≡ tags
tags_read [] = refl
tags_read ((name, values) ∷ tags) =
    rw (read_list-code (number_of name ∷ values), name_of-number_of name, tags_read tags) refl

-- A private key is its public key, and a signature is the key.
abbrev pub toy_secrets : SecretText
toy_secrets = record {
  is_pubkey = λ k. leb 100 k;
  is_sig_inputs = λ v. v == 1;
  to_number = λ t. some t;
  of_number = λ n. n;
  write_secret = λ nonce key tags. code (nonce ∷ key ∷ map tag_code tags);
  read_secret = λ t. shape_of (read_list t);
  is_sig = λ s. true;
  write_witness = λ sigs. code sigs;
  read_witness = λ w. some (read_list w);
  sign = λ secret key. key;
  public_key = λ key. key;
  verify_sig = λ secret sig key. sig == key;
}

pub toy_secrets-IsSecretText : IsSecretText toy_secrets
toy_secrets-IsSecretText = record {
  secrets =
      λ nonce key tags. rw (read_list-code (nonce ∷ key ∷ map tag_code tags), tags_read tags) refl;
  numbers = λ n safe. refl;
  witnesses = λ sigs. ap some (read_list-code sigs);
  signed = λ secret key. refl;
  verified = λ secret key. ==_refl key;
}
