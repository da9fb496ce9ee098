-- ===== src/Acceptor/Agent/Tests.antt =====
-- A payment on the toy curve, from the swap at the mint to the service's receipt.
use picocash.Prelude.{
  ℕ, ◌≡◌, refl, ap, Option, inl, inr, Text, true, none, some, List, [], ◌∷◌, arith, sum_by,
}
use picocash.Result.{ok, err}
use picocash.Dict.{lookup, put}
use picocash.Crypto.Curve.{
  Bytes, bytes_to_bigint, read_be, modulo, bytes_to_scalar, parse_point, mul_point, mul_base,
  hex_points, hash_e, bytes_to_hex, hex_digit, candidate, search_point, hash_to_curve, bytes_equal,
}
use picocash.Crypto.Bdhke.{blind_message, unblind_signature}
use picocash.Crypto.Dleq.{verify_dleq_blind_signature, verify, recompute}
use picocash.Crypto.Toy.{toy, toy-IsCurve, scalar, padded}
use picocash.Crypto.P2pk.Toy.{code, read_list, read_list-code, pair, toy_secrets}
use picocash.Sdk.Blinding.{decompose, split}
use picocash.Sdk.Store.{Proof, unique_from, ys_of}
use picocash.Sdk.Outputs.{
  prepare_output, prepare_pending, to_wire, prepare_outputs, finalize_signature, finalize_each,
  finalize_signatures,
}
use picocash.Sdk.Outputs.Toy.{encode, toy_hex, decodes, toy_proofs, keyset, signature}
use picocash.Sdk.Secrets.{BindText, IsBindText, pc_bind_secret_hex}
use picocash.Sdk.Token.{TokenText, serialize_token, group_proofs}
use picocash.Sdk.Wallet.{MintApi, Sent, specs_of, swap_with}
use picocash.Sdk.Wallet.Payments.{send_with}
use picocash.Sdk.Wallet.Payments.Exact.{IsSent, send_with-IsSent}
use picocash.Acceptor.{
  PcBind, pubkey_of, PicocashChallenge, TrustedMint, Acceptor, find_mint, verify_credential,
  pending_receipt,
}
use picocash.Acceptor.Memory.{
  MemoryStore, default_options, memory_store, memory_put, memory_accept, has_y, put_ys, evict,
  sweep_challenges, sweep_ys,
}
use picocash.Acceptor.Agent.{
  Indexed, weight, pick_exact, Payment, bind_secrets, locked_to, pay_bound, pay_with,
}
use picocash.Acceptor.Agent.Greedy.{Reaches, pick_exact_complete}
use picocash.Acceptor.Agent.Accepted.{open_state, service, pay_with-accepted}

-- A mint that always gives one signature.
abbrev mint : MintApi Text
mint = record {
  melt_fee = ok none;
  keys = ok (keyset ∷ []);
  mint_quote = λ amount unit. err 0;
  mint = λ id outputs. ok (signature ∷ []);
  swap = λ inputs outputs. ok (signature ∷ []);
  melt_quote = λ amount unit to. err 0;
  melt = λ id inputs. err 0;
  checkstate = λ ys. ok [];
}

abbrev text : TokenText
text = record {
  encode = λ payload. 9;
  decode = λ t. none;
  trim = λ t. t;
  has_prefix = λ t. true;
  is_version_a = λ t. true;
  utf8_length = λ t. 1;
  char_length = λ t. 1;
  is_http_url = λ t. true;
  is_tip20_unit = λ t. true;
  is_keyset_id = λ t. true;
  is_hex = λ t. true;
}

abbrev draw : ℕ → Text × Bytes
draw i = (encode (5 ∷ []), scalar 1)

abbrev note : ℕ → Text → Proof
note amount secret = record {
  amount = amount;
  keyset_id = 22;
  secret = secret;
  c = encode (2 ∷ 2 ∷ []);
  dleq = some (record { e = encode (padded 2); s = encode (scalar 0); r = encode (scalar 1) });
  witness = none;
}

abbrev sent : Text → Sent
sent secret = record {
  bundle = record { mint = 3; unit = 23; keyset_id = 22; proofs = note 2 secret ∷ [] };
  token = 9;
  change = [];
}

abbrev bound_secret : Text
bound_secret = encode (2 ∷ 1 ∷ 2 ∷ [])

sends :
    send_with mint toy toy_hex draw text 3 keyset (note 2 50 ∷ []) 2 (some (bound_secret ∷ [])) none
    ≡ ok (sent bound_secret)
unfolding send_with swap_with specs_of decompose split serialize_token group_proofs lookup put
    prepare_outputs prepare_pending prepare_output to_wire blind_message bytes_to_scalar
    hash_to_curve search_point candidate mul_base mul_point modulo bytes_to_bigint read_be
    finalize_signatures finalize_each finalize_signature pubkey_of verify_dleq_blind_signature
    verify recompute unblind_signature parse_point hash_e hex_points bytes_to_hex hex_digit
    bytes_equal
sends = refl

send_with-IsSent_example :
    IsSent mint toy toy-IsCurve toy_hex decodes toy_proofs keyset
      (note 2 50 ∷ [])
      2
      (some (bound_secret ∷ []))
      (sent bound_secret)
send_with-IsSent_example =
    send_with-IsSent mint toy toy-IsCurve toy_hex decodes toy_proofs keyset draw text 3
      (note 2 50 ∷ []) 2 (some (bound_secret ∷ [])) none (sent bound_secret) sends

abbrev list_bind : List ℕ → Option PcBind
list_bind (nonce ∷ realm ∷ salt ∷ []) = some (record { nonce = nonce; realm = realm; salt = salt })
list_bind _ = none

abbrev binds : BindText
binds = record {
  canonical = λ bind. code (bind.nonce ∷ bind.realm ∷ bind.salt ∷ []);
  read_json = λ t. list_bind (read_list t);
  to_hex = λ t. t;
  of_hex = λ t. some t;
}

binds-IsBindText : IsBindText binds
binds-IsBindText = record {
  read = λ bind. ap list_bind (read_list-code (bind.nonce ∷ bind.realm ∷ bind.salt ∷ []));
  decodes = λ t. refl;
}

abbrev challenge : PicocashChallenge
challenge = record {
  realm = 1;
  challenge_id = 40;
  nonce = 2;
  amount = 2;
  unit = 23;
  mints = (3, 22) ∷ [];
  expiry = 400;
  pubkey = none;
}

abbrev trusted : TrustedMint
trusted = record { url = 3; keyset = keyset }

abbrev shop : Acceptor
shop = record { realm = 1; mints = trusted ∷ []; ttl = 300; max_amount = 100; lock_pubkey = none }

abbrev asked : MemoryStore
asked = record {
  challenges =
      (
        40,
        open_state mint toy toy-IsCurve toy_hex decodes toy_proofs binds binds-IsBindText keyset
            challenge,
      )
      ∷ [];
  ys = [];
}

abbrev payment : Payment
payment = record {
  credential = record {
    challenge_id = 40;
    mint = 3;
    keyset_id = 22;
    proofs = note 2 bound_secret ∷ [];
  };
  change = [];
}

pays :
    pay_with mint toy toy_hex draw text binds
      (λ i. 2)
      toy_secrets
      challenge
      3
      (note 2 50 ∷ [])
      keyset
    ≡ ok payment
unfolding pay_with pay_bound bind_secrets locked_to pc_bind_secret_hex decompose split code pair
pays = rw sends refl

pay_with-accepted_example :
    (verify_credential
      (service mint toy toy-IsCurve toy_hex decodes toy_proofs binds binds-IsBindText keyset)
      shop
      (memory_store default_options)
      payment.credential
      none
      120
      asked).0
    ≡ ok (
        pending_receipt
          (service mint toy toy-IsCurve toy_hex decodes toy_proofs binds binds-IsBindText keyset)
          shop
          challenge
          120)
unfolding locked_to find_mint ys_of unique_from has_y memory_accept lookup put put_ys evict
    memory_put sweep_challenges sweep_ys
pay_with-accepted_example =
    pay_with-accepted mint toy toy-IsCurve toy_hex decodes toy_proofs binds binds-IsBindText keyset
      (memory_store default_options) draw text (λ i. 2) toy_secrets shop challenge 3
      (note 2 50 ∷ []) payment trusted 120 asked refl pays refl refl refl refl refl refl refl

-- Three locked proofs, of which the first and the last make five.
abbrev held : List Indexed
held = (0, note 4 60) ∷ (1, note 2 61) ∷ (2, note 1 62) ∷ []

pick_exact_complete_example :
    (picked : List Indexed) × (pick_exact held 5 ≡ some picked) × (sum_by weight picked ≡ 5)
unfolding Reaches
pick_exact_complete_example =
    pick_exact_complete held 5 ((2, refl), ((1, refl), ((0, refl), tt)))
      (inr (omega arith, inl (inr (omega arith, refl))))
