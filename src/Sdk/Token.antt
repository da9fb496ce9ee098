-- ===== src/Sdk/Token.antt =====
-- packages/sdk/src/token.ts: bundles as tokens of PIP-06. `TokenText` stands for JSON, base64url, UTF-8
-- and the patterns; a payload of another shape than `PayloadA` counts as one that does not decode, with
-- the same exception.
use picocash.Prelude.{
  ℕ, ◌+◌, Text, Bool, true, not, Option, none, some, List, [], ◌∷◌, ◌++◌, map, length, sort_desc,
  ◌==◌, ◌&&◌, ltb, leb,
}
use picocash.Result.{Result, ok, err, ensure, ◌>>=◌, ◌>>◌}
use picocash.Dict.{lookup, put}
use picocash.Reserves.Collisions.{or_empty}
use picocash.Sdk.Blinding.{max_safe_integer}
use picocash.Sdk.Store.{Proof, Dleq}

pub record TokenBundle : Type 0 where
  pub mint : Text
  pub unit : Text
  pub keyset_id : Text
  pub proofs : List Proof

pub record PayloadProof : Type 0 where
  pub a : ℕ
  pub s : Text
  pub c : Text
  pub d : Dleq
  pub w : Option Text

pub record PayloadA : Type 0 where
  pub m : Text
  pub u : Text
  pub t : List (Text × List PayloadProof)
  pub memo : Option Text

pub data TokenFormatError : Type 0 where
  empty_bundle memo_too_long no_dleq token_too_long not_a_token bad_version : TokenFormatError
  bad_payload no_proofs bad_mint bad_unit bad_group too_many_proofs bad_proof : TokenFormatError
  bad_witness : TokenFormatError

-- `encode` is `PREFIX + VERSION` with the payload behind it, and `decode` reads what is behind them.
pub record TokenText : Type 0 where
  pub encode : PayloadA → Text
  pub decode : Text → Option PayloadA
  pub trim : Text → Text
  pub has_prefix : Text → Bool
  pub is_version_a : Text → Bool
  pub utf8_length : Text → ℕ
  pub char_length : Text → ℕ
  pub is_http_url : Text → Bool
  pub is_tip20_unit : Text → Bool
  pub is_keyset_id : Text → Bool
  pub is_hex : Text → Bool

-- A proof of a payload, where it has a DLEQ proof.
abbrev pub payload_of : Proof → Option PayloadProof
payload_of proof = elim proof.dleq [
  | none ↦ none
  | some d ↦
      some (record { a = proof.amount; s = proof.secret; c = proof.c; d = d; w = proof.witness })
]

abbrev pub proof_of : Text → PayloadProof → Proof
proof_of keyset_id p = record {
  amount = p.a;
  keyset_id = keyset_id;
  secret = p.s;
  c = p.c;
  dleq = some p.d;
  witness = p.w;
}

-- The groups by keyset, in the order in which the keysets came.
unfoldable pub group_proofs :
    List Proof
    → List (Text × List PayloadProof)
    → Result TokenFormatError (List (Text × List PayloadProof))
group_proofs [] groups = ok groups
group_proofs (proof ∷ proofs) groups = elim (payload_of proof) [
  | none ↦ err no_dleq
  | some p ↦
      group_proofs proofs
        (put proof.keyset_id (or_empty (lookup proof.keyset_id groups) ++ (p ∷ [])) groups)
]

module _ (c : TokenText) where
  abbrev pub memo_fits : Option Text → Bool
  memo_fits none = true
  memo_fits (some memo) = leb (c.utf8_length memo) 256

  unfoldable pub serialize_token : TokenBundle → Option Text → Result TokenFormatError Text
  serialize_token bundle memo = do
    ensure (not (length bundle.proofs == 0)) empty_bundle
    ensure (memo_fits memo) memo_too_long
    groups ← group_proofs bundle.proofs []
    ok (
        c.encode (record {
          m = bundle.mint;
          u = bundle.unit;
          t = map (λ (g : Text × List PayloadProof). (g.0, sort_desc PayloadProof.a g.1)) groups;
          memo = memo;
        }))

  abbrev pub hex_of_length : ℕ → Text → Bool
  hex_of_length n x = c.is_hex x && c.char_length x == n

  unfoldable pub is_proof : PayloadProof → Bool
  is_proof p =
      leb p.a max_safe_integer
      && ltb 0 p.a
      && c.is_hex p.s
      && hex_of_length 66 p.c
      && hex_of_length 64 p.d.e
      && hex_of_length 64 p.d.s
      && hex_of_length 64 p.d.r

  abbrev pub short : ℕ → Option Text → Bool
  short limit none = true
  short limit (some text) = leb (c.char_length text) limit

  -- The loop over a group, with the number of proofs that were read before.
  unfoldable pub parse_group : Text → List PayloadProof → ℕ → Result TokenFormatError (List Proof)
  parse_group keyset_id [] count = ok []
  parse_group keyset_id (p ∷ ps) count = do
    ensure (ltb count 1024) too_many_proofs
    ensure (is_proof p) bad_proof
    ensure (short 4096 p.w) bad_witness
    rest ← parse_group keyset_id ps (count + 1)
    ok (proof_of keyset_id p ∷ rest)

  unfoldable pub parse_groups :
      List (Text × List PayloadProof) → ℕ → Result TokenFormatError (List Proof)
  parse_groups [] count = ok []
  parse_groups ((keyset_id, ps) ∷ groups) count = do
    ensure (c.is_keyset_id keyset_id) bad_group
    proofs ← parse_group keyset_id ps count
    rest ← parse_groups groups (count + length proofs)
    ok (proofs ++ rest)

  -- `payload.t[0]!.i`
  abbrev pub first_keyset : List (Text × List PayloadProof) → Result TokenFormatError Text
  first_keyset [] = err no_proofs
  first_keyset ((keyset_id, ps) ∷ groups) = ok keyset_id

  unfoldable pub parse_token : Text → Result TokenFormatError (TokenBundle × Option Text)
  parse_token input = do
    ensure (leb (c.char_length input) 1048576) token_too_long
    let s = c.trim input
    ensure (c.has_prefix s) not_a_token
    ensure (c.is_version_a s) bad_version
    payload ← elim (c.decode s) [ none ↦ err bad_payload | some p ↦ ok p ]
    keyset_id ← first_keyset payload.t
    ensure (short 512 payload.memo) memo_too_long
    ensure (leb (c.char_length payload.m) 512 && c.is_http_url payload.m) bad_mint
    ensure (c.is_tip20_unit payload.u) bad_unit
    proofs ← parse_groups payload.t 0
    ok (
      record { mint = payload.m; unit = payload.u; keyset_id = keyset_id; proofs = proofs },
      payload.memo,
    )
