-- ===== src/Sdk/Secrets.antt =====
-- packages/sdk/src/secrets.ts: secrets that commit to a challenge. `BindText` stands for the canonical
-- text of `canonicalPcBind`, for JSON, and for UTF-8 in hexadecimal.
use picocash.Prelude.{◌≡◌, refl, Text, Option, none, some, ◌==◌, ==_refl, if◌then◌else◌}
use picocash.Acceptor.{PcBind}

pub record BindText : Type 0 where
  pub canonical : PcBind → Text
  pub read_json : Text → Option PcBind
  pub to_hex : Text → Text
  pub of_hex : Text → Option Text

module _ (c : BindText) where
  -- `pcBindSecretHex`, with the salt drawn.
  unfoldable pub pc_bind_secret_hex : Text → Text → Text → Text
  pc_bind_secret_hex nonce realm salt =
      c.to_hex (c.canonical (record { nonce = nonce; realm = realm; salt = salt }))

  -- `parsePcBindSecret`
  unfoldable pub parse_pc_bind_secret : Text → Option PcBind
  parse_pc_bind_secret secret = elim (c.of_hex secret) [
    | none ↦ none
    | some text ↦ elim (c.read_json text) [
      | none ↦ none
      | some bind ↦ if c.canonical bind == text then some bind else none
    ]
  ]

  -- What the code relies on: JSON and hexadecimal text read back as they were written.
  pub record IsBindText : Type 0 where
    pub read : (bind : PcBind) → c.read_json (c.canonical bind) ≡ some bind
    pub decodes : (text : Text) → c.of_hex (c.to_hex text) ≡ some text

  -- A secret that was made for a challenge is read as one.
  pub parse_pc_bind_secret-pc_bind_secret_hex :
      IsBindText
      → (nonce realm salt : Text)
      → parse_pc_bind_secret (pc_bind_secret_hex nonce realm salt)
        ≡ some (record { nonce = nonce; realm = realm; salt = salt })
  unfolding parse_pc_bind_secret pc_bind_secret_hex
  parse_pc_bind_secret-pc_bind_secret_hex laws nonce realm salt =
      let bind : PcBind = record { nonce = nonce; realm = realm; salt = salt } in
      rw
        (
          parse_pc_bind_secret,
          laws.decodes (c.canonical bind),
          laws.read bind,
          ==_refl (c.canonical bind),
        )
        refl
