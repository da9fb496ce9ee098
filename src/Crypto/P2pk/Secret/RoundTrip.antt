-- ===== src/Crypto/P2pk/Secret/RoundTrip.antt =====
-- p2pk.ts: the conditions that `p2pkSecretHex` writes are those that `parseP2pkSecret` reads.
use picocash.Prelude.{
  ℕ, ◌+◌, ◌≤◌, ==→≡, leb→le, ◌≡◌, refl, sym, subst, ap, ◌∙◌, Text, Bool, true, false, not, Option,
  none, some, List, [], ◌∷◌, ◌++◌, length, arith, ◌==◌, ◌&&◌, leb, inl, inr, Bool-cases,
}
use picocash.Result.{Result, ok, ensure, >>=-eq-ok, ok-eq-ok, ensure-eq-ok}
use picocash.Acceptor.{get_or}
use picocash.Sdk.Blinding.{max_safe_integer}
use picocash.Crypto.P2pk.{
  TagName, P2pkConditions, P2pkError, bad_lock_key, bad_locktime, bad_n_sigs, bad_refund,
  bad_pubkeys, all_pubkeys, are_keys, first_number, apply_tag, apply_tags, parse_conditions,
}
use picocash.Crypto.P2pk.Secret.{
  p2pk, SecretText, LockOptions, Tags, locktime_tag, keys_tag, sigs_tag, p2pk_secret_hex,
  parse_p2pk_secret,
}

-- What the code relies on: JSON, hexadecimal and decimal text read back, and signatures verify.
pub record IsSecretText (c : SecretText) : Type 0 where
  pub secrets :
      (nonce key : Text) (tags : Tags)
      → c.read_secret (c.write_secret nonce key tags) ≡ p2pk nonce key tags
  pub numbers : (n : ℕ) → n ≤ max_safe_integer → c.to_number (c.of_number n) ≡ some n
  pub witnesses : (sigs : List Text) → c.read_witness (c.write_witness sigs) ≡ some sigs
  pub signed : (secret key : Text) → c.is_sig (c.sign secret key) ≡ true
  pub verified :
      (secret key : Text) → c.verify_sig secret (c.sign secret key) (c.public_key key) ≡ true

module _ (c : SecretText) (laws : IsSecretText c) where
  abbrev apply_all : Tags → P2pkConditions → Result P2pkError P2pkConditions
  apply_all = apply_tags c.is_pubkey c.is_sig_inputs c.to_number

  apply_tags-append :
      (xs ys : Tags) (d : P2pkConditions) {e : P2pkConditions}
      → apply_all xs d ≡ ok e
      → apply_all (xs ++ ys) d ≡ apply_all ys e
  unfolding apply_tags
  apply_tags-append [] ys d h = ap (apply_all ys) (ok-eq-ok h)
  apply_tags-append ((name, values) ∷ xs) ys d h =
      let (m, first, rest) =
        >>=-eq-ok (apply_tag c.is_pubkey c.is_sig_inputs c.to_number name values d) _ h in
      rw (apply_tags, first) (apply_tags-append xs ys m rest)

  -- A positive number that was written is read.
  first_number-of_number :
      (n : ℕ)
      → (n == 0) ≡ false
      → leb n max_safe_integer ≡ true
      → first_number c.is_pubkey c.is_sig_inputs c.to_number (c.of_number n ∷ []) ≡ some n
  unfolding first_number
  first_number-of_number n positive safe =
      rw (first_number, laws.numbers n (leb→le n max_safe_integer safe), positive) refl

  both : (a b : Bool) → (a && b) ≡ true → (a ≡ true) × (b ≡ true)
  both true b h = (refl, h)
  both false b h = absurd (cc h)

  positive_and_safe :
      (n : ℕ) (other : Bool) → (not (n == 0) && other) ≡ true → ((n == 0) ≡ false) × (other ≡ true)
  positive_and_safe n other h = elim (Bool-cases (n == 0)) [
    | inl zeroed ↦ absurd (ground (arith, zeroed, h))
    | inr positive ↦ (positive, ground (arith, positive, h))
  ]

  apply-locktime_tag :
      (o : Option ℕ) (tags : Tags) (d : P2pkConditions)
      → d.locktime ≡ none
      → locktime_tag c o ≡ ok tags
      → apply_all tags d ≡ ok (record d { locktime = o })
  unfolding locktime_tag apply_tags apply_tag
  apply-locktime_tag none tags d unset h =
      subst (λ ts. apply_all ts d ≡ ok (record d { locktime = none })) (ok-eq-ok h)
        (ap (λ l. ok (record d { locktime = l })) unset)
  apply-locktime_tag (some t) tags d unset h =
      let (u, tested, h₁) =
        >>=-eq-ok (ensure (not (t == 0) && leb t max_safe_integer) bad_locktime) _ h in
      let (positive, safe) =
        positive_and_safe t (leb t max_safe_integer)
          (ensure-eq-ok (not (t == 0) && leb t max_safe_integer) bad_locktime tested) in
      subst (λ ts. apply_all ts d ≡ ok (record d { locktime = some t })) (ok-eq-ok h₁)
        (rw (apply_tags, apply_tag, first_number-of_number t positive safe) refl)

  -- The tags of keys: `set` is the field that they set.
  apply-keys_tag :
      (name : TagName) (thrown : P2pkError) (set : List Text → P2pkConditions → P2pkConditions)
      → ((ks : List Text) (e : P2pkConditions)
          → are_keys c.is_pubkey c.is_sig_inputs c.to_number ks ≡ true
          → apply_tag c.is_pubkey c.is_sig_inputs c.to_number name ks e ≡ ok (set ks e))
      → (keys : List Text) (tags : Tags) (d : P2pkConditions) → set [] d ≡ d
      → keys_tag c name thrown keys ≡ ok tags
      → apply_all tags d ≡ ok (set keys d)
  unfolding keys_tag apply_tags are_keys
  apply-keys_tag name thrown set sets [] tags d empty h =
      subst (λ ts. apply_all ts d ≡ ok (set [] d)) (ok-eq-ok h) (ap ok (sym empty))
  apply-keys_tag name thrown set sets (k ∷ ks) tags d empty h =
      let test = all_pubkeys c.is_pubkey c.is_sig_inputs c.to_number (k ∷ ks) in
      let (u, tested, h₁) = >>=-eq-ok (ensure test thrown) _ h in
      subst (λ ts. apply_all ts d ≡ ok (set (k ∷ ks) d)) (ok-eq-ok h₁)
        (rw (apply_tags, sets (k ∷ ks) d (ensure-eq-ok test thrown tested)) refl)

  apply-sigs_tag :
      (o : Option ℕ) (others : ℕ) (tags : Tags) (d : P2pkConditions)
      → d.n_sigs ≡ 1
      → sigs_tag c o others ≡ ok tags
      → (apply_all tags d ≡ ok (record d { n_sigs = get_or o 1 })) × (get_or o 1 ≤ 1 + others)
  unfolding sigs_tag apply_tags apply_tag
  apply-sigs_tag none others tags d one h = (
    subst (λ ts. apply_all ts d ≡ ok (record d { n_sigs = 1 })) (ok-eq-ok h)
        (ap (λ n. ok (record d { n_sigs = n })) one),
    omega arith,
  )
  apply-sigs_tag (some n) others tags d one h = elim (Bool-cases (n == 1)) [
    | inl single ↦
        let same = ==→≡ n 1 single in
        (
          subst (λ ts. apply_all ts d ≡ ok (record d { n_sigs = n }))
              (ok-eq-ok (rw (sigs_tag, single) at h))
              (ap (λ m. ok (record d { n_sigs = m })) (one ∙ sym same)),
          omega (arith, same),
        )
    | inr several ↦
        let bounds = leb n max_safe_integer && leb n (1 + others) in
        let (u, tested, h₁) =
          >>=-eq-ok (ensure (not (n == 0) && bounds) bad_n_sigs) _ (rw (sigs_tag, several) at h) in
        let (positive, inside) =
          positive_and_safe n bounds (ensure-eq-ok (not (n == 0) && bounds) bad_n_sigs tested) in
        let (safe, few) = both (leb n max_safe_integer) (leb n (1 + others)) inside in
        (
          subst (λ ts. apply_all ts d ≡ ok (record d { n_sigs = n })) (ok-eq-ok h₁)
              (rw (apply_tags, apply_tag, first_number-of_number n positive safe) refl),
          leb→le n (1 + others) few,
        )
  ]

  -- What `p2pkSecretHex` writes down.
  abbrev pub conditions_of : Text → LockOptions → P2pkConditions
  conditions_of key options = record {
    lock_key = key;
    locktime = options.locktime;
    refund = options.refund;
    pubkeys = options.pubkeys;
    n_sigs = get_or options.n_sigs 1;
  }

  parse_written :
      (nonce key : Text) (tags : Tags) (e : P2pkConditions)
      → c.is_pubkey key ≡ true
      → apply_all tags
          (record { lock_key = key; locktime = none; refund = []; pubkeys = []; n_sigs = 1 })
        ≡ ok e
      → leb e.n_sigs (1 + length e.pubkeys) ≡ true
      → parse_p2pk_secret c (c.write_secret nonce key tags) ≡ ok (some e)
  unfolding parse_p2pk_secret parse_conditions
  parse_written nonce key tags e keyed all few =
      rw (parse_p2pk_secret, laws.secrets nonce key tags, parse_conditions, keyed, all, few) refl

  -- Where JSON, hexadecimal and decimal text read back as they were written: a secret that
  -- `p2pkSecretHex` makes is read by `parseP2pkSecret` with exactly the lock key, the locktime, the
  -- refund keys, the further keys and the number of signatures that were asked for, which is one if
  -- none was.
  pub parse_p2pk_secret-p2pk_secret_hex :
      (drawn key : Text) (options : LockOptions) (secret : Text)
      → p2pk_secret_hex c drawn key options ≡ ok secret
      → parse_p2pk_secret c secret ≡ ok (some (conditions_of key options))
  unfolding p2pk_secret_hex apply_tag
  parse_p2pk_secret-p2pk_secret_hex drawn key options secret h =
      let (u, keyed, h₁) = >>=-eq-ok (ensure (c.is_pubkey key) bad_lock_key) _ h in
      let (locktime, l, h₂) = >>=-eq-ok (locktime_tag c options.locktime) _ h₁ in
      let (refund, r, h₃) = >>=-eq-ok (keys_tag c TagName.refund bad_refund options.refund) _ h₂ in
      let (pubkeys, p, h₄) =
        >>=-eq-ok (keys_tag c TagName.pubkeys bad_pubkeys options.pubkeys) _ h₃ in
      let (n_sigs, n, h₅) = >>=-eq-ok (sigs_tag c options.n_sigs (length options.pubkeys)) _ h₄ in
      let start : P2pkConditions = record {
        lock_key = key;
        locktime = none;
        refund = [];
        pubkeys = [];
        n_sigs = 1;
      } in
      let d₁ = record start { locktime = options.locktime } in
      let d₂ = record d₁ { refund = options.refund } in
      let d₃ = record d₂ { pubkeys = options.pubkeys } in
      let (sigs, few) = apply-sigs_tag options.n_sigs (length options.pubkeys) n_sigs d₃ refl n in
      let all : apply_all (locktime ++ (refund ++ (pubkeys ++ n_sigs))) start
          ≡ ok (conditions_of key options) =
        apply_tags-append locktime (refund ++ (pubkeys ++ n_sigs)) start
          (apply-locktime_tag options.locktime locktime start refl l)
        ∙ apply_tags-append refund (pubkeys ++ n_sigs) d₁ (
            apply-keys_tag TagName.refund bad_refund (λ ks e. record e { refund = ks })
              (λ ks e t. rw (apply_tag, t) refl) options.refund refund d₁ refl r)
        ∙ apply_tags-append pubkeys n_sigs d₂ (
            apply-keys_tag TagName.pubkeys bad_pubkeys (λ ks e. record e { pubkeys = ks })
              (λ ks e t. rw (apply_tag, t) refl) options.pubkeys pubkeys d₂ refl p)
        ∙ sigs in
      subst (λ s. parse_p2pk_secret c s ≡ ok (some (conditions_of key options))) (ok-eq-ok h₅)
        (parse_written (get_or options.nonce drawn) key
          (locktime ++ (refund ++ (pubkeys ++ n_sigs))) (conditions_of key options)
          (ensure-eq-ok (c.is_pubkey key) bad_lock_key keyed) all (ground (arith, few)))
