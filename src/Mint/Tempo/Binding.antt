-- ===== src/Mint/Tempo/Binding.antt =====
-- vault-tempo.ts, `verifyTokenBinding`: what a mint asks of its token and its vault before it starts.
-- Each call of the chain is `none` where it throws, told apart by the attempt; the warnings are left out.
use picocash.Prelude.{
  some-eq-some, ℕ, ◌≤◌, ◌≡◌, sym, subst, ap, ◌∙◌, Text, Bool, true, not, Option, none, some, arith,
  ◌==◌, ltb, if◌then◌else◌, ==→≡,
}
use picocash.Result.{Result, ok, err, ensure, ◌>>=◌, ◌>>◌, >>=-eq-ok, ensure-eq-ok, ok-eq-ok}
use picocash.Mint.Tempo.{with_retry}

pub data BindingError (E : Type 0) : Type 0 where
  thrown : E → BindingError E
  no_code not_tip20 no_token wrong_token fee_above_cap : BindingError E

-- The contract calls of the check.
pub record TokenReader (E : Type 0) : Type 0 where
  pub is_rate_limit : E → Bool
  pub get_code : Text → ℕ → Result E Bool
  pub symbol : Text → ℕ → Result E Text
  pub decimals : Text → ℕ → Result E ℕ
  pub token : Text → ℕ → Result E Text
  pub max_melt_fee : Text → ℕ → Result E ℕ

pub record TempoConfig : Type 0 where
  pub token_address : Text
  pub deposit_address : Text

abbrev pub or_thrown :
    {E A : Type 0} → (E → BindingError E) → Result E A → Result (BindingError E) A
or_thrown wrap (ok a) = ok a
or_thrown wrap (err e) = err (wrap e)

-- The ceiling of the melt fee; a vault that has none is let pass.
unfoldable pub check_fee : {E : Type 0} → Option ℕ → Result E ℕ → Result (BindingError E) (Unit {0})
check_fee none cap = ok tt
check_fee (some melt_fee) (err e) = ok tt
check_fee (some melt_fee) (ok cap) = ensure (not (ltb cap melt_fee)) fee_above_cap

module _ (lower : Text → Text) {E : Type 0} (client : TokenReader E) where
  abbrev pub reads : {A : Type 0} → (ℕ → Result E A) → Result E A
  reads fn = with_retry client.is_rate_limit fn

  -- The part for a deposit address that is a contract.
  unfoldable pub check_vault : TempoConfig → Option ℕ → Result (BindingError E) (Unit {0})
  check_vault tempo melt_fee = do
    vault_token ← or_thrown (λ e. no_token) (reads (client.token tempo.deposit_address))
    ensure (lower vault_token == lower tempo.token_address) wrong_token
    check_fee melt_fee (reads (client.max_melt_fee tempo.deposit_address))

  unfoldable pub verify_token_binding : TempoConfig → Option ℕ → Result (BindingError E) (Text × ℕ)
  verify_token_binding tempo melt_fee = do
    live ← or_thrown thrown (reads (client.get_code tempo.token_address))
    ensure live no_code
    symbol ← or_thrown (λ e. not_tip20) (reads (client.symbol tempo.token_address))
    decimals ← or_thrown (λ e. not_tip20) (reads (client.decimals tempo.token_address))
    is_contract ← or_thrown thrown (reads (client.get_code tempo.deposit_address))
    (if is_contract then check_vault tempo melt_fee else ok tt)
    ok (symbol, decimals)

  -- A vault of the token, whose ceiling, where it answers, is not below the fee.
  record IsVault (tempo : TempoConfig) (melt_fee : Option ℕ) : Type 0 where
    vault_token : Text
    told : reads (client.token tempo.deposit_address) ≡ ok vault_token
    same : lower vault_token ≡ lower tempo.token_address
    below :
        (fee cap : ℕ)
        → melt_fee ≡ some fee
        → reads (client.max_melt_fee tempo.deposit_address) ≡ ok cap
        → fee ≤ cap

  -- What a mint that starts has found: a token with code, and at the deposit address a vault, where
  -- it has code.
  record IsBound (tempo : TempoConfig) (melt_fee : Option ℕ) : Type 0 where
    live : reads (client.get_code tempo.token_address) ≡ ok true
    vault : reads (client.get_code tempo.deposit_address) ≡ ok true → IsVault tempo melt_fee

  or_thrown-eq-ok :
      {A : Type 0} (wrap : E → BindingError E) (r : Result E A) {a : A}
      → or_thrown wrap r ≡ ok a
      → r ≡ ok a
  or_thrown-eq-ok wrap (ok b) h = cc h
  or_thrown-eq-ok wrap (err e) h = absurd (cc h)

  check_fee-below :
      (melt_fee : Option ℕ) (answer : Result E ℕ) {u : Unit {0}} (fee cap : ℕ)
      → check_fee melt_fee answer ≡ ok u
      → melt_fee ≡ some fee
      → answer ≡ ok cap
      → fee ≤ cap
  unfolding check_fee
  check_fee-below none answer fee cap h m a = absurd (cc m)
  check_fee-below (some n) (err e) fee cap h m a = absurd (cc a)
  check_fee-below (some n) (ok c) fee cap h m a =
      let same = some-eq-some m in
      let capped = ok-eq-ok a in
      let passed = ensure-eq-ok (not (ltb c n)) fee_above_cap h in
      ground (arith, same, capped, passed)

  check_vault-IsVault :
      (tempo : TempoConfig) (melt_fee : Option ℕ) {u : Unit {0}}
      → check_vault tempo melt_fee ≡ ok u
      → IsVault tempo melt_fee
  unfolding check_vault
  check_vault-IsVault tempo melt_fee h =
      let (vault_token, told, h₁) =
        >>=-eq-ok (or_thrown (λ e. no_token) (reads (client.token tempo.deposit_address))) _ h in
      let (w, tested, h₂) =
        >>=-eq-ok (ensure (lower vault_token == lower tempo.token_address) wrong_token) _ h₁ in
      record {
        vault_token = vault_token;
        told = or_thrown-eq-ok (λ e. no_token) _ told;
        same =
            ==→≡ (lower vault_token) (lower tempo.token_address)
              (ensure-eq-ok (lower vault_token == lower tempo.token_address) wrong_token tested);
        below = λ fee cap m a.
            check_fee-below melt_fee (reads (client.max_melt_fee tempo.deposit_address)) fee cap h₂
              m a;
      }

  -- A start that is allowed found its token, its vault and its fee in order.
  verify_token_binding-IsBound :
      (tempo : TempoConfig) (melt_fee : Option ℕ) (answer : Text × ℕ)
      → verify_token_binding tempo melt_fee ≡ ok answer
      → IsBound tempo melt_fee
  unfolding verify_token_binding
  verify_token_binding-IsBound tempo melt_fee answer h =
      let (live, coded, h₁) =
        >>=-eq-ok (or_thrown thrown (reads (client.get_code tempo.token_address))) _ h in
      let (u, there, h₂) = >>=-eq-ok (ensure live no_code) _ h₁ in
      let (symbol, named, h₃) =
        >>=-eq-ok (or_thrown (λ e. not_tip20) (reads (client.symbol tempo.token_address))) _ h₂ in
      let (decimals, scaled, h₄) =
        >>=-eq-ok (or_thrown (λ e. not_tip20) (reads (client.decimals tempo.token_address))) _ h₃ in
      let (is_contract, asked, h₅) =
        >>=-eq-ok (or_thrown thrown (reads (client.get_code tempo.deposit_address))) _ h₄ in
      let (w, checked, h₆) =
        >>=-eq-ok (if is_contract then check_vault tempo melt_fee else ok tt) _ h₅ in
      record {
        live = or_thrown-eq-ok thrown _ coded ∙ ap ok (ensure-eq-ok live no_code there);
        vault = λ contract.
            let deployed = ok-eq-ok (sym (or_thrown-eq-ok thrown _ asked) ∙ contract) in
            check_vault-IsVault tempo melt_fee (
              subst (λ b. (if b then check_vault tempo melt_fee else ok tt) ≡ ok w) deployed
                checked);
      }
