-- ===== src/Mint/FakeVault.antt =====
-- packages/mint/src/vault.ts, `FakeVault`: the vault of tests and local runs. `fake_tx` is the text
-- `fake-tx-n`.
use picocash.Prelude.{ℕ, ◌+◌, ◌≡◌, Text, Option, some, List, ◌==◌, if◌then◌else◌}
use picocash.Dict.{lookup, put, lookup-put}
use picocash.Mint.Tempo.{Deposit, amount_of}

pub record FakeVault : Type 0 where
  pub deposits : List (Text × Deposit)
  pub counter : ℕ

unfoldable pub simulate_deposit : (ℕ → Text) → Text → ℕ → FakeVault → Deposit × FakeVault
simulate_deposit fake_tx quote_id amount vault =
    let total = amount_of (lookup quote_id vault.deposits) + amount in
    let deposit : Deposit = record { amount = total; tx_ref = fake_tx (vault.counter + 1) } in
    (
      deposit,
      record { deposits = put quote_id deposit vault.deposits; counter = vault.counter + 1 },
    )

unfoldable pub fake_deposit : Text → FakeVault → Option Deposit
fake_deposit quote_id vault = lookup quote_id vault.deposits

-- A simulated deposit adds to what its quote had, and leaves the other quotes alone.
fake_deposit-simulate_deposit :
    (fake_tx : ℕ → Text) (asked quote_id : Text) (amount : ℕ) (vault : FakeVault)
    → fake_deposit asked ((simulate_deposit fake_tx quote_id amount vault).1) ≡ (
        if quote_id == asked
        then some ((simulate_deposit fake_tx quote_id amount vault).0)
        else fake_deposit asked vault)
unfolding fake_deposit simulate_deposit
fake_deposit-simulate_deposit fake_tx asked quote_id amount vault =
    lookup-put asked quote_id _ vault.deposits
