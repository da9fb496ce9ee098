-- ===== src/Mint.antt =====
-- packages/mint: the mint server. The children model its data, its ledger operations and its
-- request handlers, and prove what the handlers do to the database.
pub mod Data
pub mod Signing
pub mod Solvency
pub mod Invariant
pub mod Attribution
pub mod Swap
pub mod Issue
pub mod Melt
pub mod Relay
pub mod Credit
pub mod Tempo
pub mod FakeVault
pub mod Server
mod Toy
mod Tests
