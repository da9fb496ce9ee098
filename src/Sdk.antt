-- ===== src/Sdk.antt =====
-- packages/sdk: the client library.
pub mod Blinding
pub mod Store
pub mod Outputs
pub mod Locks
pub mod Secrets
pub mod Token
pub mod Wallet
mod Tests
