-- ===== src/Crypto.antt =====
-- packages/crypto: the curve, blind signatures and their proofs, and the spending conditions of proofs.
pub mod Curve
pub mod Bdhke
pub mod Dleq
pub mod P2pk
pub mod Toy
mod Tests
