-- ===== src/Reserves.antt =====
-- apps/reserves: the monitor that compares what an issuer reports with what the chains hold.
pub mod Checks
pub mod Collisions
pub mod History
mod Tests
