-- ===== src/Host.antt =====
-- The host, crates/host: it reads headers from a database, simulates what the guest will do, builds
-- the guest's input and runs one batch after the other.
pub mod Hash
pub mod Db
pub mod Attempt
pub mod Equal
pub mod Batch
pub mod Prepare
pub mod Execute
pub mod Settings
pub mod Prover
pub mod Session
