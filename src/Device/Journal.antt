-- ===== src/Device/Journal.antt =====
-- The durable journal of device jobs (device_jobs/journal.rs, journal_lan.rs of
-- crates/devbridge-client/src): its tables, its operations, and the proofs about them.
pub mod Store
pub mod Operations
pub mod Sweeps
pub mod Lan
pub mod Rows
pub mod Trace
pub mod Evolution
pub mod ExactlyOnce
pub mod Keys
pub mod Acks
pub mod Machine
pub mod Implements
