-- ===== src/Device/Tim.antt =====
-- The executor of the card terminal (device_jobs/tim of crates/devbridge-client/src).
pub mod Terminal
pub mod Rules
pub mod Purchase
pub mod Jobs
pub mod Reconcile
pub mod Session
pub mod Reversal
mod Examples
