-- ===== src/Device/Portos.antt =====
-- The executor of the fiscal printer (device_jobs/portos of crates/devbridge-client/src), a client of
-- the Portos service.
pub mod Operation
pub mod Reply
pub mod Register
pub mod Payload
pub mod Control
pub mod Executor
mod Examples
