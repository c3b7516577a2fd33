-- ===== src/Device/Portos/Payload.antt =====
-- The payloads of the `fiscal.*` jobs (device_jobs/portos/payload.rs of crates/devbridge-client/src).
pub mod Rules
pub mod Receipt
pub mod Print
pub mod Check
pub mod Printed
