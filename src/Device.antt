-- ===== src/Device.antt =====
-- The device-job channel of the client (crates/devbridge-client/src/device_jobs): the durable
-- journal, and the workers that run a job on its device.
pub mod Entry
pub mod Journal
pub mod Backoff
pub mod Tasks
pub mod Card
pub mod Intake
pub mod Pending
pub mod Tim
pub mod Portos
mod Examples
