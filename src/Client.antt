-- ===== src/Client.antt =====
-- The print side of the client (crates/devbridge-client/src).
pub mod Ipp
pub mod InFlight
pub mod Download
pub mod Report
mod Examples
