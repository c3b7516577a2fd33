-- ===== src/Device/Tim/Purchase.antt =====
-- One `card.purchase` or `card.credit` on its terminal, the held session (device_jobs/tim/purchase.rs
-- of crates/devbridge-client/src), and what it does with the money.
pub mod Defs
pub mod Hold
pub mod Run
pub mod Money
pub mod Settles
pub mod Sent
pub mod Told
