-- ===== src/Odoo.antt =====
-- The Odoo label source of the client (odoo_source/ of crates/devbridge-client/src): it polls Odoo for
-- the lines to print, remembers what it sent to the printer, and acks every outcome.
pub mod Ledger
pub mod Size
pub mod Batch
pub mod Poll
mod Examples
