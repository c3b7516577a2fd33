-- ===== src/Server/Storage.antt =====
-- The SQLite storage of the server (crates/devbridge-server/src/storage.rs). A failing database is
-- not modelled.
pub mod Jobs
pub mod Lists
pub mod States
pub mod Recovery
