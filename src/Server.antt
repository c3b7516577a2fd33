-- ===== src/Server.antt =====
-- The server (crates/devbridge-server, with the shared types of crates/devbridge-core): the SQLite
-- storage of jobs and clients, the routing queue, and the gRPC dispatch service.
pub mod Job
pub mod Storage
pub mod Clients
pub mod Queue
pub mod Dispatch
mod Examples
