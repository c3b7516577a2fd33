-- ===== src/Server/Dispatch.antt =====
-- The gRPC service that streams jobs to the clients and hears how they end
-- (crates/devbridge-server/src/dispatch.rs).
pub mod Messages
pub mod Peers
pub mod Completion
pub mod Status
pub mod Subscription
pub mod Payload
pub mod Effects
pub mod Ends
pub mod Retries
pub mod Trace
pub mod Untouched
pub mod Finished
pub mod Unique
