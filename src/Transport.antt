-- ===== src/Transport.antt =====
-- The transport half of the agent: internal/transport.
pub mod Session
pub mod Response
pub mod Attempt
pub mod Retry
pub mod Flush
