-- ===== src/Logs.antt =====
-- internal/logs: reading log files, remembering what was delivered, and shipping it.
pub mod Positions
pub mod Types
pub mod Tail
pub mod Ship
pub mod Redact
pub mod Allow
pub mod Follow
