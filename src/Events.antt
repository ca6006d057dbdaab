-- ===== src/Events.antt =====
-- The event half of the agent: internal/events.
pub mod Types
pub mod Ring
pub mod Auth
pub mod System
pub mod Process
pub mod Network
pub mod Pipeline
