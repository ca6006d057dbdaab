-- ===== src/Metrics.antt =====
-- The metrics half of the agent: internal/metrics and the registry of internal/collector.
pub mod Types
pub mod Encode
pub mod Registry
pub mod SelfMetrics
