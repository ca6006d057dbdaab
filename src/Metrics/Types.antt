-- ===== src/Metrics/Types.antt =====
-- internal/metrics/types.go: the points that the collectors give. A float is its bit pattern.
use yomins_agent.Go.Text.{Bytes}
use yomins_agent.Prelude.{ℕ, List}

-- Every type but `Counter` counts as a gauge.
pub data MetricType : Type 0 where
  gauge counter : MetricType

-- `labels` is a map.
pub record MetricPoint : Type 0 where
  pub name : Bytes
  pub help : Bytes
  pub type : MetricType
  pub value : ℕ
  pub labels : List (Bytes × Bytes)
  pub timestamp : ℕ

pub record MetricSet : Type 0 where
  pub points : List MetricPoint
  pub agent_id : Bytes
  pub hostname : Bytes
  pub version : Bytes
  pub source : Bytes
  pub collected_at : ℕ
