-- ===== src/Metrics/SelfMetrics.antt =====
-- internal/collector/selfmetrics.go: what the agent counts about itself. The counters are whole
-- float64 numbers, exact below 2^53, and are counted in ℕ; a duration or a time is kept in
-- nanoseconds or seconds, and turned into the bit pattern of a float when it is collected.
use yomins_agent.Go.Text.{Bytes, codes, bytes_eq}
use yomins_agent.Metrics.Types.{MetricType, MetricPoint}
use yomins_agent.Metrics.Registry.{CollectError}
use yomins_agent.Prelude.Map.{lookup, insert}
use yomins_agent.Prelude.{ℕ, ◌+◌, ◌-◌, Bool, Option, none, some, List, [], ◌∷◌, map, if◌then◌else◌}

-- `SelfMetricsCollector`.
pub record SelfMetricsCollector : Type 0 where
  pub started_at : ℕ
  pub push_success_total : ℕ
  pub push_error_total : ℕ
  pub last_push_success : ℕ
  pub collection_duration : ℕ
  pub push_duration : ℕ
  pub collector_errors : List (Bytes × ℕ)

-- `NewSelfMetricsCollector`.
unfoldable pub new_self_metrics : ℕ → SelfMetricsCollector
new_self_metrics started_at = record {
  started_at = started_at;
  push_success_total = 0;
  push_error_total = 0;
  last_push_success = 0;
  collection_duration = 0;
  push_duration = 0;
  collector_errors = [];
}

abbrev pub or_zero : Option ℕ → ℕ
or_zero none = 0
or_zero (some n) = n

-- The loop over the errors of a pass, which is a map from the names.
unfoldable pub count_errors : List (Bytes × CollectError) → List (Bytes × ℕ) → List (Bytes × ℕ)
count_errors [] m = m
count_errors ((name, err) ∷ errs) m =
    count_errors errs (insert name (or_zero (lookup name m) + 1) m)

-- `RecordCollection`.
unfoldable pub record_collection :
    ℕ → List (Bytes × CollectError) → SelfMetricsCollector → SelfMetricsCollector
unfolding count_errors
record_collection duration errs s = record s {
  collection_duration = duration;
  collector_errors = count_errors errs s.collector_errors;
}

-- `RecordPush`, at a Unix time; `ok` says that there is no error.
unfoldable pub record_push : ℕ → Bool → ℕ → SelfMetricsCollector → SelfMetricsCollector
record_push duration ok unix s =
    if ok
    then record s {
      push_duration = duration;
      push_success_total = s.push_success_total + 1;
      last_push_success = unix;
    }
    else record s { push_duration = duration; push_error_total = s.push_error_total + 1 }

-- The floats that a whole number and a duration in nanoseconds become.
pub record Floats : Type 0 where
  pub of_nat : ℕ → ℕ
  pub seconds : ℕ → ℕ

-- The build: internal/version and the constants of Go's runtime.
pub record Build : Type 0 where
  pub version : Bytes
  pub commit : Bytes
  pub build_date : Bytes
  pub go_version : Bytes
  pub os : Bytes
  pub arch : Bytes

unfoldable pub self_point : Bytes → Bytes → MetricType → ℕ → List (Bytes × Bytes) → MetricPoint
self_point name help type value labels = record {
  name = name;
  help = help;
  type = type;
  value = value;
  labels = labels;
  timestamp = 0;
}

unfoldable pub error_point : Floats → Bytes × ℕ → MetricPoint
unfolding self_point
error_point fl (name, count) =
    self_point (codes "agent_collector_error_total") (codes "Total errors per collector")
      MetricType.counter (fl.of_nat count) ((codes "collector", name) ∷ [])

-- `Collect`, at a time in nanoseconds.
unfoldable pub collect : Floats → Build → ℕ → SelfMetricsCollector → List MetricPoint
unfolding self_point error_point
collect fl b now s =
    self_point (codes "agent_push_success_total")
      (codes "Total number of successful metric push operations") MetricType.counter
      (fl.of_nat s.push_success_total) []
    ∷ self_point (codes "agent_push_error_total")
        (codes "Total number of failed metric push operations") MetricType.counter
        (fl.of_nat s.push_error_total) []
    ∷ self_point (codes "agent_last_push_success_timestamp")
        (codes "Unix timestamp of the last successful push") MetricType.gauge
        (fl.of_nat s.last_push_success) []
    ∷ self_point (codes "agent_collection_duration_seconds")
        (codes "Duration of the last full collection pass in seconds") MetricType.gauge
        (fl.seconds s.collection_duration) []
    ∷ self_point (codes "agent_push_duration_seconds")
        (codes "Duration of the last push attempt in seconds") MetricType.gauge
        (fl.seconds s.push_duration) []
    ∷ self_point (codes "agent_uptime_seconds") (codes "Agent process uptime in seconds")
        MetricType.gauge (fl.seconds (now - s.started_at)) []
    ∷ self_point (codes "agent_info") (codes "Agent identity information") MetricType.gauge
        (fl.of_nat 1) ((codes "agent_version", b.version) ∷ [])
    ∷ self_point (codes "agent_build_info") (codes "Agent build information") MetricType.gauge
        (fl.of_nat 1)
        ((codes "version", b.version)
          ∷ (codes "commit", b.commit)
          ∷ (codes "build_date", b.build_date)
          ∷ (codes "go_version", b.go_version)
          ∷ (codes "os", b.os)
          ∷ (codes "arch", b.arch)
          ∷ [])
    ∷ map (error_point fl) s.collector_errors
