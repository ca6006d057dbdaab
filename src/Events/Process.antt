-- ===== src/Events/Process.antt =====
-- internal/events/process: processes that start, stop, use much or look suspicious. A float is its
-- IEEE bit pattern, and the arithmetic on it is a parameter; so are the regular expressions, each
-- a test of a command line.
pub mod Snapshot
pub mod Make
pub mod Start
pub mod Poll
pub mod Lifecycle
pub mod Rolling
pub mod Cooldown
use yomins_agent.Go.Text.{Bytes}
use yomins_agent.Events.Types.{HostInfo, AgentInfo}
use yomins_agent.Procfs.{Sample}
use yomins_agent.Prelude.Int.{ℤ}
use yomins_agent.Prelude.{ℕ, Bool, List}

-- The operations of Go's float64 and float32 that the package uses, on bit patterns.
pub record Floats : Type 0 where
  pub gt64 : ℕ → ℕ → Bool
  pub add64 : ℕ → ℕ → ℕ
  pub mul64 : ℕ → ℕ → ℕ
  pub div64 : ℕ → ℕ → ℕ
  pub of_uint : ℕ → ℕ
  pub eq64 : ℕ → ℕ → Bool
  pub gt32 : ℕ → ℕ → Bool
  pub add32 : ℕ → ℕ → ℕ
  pub mul32 : ℕ → ℕ → ℕ
  pub div32 : ℕ → ℕ → ℕ
  pub of_uint32 : ℕ → ℕ
  pub eq32 : ℕ → ℕ → Bool
  pub to_float32 : ℕ → ℕ
  -- `time.Duration.Seconds`, from nanoseconds.
  pub seconds : ℕ → ℕ

-- `Config`. A duration is in nanoseconds and not negative.
pub record Config : Type 0 where
  pub poll_interval : ℕ
  pub suspicious_patterns : List Bytes
  pub cpu_alert_threshold : ℕ
  pub cpu_alert_multiplier : ℕ
  pub mem_alert_threshold : ℕ
  pub mem_alert_multiplier : ℕ
  pub alert_cooldown : ℕ
  pub monitor_lifecycle : Bool
  pub monitor_tmp_paths : Bool
  pub host : HostInfo
  pub agent : AgentInfo

-- What a poll gets from the source: the processes, the total memory, the clock ticks of a second
-- as a float64, and the binary and the command line of a process.
pub record Reading : Type 0 where
  pub samples : List Sample
  pub mem_total : ℕ
  pub clock_ticks : ℕ
  pub details : ℤ → Bytes × Bytes
