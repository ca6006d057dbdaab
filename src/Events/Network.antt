-- ===== src/Events/Network.antt =====
-- internal/events/network: listening sockets that appear, and bursts of connections.
pub mod ProcNet
pub mod Poll
use yomins_agent.Go.Text.{Bytes, codes}
use yomins_agent.Events.Types.{HostInfo, AgentInfo}
use yomins_agent.Prelude.{ℕ, ltb, if◌then◌else◌}

-- `Config`; a duration is in nanoseconds and not negative, and a float is its bit pattern.
pub record Config : Type 0 where
  pub poll_interval : ℕ
  pub scan_delta_threshold : ℕ
  pub scan_multiplier : ℕ
  pub host : HostInfo
  pub agent : AgentInfo

-- The two values of `Proto`.
pub data Proto : Type 0 where
  tcp tcp6 : Proto

unfoldable pub proto_text : Proto → Bytes
proto_text tcp = codes "tcp"
proto_text tcp6 = codes "tcp6"

-- `listenEntry`.
pub record ListenEntry : Type 0 where
  pub proto : Proto
  pub local_ip : Bytes
  pub local_port : ℕ
