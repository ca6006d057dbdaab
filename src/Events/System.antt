-- ===== src/Events/System.antt =====
-- internal/events/system: reboots, kills by the kernel's OOM killer, changes of users and of
-- monitored files. The clock, the ids of uuid.New, what a read returns and whether a write
-- succeeds are arguments.
pub mod Reboot
pub mod Oom
pub mod Users
pub mod Files
use yomins_agent.Go.Text.{Bytes}
use yomins_agent.Events.Types.{HostInfo, AgentInfo}
use yomins_agent.Prelude.{Bool}

-- `Config`, less the directory of the state files.
pub record Config : Type 0 where
  pub monitor_config_files : Bool
  pub host : HostInfo
  pub agent : AgentInfo
