-- ===== src/Events/Types.antt =====
-- internal/events/types.go: the envelope that every security event travels in. An optional
-- pointer field is an `Option`, a time is the nanoseconds since Go's zero time, and a float is
-- its IEEE bit pattern, with which the model does no arithmetic.
use yomins_agent.Go.Text.{Bytes, codes}
use yomins_agent.Prelude.Int.{ℤ, pos}
use yomins_agent.Prelude.{ℕ, Option, none, List, []}

pub data EventType : Type 0 where
  auth_login_success auth_login_failed auth_logout auth_sudo : EventType
  auth_bruteforce_detected auth_login_new_ip : EventType
  process_start process_stop process_high_cpu process_high_memory : EventType
  process_suspicious process_exec_tmp process_reverse_shell : EventType
  network_connection_open network_scan_detected network_suspicious_port : EventType
  system_reboot system_oom_killer system_user_created system_user_deleted : EventType
  system_config_modified : EventType

-- The text that the constant stands for.
unfoldable pub event_type_text : EventType → Bytes
event_type_text auth_login_success = codes "auth.login_success"
event_type_text auth_login_failed = codes "auth.login_failed"
event_type_text auth_logout = codes "auth.logout"
event_type_text auth_sudo = codes "auth.sudo"
event_type_text auth_bruteforce_detected = codes "auth.bruteforce_detected"
event_type_text auth_login_new_ip = codes "auth.login_new_ip"
event_type_text process_start = codes "process.start"
event_type_text process_stop = codes "process.stop"
event_type_text process_high_cpu = codes "process.high_cpu"
event_type_text process_high_memory = codes "process.high_memory"
event_type_text process_suspicious = codes "process.suspicious"
event_type_text process_exec_tmp = codes "process.exec_tmp"
event_type_text process_reverse_shell = codes "process.reverse_shell"
event_type_text network_connection_open = codes "network.connection_open"
event_type_text network_scan_detected = codes "network.scan_detected"
event_type_text network_suspicious_port = codes "network.suspicious_port"
event_type_text system_reboot = codes "system.reboot"
event_type_text system_oom_killer = codes "system.oom_killer"
event_type_text system_user_created = codes "system.user_created"
event_type_text system_user_deleted = codes "system.user_deleted"
event_type_text system_config_modified = codes "system.config_modified"

pub data Category : Type 0 where
  access_event threat_activity system_check : Category

pub data Severity : Type 0 where
  info warning critical : Severity

-- `unset` is the empty string of an event that leaves the field out.
pub data Confidence : Type 0 where
  unset low medium high : Confidence

pub record HostInfo : Type 0 where
  pub hostname : Bytes
  pub ip : Bytes

pub record AgentInfo : Type 0 where
  pub name : Bytes
  pub version : Bytes

pub record ActorInfo : Type 0 where
  pub user : Bytes
  pub uid : ℤ
  pub ip : Bytes
  pub method : Bytes
  pub target_user : Bytes
  pub command : Bytes

pub record ContextInfo : Type 0 where
  pub session_id : Bytes
  pub tty : Bytes
  pub remote_ip : Bytes
  pub reason : Bytes
  pub service : Bytes

pub record ProcessDetail : Type 0 where
  pub name : Bytes
  pub pid : ℤ
  pub ppid : ℤ
  pub cmdline : Bytes
  pub exe : Bytes
  pub cpu_percent : ℕ
  pub memory_percent : ℕ

pub record NetworkDetail : Type 0 where
  pub local_ip : Bytes
  pub local_port : ℕ
  pub proto : Bytes

pub record Event : Type 0 where
  pub id : Bytes
  pub timestamp : ℕ
  pub type : EventType
  pub category : Category
  pub severity : Severity
  pub confidence : Confidence
  pub host : HostInfo
  pub agent : AgentInfo
  pub actor : Option ActorInfo
  pub context : Option ContextInfo
  pub tags : List Bytes
  pub process : Option ProcessDetail
  pub network : Option NetworkDetail

-- The values that a composite literal leaves zero.
abbrev pub no_actor : ActorInfo
no_actor = record { user = []; uid = pos 0; ip = []; method = []; target_user = []; command = [] }

abbrev pub no_context : ContextInfo
no_context = record { session_id = []; tty = []; remote_ip = []; reason = []; service = [] }

abbrev pub no_process : ProcessDetail
no_process = record {
  name = [];
  pid = pos 0;
  ppid = pos 0;
  cmdline = [];
  exe = [];
  cpu_percent = 0;
  memory_percent = 0;
}

abbrev pub blank_event : HostInfo → AgentInfo → Bytes → ℕ → EventType → Category → Severity → Event
blank_event host agent id now type category severity = record {
  id = id;
  timestamp = now;
  type = type;
  category = category;
  severity = severity;
  confidence = Confidence.unset;
  host = host;
  agent = agent;
  actor = none;
  context = none;
  tags = [];
  process = none;
  network = none;
}
