-- ===== src/Config.antt =====
-- internal/config/config.go: the configuration of the agent. A duration is an int64 of nanoseconds.
-- Lower case and white space are those of ASCII.
pub mod Load
pub mod Csv
use yomins_agent.Go.Text.{Bytes, codes, equal, is_empty, trim_space, trim_right}
use yomins_agent.Go.Strconv.{atoi}
use yomins_agent.Prelude.Int.{ℤ, pos, negsuc}
use yomins_agent.Prelude.{
  ℕ, zero, suc, ◌+◌, Bool, true, false, not, ◌&&◌, ◌||◌, Option, none, some, List, [], ◌∷◌, ◌++◌,
  ◌==◌, leb, map, if◌then◌else◌,
}

pub record Config : Type 0 where
  pub version : Bool
  pub uninstall : Bool
  pub dry_run : Bool
  pub server : Bytes
  pub token : Bytes
  pub interval : ℤ
  pub log_level : Bytes
  pub hostname_override : Bytes
  pub disable_filesystems : Bool
  pub disable_network : Bool
  pub insecure_skip_verify : Bool
  pub state_dir : Bytes
  pub disable_auto_upgrade : Bool
  pub auto_upgrade_interval : ℤ
  pub exclude_mountpoints : List Bytes
  pub exclude_interfaces : List Bytes
  pub include_interfaces : List Bytes
  pub disable_kernel_care_info : Bool
  pub virtualization_override : Bytes
  pub disable_events : Bool
  pub disable_auth_events : Bool
  pub disable_process_events : Bool
  pub disable_network_events : Bool
  pub disable_system_events : Bool
  pub monitor_process_lifecycle : Bool
  pub event_buffer_size : ℤ
  pub wtmp_path : Bytes
  pub auth_log_path : Bytes
  pub suspicious_patterns : List Bytes
  pub bruteforce_threshold : ℤ
  pub bruteforce_window : ℤ
  pub bruteforce_suppression : ℤ
  pub monitor_tmp_paths : Bool
  pub monitor_config_files : Bool
  pub ignore_private_ip : Bool
  pub event_flush_interval : ℤ
  pub event_batch_size : ℤ
  pub logs : Bytes
  pub log_paths : List Bytes
  pub log_exclude : List Bytes
  pub log_allow : List Bytes
  pub log_redact : List Bytes
  pub disabled_collectors : List Bytes
  pub remote_config : Bytes
  pub disable_integrations : Bool
  pub nginx_status_url : Bytes
  pub mysql_dsn : Bytes
  pub scrape_urls : List Bytes

-- What the flags hold when none is given.
unfoldable pub default_config : Config
default_config = record {
  version = false;
  uninstall = false;
  dry_run = false;
  server = [];
  token = [];
  interval = pos 60_000_000_000;
  log_level = codes "info";
  hostname_override = [];
  disable_filesystems = false;
  disable_network = false;
  insecure_skip_verify = false;
  state_dir = codes "/var/lib/yomins/agent";
  disable_auto_upgrade = false;
  auto_upgrade_interval = pos 86_400_000_000_000;
  exclude_mountpoints = [];
  exclude_interfaces = [];
  include_interfaces = [];
  disable_kernel_care_info = false;
  virtualization_override = [];
  disable_events = false;
  disable_auth_events = false;
  disable_process_events = false;
  disable_network_events = false;
  disable_system_events = false;
  monitor_process_lifecycle = false;
  event_buffer_size = pos 10000;
  wtmp_path = codes "/var/log/wtmp";
  auth_log_path = codes "/var/log/auth.log";
  suspicious_patterns = [];
  bruteforce_threshold = pos 5;
  bruteforce_window = pos 30_000_000_000;
  bruteforce_suppression = pos 120_000_000_000;
  monitor_tmp_paths = true;
  monitor_config_files = true;
  ignore_private_ip = true;
  event_flush_interval = pos 10_000_000_000;
  event_batch_size = pos 200;
  logs = codes "off";
  log_paths = [];
  log_exclude = [];
  log_allow = [];
  log_redact = [];
  disabled_collectors = [];
  remote_config = codes "full";
  disable_integrations = false;
  nginx_status_url = [];
  mysql_dsn = [];
  scrape_urls = [];
}

unfoldable pub to_lower : Bytes → Bytes
to_lower s = map (λ c. if leb b'A' c && leb c b'Z' then c + 32 else c) s

-- `isTruthy`.
unfoldable pub is_truthy : Bytes → Bool
unfolding to_lower
is_truthy v =
    let v' = to_lower (trim_space v) in
    equal v' (codes "1") || (equal v' (codes "true") || equal v' (codes "yes"))

-- `strings.Split` at a comma.
abbrev pub add_byte : ℕ → List Bytes → List Bytes
add_byte c [] = (c ∷ []) ∷ []
add_byte c (w ∷ ws) = (c ∷ w) ∷ ws

unfoldable pub split_commas : Bytes → List Bytes
split_commas [] = [] ∷ []
split_commas (c ∷ s) = let rest = split_commas s in if c == b',' then [] ∷ rest else add_byte c rest

unfoldable pub trimmed_tokens : List Bytes → List Bytes
trimmed_tokens [] = []
trimmed_tokens (p ∷ ps) =
    let t = trim_space p in let rest = trimmed_tokens ps in if is_empty t then rest else t ∷ rest

-- `parseCSV`; `nil` is the empty list.
unfoldable pub parse_csv : Bytes → List Bytes
unfolding split_commas trimmed_tokens
parse_csv s = if is_empty s then [] else trimmed_tokens (split_commas s)

-- The errors of `Validate`.
pub data Fault : Type 0 where
  no_server no_token bad_interval bad_remote_config bad_logs : Fault

abbrev pub is_positive : ℤ → Bool
is_positive (pos zero) = false
is_positive (pos (suc n)) = true
is_positive (negsuc n) = false

unfoldable pub server_faults : Config → List Fault
server_faults c =
    if c.dry_run
    then []
    else (if is_empty c.server then Fault.no_server ∷ [] else [])
      ++ (if is_empty c.token then Fault.no_token ∷ [] else [])

unfoldable pub known_mode : Bytes → Bool
known_mode m =
    is_empty m || (equal m (codes "full") || (equal m (codes "limited") || equal m (codes "off")))

unfoldable pub known_logs : Bytes → Bool
known_logs l = is_empty l || (equal l (codes "off") || equal l (codes "auto"))

-- `Validate`: it takes the slashes off the end of the server, and gives all that is wrong.
unfoldable pub validate : Config → Config × List Fault
unfolding server_faults known_mode known_logs
validate c = (
  if c.dry_run || is_empty c.server
      then c
      else record c { server = trim_right (λ b. b == b'/') c.server },
  server_faults c
      ++ ((if is_positive c.interval then [] else Fault.bad_interval ∷ [])
          ++ ((if known_mode c.remote_config then [] else Fault.bad_remote_config ∷ [])
              ++ (if known_logs c.logs then [] else Fault.bad_logs ∷ []))),
)
