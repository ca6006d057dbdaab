-- ===== src/Config/Load.antt =====
-- internal/config/config.go: what the environment sets over the flags. The parsing of the command
-- line is done by Go's package flag: it gives the fields, the texts of the lists, and the names of
-- the flags that are set.
use yomins_agent.Go.Text.{Bytes, codes, is_empty, trim_space}
use yomins_agent.Go.Strconv.{atoi}
use yomins_agent.Config.{Config, to_lower, is_truthy, parse_csv, is_positive}
use yomins_agent.Prelude.Int.{ℤ}
use yomins_agent.Prelude.{Bool, true, Option, none, some, [], if◌then◌else◌}

-- `os.Getenv`, for a variable that `os.LookupEnv` reads.
abbrev pub getenv : Option Bytes → Bytes
getenv none = []
getenv (some v) = v

-- A variable over the field of a flag: `set` says that the flag is on the command line.
unfoldable pub overlay_text : Bool → Bytes → Bytes → Bytes
overlay_text set v old = if set then old else if is_empty v then old else v

unfoldable pub overlay_word : Bool → Bytes → Bytes → Bytes
overlay_word set v old = if set then old else if is_empty v then old else to_lower (trim_space v)

unfoldable pub overlay_true : Bool → Bytes → Bool → Bool
overlay_true set v old = if set then old else if is_truthy v then true else old

unfoldable pub overlay_truth : Bool → Bytes → Bool → Bool
overlay_truth set v old = if set then old else if is_empty v then old else is_truthy v

-- `time.ParseDuration` is the parameter.
unfoldable pub overlay_duration : (Bytes → Option ℤ) → Bool → Bytes → ℤ → ℤ
overlay_duration parse_duration set v old =
    if set
    then old
    else if is_empty v
    then old
    else elim (parse_duration v) [ none ↦ old | some d ↦ d ]

unfoldable pub overlay_count : Bool → Bytes → ℤ → ℤ
overlay_count set v old =
    if set
    then old
    else if is_empty v
    then old
    else elim (atoi v) [ none ↦ old | some n ↦ if is_positive n then n else old ]

-- The texts of the lists, before they are split.
pub record Raw : Type 0 where
  pub exclude_mountpoints : Bytes
  pub exclude_interfaces : Bytes
  pub include_interfaces : Bytes
  pub suspicious_patterns : Bytes
  pub log_paths : Bytes
  pub log_exclude : Bytes
  pub log_allow : Bytes
  pub scrape_urls : Bytes

module _ (parse_duration : Bytes → Option ℤ) (explicit : Bytes → Bool)
    (lookup_env : Bytes → Option Bytes) where
  abbrev env : Bytes → Bytes
  env name = getenv (lookup_env name)

  -- `overlayEnv`.
  unfoldable pub overlay_env : Config → Config
  overlay_env c = record c {
    server = overlay_text (explicit (codes "server")) (env (codes "YOMINS_SERVER")) c.server;
    token = overlay_text (explicit (codes "token")) (env (codes "YOMINS_TOKEN")) c.token;
    interval =
        overlay_duration parse_duration (explicit (codes "interval"))
          (env (codes "YOMINS_INTERVAL")) c.interval;
    log_level =
        overlay_text (explicit (codes "log-level")) (env (codes "YOMINS_LOG_LEVEL")) c.log_level;
    hostname_override =
        overlay_text (explicit (codes "hostname-override")) (env (codes "YOMINS_HOSTNAME_OVERRIDE"))
          c.hostname_override;
    disable_filesystems =
        overlay_true (explicit (codes "disable-filesystems"))
          (env (codes "YOMINS_DISABLE_FILESYSTEMS")) c.disable_filesystems;
    disable_network =
        overlay_true (explicit (codes "disable-network")) (env (codes "YOMINS_DISABLE_NETWORK"))
          c.disable_network;
    state_dir =
        overlay_text (explicit (codes "state-dir")) (env (codes "YOMINS_STATE_DIR")) c.state_dir;
    disable_auto_upgrade =
        overlay_true (explicit (codes "disable-auto-upgrade"))
          (env (codes "YOMINS_DISABLE_AUTO_UPGRADE")) c.disable_auto_upgrade;
    auto_upgrade_interval =
        overlay_duration parse_duration (explicit (codes "auto-upgrade-interval"))
          (env (codes "YOMINS_AUTO_UPGRADE_INTERVAL")) c.auto_upgrade_interval;
    disable_kernel_care_info =
        overlay_true (explicit (codes "disable-kernelcare-info"))
          (env (codes "YOMINS_DISABLE_KERNELCARE_INFO")) c.disable_kernel_care_info;
    virtualization_override =
        overlay_text (explicit (codes "virtualization-override"))
          (env (codes "YOMINS_VIRTUALIZATION_OVERRIDE")) c.virtualization_override;
    disable_events =
        overlay_true (explicit (codes "disable-events")) (env (codes "YOMINS_DISABLE_EVENTS"))
          c.disable_events;
    disable_auth_events =
        overlay_true (explicit (codes "disable-auth-events"))
          (env (codes "YOMINS_DISABLE_AUTH_EVENTS")) c.disable_auth_events;
    disable_process_events =
        overlay_true (explicit (codes "disable-process-events"))
          (env (codes "YOMINS_DISABLE_PROCESS_EVENTS")) c.disable_process_events;
    disable_network_events =
        overlay_true (explicit (codes "disable-network-events"))
          (env (codes "YOMINS_DISABLE_NETWORK_EVENTS")) c.disable_network_events;
    disable_system_events =
        overlay_true (explicit (codes "disable-system-events"))
          (env (codes "YOMINS_DISABLE_SYSTEM_EVENTS")) c.disable_system_events;
    monitor_process_lifecycle =
        overlay_true (explicit (codes "monitor-process-lifecycle"))
          (env (codes "YOMINS_MONITOR_PROCESS_LIFECYCLE")) c.monitor_process_lifecycle;
    remote_config =
        overlay_word (explicit (codes "remote-config")) (env (codes "YOMINS_REMOTE_CONFIG"))
          c.remote_config;
    disable_integrations =
        overlay_true (explicit (codes "disable-integrations"))
          (env (codes "YOMINS_DISABLE_INTEGRATIONS")) c.disable_integrations;
    nginx_status_url =
        overlay_text (explicit (codes "nginx-status-url")) (env (codes "YOMINS_NGINX_STATUS_URL"))
          c.nginx_status_url;
    mysql_dsn =
        overlay_text (explicit (codes "mysql-dsn")) (env (codes "YOMINS_MYSQL_DSN")) c.mysql_dsn;
    logs = overlay_word (explicit (codes "logs")) (env (codes "YOMINS_LOGS")) c.logs;
    event_buffer_size =
        overlay_count (explicit (codes "event-buffer-size"))
          (env (codes "YOMINS_EVENT_BUFFER_SIZE")) c.event_buffer_size;
    wtmp_path =
        overlay_text (explicit (codes "wtmp-path")) (env (codes "YOMINS_WTMP_PATH")) c.wtmp_path;
    auth_log_path =
        overlay_text (explicit (codes "auth-log-path")) (env (codes "YOMINS_AUTH_LOG_PATH"))
          c.auth_log_path;
    event_flush_interval =
        overlay_duration parse_duration (explicit (codes "event-flush-interval"))
          (env (codes "YOMINS_EVENT_FLUSH_INTERVAL")) c.event_flush_interval;
    event_batch_size =
        overlay_count (explicit (codes "event-batch-size")) (env (codes "YOMINS_EVENT_BATCH_SIZE"))
          c.event_batch_size;
    bruteforce_threshold =
        overlay_count (explicit (codes "bruteforce-threshold"))
          (env (codes "YOMINS_BRUTEFORCE_THRESHOLD")) c.bruteforce_threshold;
    bruteforce_window =
        overlay_duration parse_duration (explicit (codes "bruteforce-window"))
          (env (codes "YOMINS_BRUTEFORCE_WINDOW")) c.bruteforce_window;
    bruteforce_suppression =
        overlay_duration parse_duration (explicit (codes "bruteforce-suppression"))
          (env (codes "YOMINS_BRUTEFORCE_SUPPRESSION")) c.bruteforce_suppression;
    monitor_tmp_paths =
        overlay_truth (explicit (codes "monitor-tmp-paths"))
          (env (codes "YOMINS_MONITOR_TMP_PATHS")) c.monitor_tmp_paths;
    monitor_config_files =
        overlay_truth (explicit (codes "monitor-config-files"))
          (env (codes "YOMINS_MONITOR_CONFIG_FILES")) c.monitor_config_files;
    ignore_private_ip =
        overlay_truth (explicit (codes "ignore-private-ip"))
          (env (codes "YOMINS_IGNORE_PRIVATE_IP")) c.ignore_private_ip;
  }

  -- The variables of the lists; that of the interfaces to include counts when it is empty too.
  unfoldable pub overlay_raw : Raw → Raw
  overlay_raw r = record {
    exclude_mountpoints =
        overlay_text (explicit (codes "exclude-mountpoints"))
          (env (codes "YOMINS_EXCLUDE_MOUNTPOINTS")) r.exclude_mountpoints;
    exclude_interfaces =
        overlay_text (explicit (codes "exclude-interfaces"))
          (env (codes "YOMINS_EXCLUDE_INTERFACES")) r.exclude_interfaces;
    include_interfaces =
        if explicit (codes "include-interfaces")
        then r.include_interfaces
        else elim (lookup_env (codes "YOMINS_INCLUDE_INTERFACES")) [
          | none ↦ r.include_interfaces
          | some v ↦ v
        ];
    suspicious_patterns =
        overlay_text (explicit (codes "suspicious-patterns"))
          (env (codes "YOMINS_SUSPICIOUS_PATTERNS")) r.suspicious_patterns;
    log_paths =
        overlay_text (explicit (codes "log-paths")) (env (codes "YOMINS_LOG_PATHS")) r.log_paths;
    log_exclude =
        overlay_text (explicit (codes "log-exclude")) (env (codes "YOMINS_LOG_EXCLUDE"))
          r.log_exclude;
    log_allow =
        overlay_text (explicit (codes "log-allow")) (env (codes "YOMINS_LOG_ALLOW")) r.log_allow;
    scrape_urls =
        overlay_text (explicit (codes "scrape-urls")) (env (codes "YOMINS_SCRAPE_URLS"))
          r.scrape_urls;
  }

  -- `Load` after the flags are parsed.
  unfoldable pub load : Config → Raw → Config
  load c raw =
      let r = overlay_raw raw in
      record (overlay_env c) {
        exclude_mountpoints = parse_csv r.exclude_mountpoints;
        exclude_interfaces = parse_csv r.exclude_interfaces;
        include_interfaces = parse_csv r.include_interfaces;
        suspicious_patterns = parse_csv r.suspicious_patterns;
        log_paths = parse_csv r.log_paths;
        log_exclude = parse_csv r.log_exclude;
        log_allow = parse_csv r.log_allow;
        scrape_urls = parse_csv r.scrape_urls;
      }
