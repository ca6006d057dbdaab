-- ===== src/Remote.antt =====
-- internal/remote/remote.go: the configuration that the server sends, and what it sets over the
-- local one. time.ParseDuration and regexp.Compile are parameters; a nil slice of disabled
-- collectors is `none`.
pub mod Trust
pub mod Fetch
pub mod Adopt
use yomins_agent.Go.Text.{Bytes, codes, equal, cut, has_prefix, is_digit, is_empty}
use yomins_agent.Config.{Config as LocalConfig}
use yomins_agent.Prelude.Int.{ℤ, pos, negsuc}
use yomins_agent.Prelude.{
  ℕ, Bool, true, false, not, ◌&&◌, ◌||◌, Option, none, some, List, [], ◌∷◌, ◌++◌, ◌==◌, ltb, leb,
  length, if◌then◌else◌,
}

pub record LogsConfig : Type 0 where
  pub enabled : Option Bool
  pub paths : List Bytes
  pub exclude : List Bytes
  pub redact : List Bytes

pub record IntegrationsConfig : Type 0 where
  pub enabled : Option Bool
  pub nginx_status_url : Option Bytes
  pub scrape_urls : List Bytes

pub record EventsConfig : Type 0 where
  pub enabled : Option Bool
  pub auth : Option Bool
  pub process : Option Bool
  pub network : Option Bool
  pub system : Option Bool
  pub process_lifecycle : Option Bool

pub record Config : Type 0 where
  pub interval : Option Bytes
  pub disabled_collectors : Option (List Bytes)
  pub logs : Option LogsConfig
  pub integrations : Option IntegrationsConfig
  pub events : Option EventsConfig

-- `Stored`: what is kept on disk and served.
pub record Stored : Type 0 where
  pub version : Bytes
  pub config : Config

abbrev pub mode_full : Bytes
mode_full = codes "full"

abbrev pub mode_off : Bytes
mode_off = codes "off"

-- `reSourceName`.
unfoldable pub is_name_start : ℕ → Bool
unfolding is_digit
is_name_start c = (leb b'a' c && leb c b'z') || is_digit c

abbrev pub all_name : Bytes → Bool
all_name [] = true
all_name (c ∷ s) = (is_name_start c || (c == b'_' || c == b'-')) && all_name s

unfoldable pub is_source_name : Bytes → Bool
unfolding is_name_start
is_source_name [] = false
is_source_name (c ∷ s) = is_name_start c && (leb (length s) 31 && all_name s)

-- `SplitTyped` of internal/logs/discover.go: the source and the glob.
unfoldable pub split_typed : Bytes → Bytes × Bytes
unfolding cut has_prefix is_source_name
split_typed g = elim (cut b':' g) [
  | none ↦ ([], g)
  | some (name, rest) ↦
      if has_prefix rest (codes "/") && is_source_name name then (name, rest) else ([], g)
]

-- `filepath.IsAbs`.
unfoldable pub is_abs : Bytes → Bool
unfolding has_prefix
is_abs p = has_prefix p (codes "/")

abbrev pub all_glob_abs : List Bytes → Bool
all_glob_abs [] = true
all_glob_abs (g ∷ gs) = is_abs (split_typed g).1 && all_glob_abs gs

abbrev pub all_abs : List Bytes → Bool
all_abs [] = true
all_abs (g ∷ gs) = is_abs g && all_abs gs

-- The comparisons with 10 seconds and 10 minutes.
unfoldable pub in_range : ℤ → Bool
in_range (pos d) = leb 10_000_000_000 d && leb d 600_000_000_000
in_range (negsuc d) = false

abbrev pub parsed_in_range : Option ℤ → Bool
parsed_in_range none = false
parsed_in_range (some d) = in_range d

unfoldable pub valid_interval : (Bytes → Option ℤ) → Option Bytes → Bool
valid_interval parse_duration none = true
valid_interval parse_duration (some s) = parsed_in_range (parse_duration s)

module _ (parse_duration : Bytes → Option ℤ) (compiles : Bytes → Bool) where
  abbrev pub all_compile : List Bytes → Bool
  all_compile [] = true
  all_compile (p ∷ ps) = compiles p && all_compile ps

  unfoldable pub valid_logs : Option LogsConfig → Bool
  valid_logs none = true
  valid_logs (some l) = all_compile l.redact && (all_glob_abs l.paths && all_abs l.exclude)

  -- `Validate`: whether it returns no error.
  unfoldable pub is_valid : Config → Bool
  unfolding valid_interval valid_logs
  is_valid c = valid_interval parse_duration c.interval && valid_logs c.logs

unfoldable pub set_interval : Option ℤ → LocalConfig → LocalConfig
set_interval none cfg = cfg
set_interval (some d) cfg = record cfg { interval = d }

unfoldable pub apply_interval : (Bytes → Option ℤ) → Option Bytes → LocalConfig → LocalConfig
unfolding set_interval
apply_interval parse_duration none cfg = cfg
apply_interval parse_duration (some s) cfg = set_interval (parse_duration s) cfg

-- `nil` in a pointer leaves the old value.
abbrev pub or_old {ℓ} : {A : Type ℓ} → Option A → A → A
or_old none old = old
or_old (some v) old = v

-- The closure `set`.
unfoldable pub set_flag : Bool → Option Bool → Bool → Bool
set_flag dst none disable = dst
set_flag dst (some v) disable = if disable then not v else v

unfoldable pub logs_word : Option Bool → Bytes → Bytes
logs_word none old = old
logs_word (some true) old = codes "auto"
logs_word (some false) old = codes "off"

unfoldable pub apply_logs : Option LogsConfig → Bytes → LocalConfig → LocalConfig
unfolding logs_word
apply_logs none mode cfg = cfg
apply_logs (some l) mode cfg = record cfg {
  logs = logs_word l.enabled cfg.logs;
  log_paths = if equal mode mode_full then cfg.log_paths ++ l.paths else cfg.log_paths;
  log_exclude = cfg.log_exclude ++ l.exclude;
  log_redact = cfg.log_redact ++ l.redact;
}

unfoldable pub apply_integrations : Option IntegrationsConfig → Bytes → LocalConfig → LocalConfig
unfolding set_flag
apply_integrations none mode cfg = cfg
apply_integrations (some i) mode cfg = record cfg {
  disable_integrations = set_flag cfg.disable_integrations i.enabled true;
  nginx_status_url =
      if equal mode mode_full && is_empty cfg.nginx_status_url
      then or_old i.nginx_status_url cfg.nginx_status_url
      else cfg.nginx_status_url;
  scrape_urls = if equal mode mode_full then cfg.scrape_urls ++ i.scrape_urls else cfg.scrape_urls;
}

unfoldable pub apply_events : Option EventsConfig → LocalConfig → LocalConfig
unfolding set_flag
apply_events none cfg = cfg
apply_events (some e) cfg = record cfg {
  disable_events = set_flag cfg.disable_events e.enabled true;
  disable_auth_events = set_flag cfg.disable_auth_events e.auth true;
  disable_process_events = set_flag cfg.disable_process_events e.process true;
  disable_network_events = set_flag cfg.disable_network_events e.network true;
  disable_system_events = set_flag cfg.disable_system_events e.system true;
  monitor_process_lifecycle = set_flag cfg.monitor_process_lifecycle e.process_lifecycle false;
}

unfoldable pub apply_collectors : Option (List Bytes) → LocalConfig → LocalConfig
apply_collectors none cfg = cfg
apply_collectors (some names) cfg = record cfg { disabled_collectors = names }

-- `Apply`.
unfoldable pub apply : (Bytes → Option ℤ) → Config → Bytes → LocalConfig → LocalConfig
unfolding apply_interval apply_collectors apply_logs apply_integrations apply_events
apply parse_duration c mode cfg =
    if equal mode mode_off
    then cfg
    else apply_events c.events (
        apply_integrations c.integrations mode (
          apply_logs c.logs mode (
            apply_collectors c.disabled_collectors (apply_interval parse_duration c.interval cfg))))
