-- ===== src/Remote/Trust.antt =====
-- What the mode of trust keeps of the local configuration when a remote one is applied.
use yomins_agent.Go.Text.{Bytes, equal, equal_iff, is_empty}
use yomins_agent.Config.{Config as LocalConfig}
use yomins_agent.Remote.{
  LogsConfig, IntegrationsConfig, EventsConfig, Config, mode_full, mode_off, or_old, set_interval,
  apply_interval, apply_collectors, apply_logs, apply_integrations, apply_events, apply,
}
use yomins_agent.Prelude.Int.{ℤ}
use yomins_agent.Prelude.{
  Bool, true, false, Option, none, some, List, [], ◌++◌, if◌then◌else◌, ◌≡◌, refl, ap, ◌∙◌, arith,
  inl, inr, Bool-cases, append-nil,
}

-- The settings that choose what is read.
pub record Reads : Type 0 where
  pub log_paths : List Bytes
  pub log_allow : List Bytes
  pub nginx_status_url : Bytes
  pub scrape_urls : List Bytes

abbrev pub reads : LocalConfig → Reads
reads c = record {
  log_paths = c.log_paths;
  log_allow = c.log_allow;
  nginx_status_url = c.nginx_status_url;
  scrape_urls = c.scrape_urls;
}

reads-set_interval : (o : Option ℤ) (cfg : LocalConfig) → reads (set_interval o cfg) ≡ reads cfg
unfolding set_interval
reads-set_interval none cfg = refl
reads-set_interval (some d) cfg = refl

reads-apply_interval :
    (parse_duration : Bytes → Option ℤ) (o : Option Bytes) (cfg : LocalConfig)
    → reads (apply_interval parse_duration o cfg) ≡ reads cfg
unfolding apply_interval
reads-apply_interval parse_duration none cfg = refl
reads-apply_interval parse_duration (some s) cfg = reads-set_interval (parse_duration s) cfg

reads-apply_collectors :
    (o : Option (List Bytes)) (cfg : LocalConfig) → reads (apply_collectors o cfg) ≡ reads cfg
unfolding apply_collectors
reads-apply_collectors none cfg = refl
reads-apply_collectors (some names) cfg = refl

reads-apply_events :
    (o : Option EventsConfig) (cfg : LocalConfig) → reads (apply_events o cfg) ≡ reads cfg
unfolding apply_events
reads-apply_events none cfg = refl
reads-apply_events (some e) cfg = refl

-- What the remote configuration adds in full trust.
abbrev pub paths_of : Option LogsConfig → List Bytes
paths_of none = []
paths_of (some l) = l.paths

abbrev pub urls_of : Option IntegrationsConfig → List Bytes
urls_of none = []
urls_of (some i) = i.scrape_urls

abbrev pub status_url_of : Option IntegrationsConfig → Bytes → Bytes
status_url_of none old = old
status_url_of (some i) old = if is_empty old then or_old i.nginx_status_url old else old

abbrev with_paths : Bool → Option LogsConfig → Reads → Reads
with_paths full o r = record r {
  log_paths = if full then r.log_paths ++ paths_of o else r.log_paths;
}

abbrev with_urls : Bool → Option IntegrationsConfig → Reads → Reads
with_urls full o r = record r {
  nginx_status_url = if full then status_url_of o r.nginx_status_url else r.nginx_status_url;
  scrape_urls = if full then r.scrape_urls ++ urls_of o else r.scrape_urls;
}

-- The local settings, each followed by the remote ones in full trust.
abbrev pub trusted : Bytes → Config → Reads → Reads
trusted mode c r =
    with_urls (equal mode mode_full) c.integrations (with_paths (equal mode mode_full) c.logs r)

reads-apply_logs :
    (o : Option LogsConfig) (mode : Bytes) (cfg : LocalConfig)
    → reads (apply_logs o mode cfg) ≡ with_paths (equal mode mode_full) o (reads cfg)
unfolding apply_logs
reads-apply_logs none mode cfg = ground (arith, append-nil cfg.log_paths)
reads-apply_logs (some l) mode cfg = refl

reads-apply_integrations :
    (o : Option IntegrationsConfig) (mode : Bytes) (cfg : LocalConfig)
    → reads (apply_integrations o mode cfg) ≡ with_urls (equal mode mode_full) o (reads cfg)
unfolding apply_integrations
reads-apply_integrations none mode cfg = ground (arith, append-nil cfg.scrape_urls)
reads-apply_integrations (some i) mode cfg = ground arith

off_is_not_full : (mode : Bytes) → equal mode mode_off ≡ true → equal mode mode_full ≡ false
unfolding equal
off_is_not_full mode h = ap (λ m. equal m mode_full) ((equal_iff mode mode_off).0 h)

-- The settings that choose what the agent reads after a remote configuration is applied: in full
-- trust the paths and the URLs that the server sends follow the local ones, and its nginx URL is
-- taken where there is no local one; in every other mode, and for the list of the places that logs
-- may be read from in every mode, they are the local ones.
pub reads-apply :
    (parse_duration : Bytes → Option ℤ) (c : Config) (mode : Bytes) (cfg : LocalConfig)
    → reads (apply parse_duration c mode cfg) ≡ trusted mode c (reads cfg)
unfolding apply
reads-apply parse_duration c mode cfg = elim (Bool-cases (equal mode mode_off)) [
  | inl off ↦ rw (off, off_is_not_full mode off) refl
  | inr on ↦ rw on (
      reads-apply_events c.events _
      ∙ reads-apply_integrations c.integrations mode _
      ∙ ap (with_urls (equal mode mode_full) c.integrations) (
          reads-apply_logs c.logs mode _
          ∙ ap (with_paths (equal mode mode_full) c.logs) (
              reads-apply_collectors c.disabled_collectors _
              ∙ reads-apply_interval parse_duration c.interval cfg)))
]
