-- ===== src/Events/Network/Poll.antt =====
-- internal/events/network/collector.go: the baseline and poll. The comparison
-- `float64(total) >= float64(prev)*multiplier` is the parameter `at_least`.
pub mod Keys
pub mod News
pub mod Life
use yomins_agent.Go.Text.{Bytes, codes, bytes_eq}
use yomins_agent.Events.Types.{
  Event, EventType, Category, Severity, Confidence, NetworkDetail, no_context, blank_event,
}
use yomins_agent.Events.Network.{Config, ListenEntry, proto_text}
use yomins_agent.Events.Network.ProcNet.{key}
use yomins_agent.Prelude.Map.{lookup, insert}
use yomins_agent.Prelude.{
  ℕ, ◌-◌, Bool, true, false, ◌&&◌, Option, none, some, List, [], ◌∷◌, ◌++◌, ltb, leb, if◌then◌else◌,
}

-- `Collector`, less the scanner.
pub record Collector : Type 0 where
  pub cfg : Config
  pub prev_listen : List (Bytes × ListenEntry)
  pub prev_total : ℕ

-- The defaults of `newCollectorWithScanner`; `positive` is the test of a float64, and `two` is 2.0.
unfoldable pub new_collector : (ℕ → Bool) → ℕ → Config → Collector
new_collector positive two c = record {
  cfg = record c {
    poll_interval = if ltb 0 c.poll_interval then c.poll_interval else 5_000_000_000;
    scan_delta_threshold = if ltb 0 c.scan_delta_threshold then c.scan_delta_threshold else 50;
    scan_multiplier = if positive c.scan_multiplier then c.scan_multiplier else two;
  };
  prev_listen = [];
  prev_total = 0;
}

-- The detail of both events of a listener.
unfoldable pub network_detail : ListenEntry → NetworkDetail
unfolding proto_text
network_detail l = record {
  local_ip = l.local_ip;
  local_port = l.local_port;
  proto = proto_text l.proto;
}

-- `id` gives the id of the event of a type about a listener, or about none.
module _ (c : Config) (id : EventType → Option ListenEntry → Bytes) (now : ℕ) where
  abbrev blank : EventType → Option ListenEntry → Category → Severity → Event
  blank type l category severity = blank_event c.host c.agent (id type l) now type category severity

  -- `makeConnectionOpenEvent`.
  unfoldable pub make_connection_open_event : ListenEntry → Event
  unfolding network_detail
  make_connection_open_event l =
      record (blank EventType.network_connection_open (some l) Category.system_check
        Severity.info) {
          network = some (network_detail l);
          tags = codes "network" ∷ codes "listen" ∷ [];
        }

  -- `makeSuspiciousPortEvent`.
  unfoldable pub make_suspicious_port_event : ListenEntry → Event
  unfolding network_detail
  make_suspicious_port_event l =
      record (blank EventType.network_suspicious_port (some l) Category.threat_activity
        Severity.warning) {
          confidence = Confidence.medium;
          network = some (network_detail l);
          tags = codes "network" ∷ codes "suspicious_port" ∷ [];
        }

  -- `makeScanDetectedEvent`.
  unfoldable pub make_scan_detected_event : Event
  make_scan_detected_event =
      record (blank EventType.network_scan_detected none Category.threat_activity
        Severity.critical) {
          context = some (record no_context { reason = codes "connection_burst" });
          tags = codes "network" ∷ codes "scan" ∷ [];
        }

  -- The events of a listener, from what the map of the last poll holds under its key.
  unfoldable pub events_unless_known : ListenEntry → Option ListenEntry → List Event
  events_unless_known l (some known) = []
  events_unless_known l none = make_connection_open_event l ∷ make_suspicious_port_event l ∷ []

  -- The loop over the listeners: the map that it fills, and the events.
  unfoldable pub detect_new :
      List (Bytes × ListenEntry)
      → List ListenEntry
      → List (Bytes × ListenEntry)
      → List (Bytes × ListenEntry) × List Event
  detect_new prev [] current = (current, [])
  detect_new prev (l ∷ ls) current =
      let evs = events_unless_known l (lookup (key l) prev) in
      let (current', more) = detect_new prev ls (insert (key l) l current) in
      (current', evs ++ more)

module _ (at_least : ℕ → ℕ → ℕ → Bool) where
  unfoldable pub is_burst : Config → ℕ → ℕ → Bool
  is_burst c prev total =
      ltb 0 prev
      && (leb c.scan_delta_threshold (total - prev) && at_least total prev c.scan_multiplier)

  -- `poll`; `none` is a scan that failed. The threshold is positive, so that a difference below zero
  -- does not reach it.
  unfoldable pub poll :
      (EventType → Option ListenEntry → Bytes)
      → ℕ
      → Option (List ListenEntry × ℕ)
      → Collector
      → Collector × List Event
  poll id now none s = (s, [])
  poll id now (some (listeners, total)) s =
      let (current, evs) = detect_new s.cfg id now s.prev_listen listeners [] in
      (
        record s { prev_listen = current; prev_total = total },
        evs
            ++ (if is_burst s.cfg s.prev_total total
                then make_scan_detected_event s.cfg id now ∷ []
                else []),
      )

-- The loop of `Run` that fills the baseline.
unfoldable pub index_listeners :
    List ListenEntry → List (Bytes × ListenEntry) → List (Bytes × ListenEntry)
index_listeners [] m = m
index_listeners (l ∷ ls) m = index_listeners ls (insert (key l) l m)

-- `Run` before its loop; `none` is a scan that failed, with which it ends.
unfoldable pub start : Option (List ListenEntry × ℕ) → Collector → Option Collector
start none s = none
start (some (listeners, total)) s =
    some (record s { prev_listen = index_listeners listeners s.prev_listen; prev_total = total })
