-- ===== src/Events/Network/Poll/Life.antt =====
-- The network collector from its start over any polls.
use yomins_agent.Go.Text.{Bytes, bytes_eq}
use yomins_agent.Events.Types.{EventType}
use yomins_agent.Events.Network.{Config, ListenEntry}
use yomins_agent.Events.Network.Poll.{
  Collector, make_scan_detected_event, is_burst, poll, index_listeners, start,
}
use yomins_agent.Events.Network.Poll.News.{new_events, detect_new-current, detect_new-events}
use yomins_agent.Prelude.{
  ℕ, Bool, Option, none, some, List, [], ◌∷◌, ◌++◌, if◌then◌else◌, ◌≡◌, refl, ap, sym, ◌∙◌, arith,
}

some-injective : {s t : Collector} → some s ≡ some t → s ≡ t
some-injective e = ground arith

-- What a scan finds, the listeners and the number of connections.
abbrev pub Scan : Type 0
Scan = List ListenEntry × ℕ

-- The last scan that succeeded.
abbrev pub last_scan : Scan → List (ℕ × Option Scan) → Scan
last_scan last [] = last
last_scan last ((now, none) ∷ more) = last_scan last more
last_scan last ((now, some scan) ∷ more) = last_scan scan more

module _ (at_least : ℕ → ℕ → ℕ → Bool) (id : EventType → Option ListenEntry → Bytes)
    (c : Config) where
  -- The collector that knows a scan.
  abbrev pub knows : Scan → Collector
  knows (listeners, total) = record {
    cfg = c;
    prev_listen = index_listeners listeners [];
    prev_total = total;
  }

  -- Polls one after another.
  unfoldable pub polls : List (ℕ × Option Scan) → Collector → Collector
  polls [] s = s
  polls ((now, scan) ∷ more) s = polls more (poll at_least id now scan s).0

  poll-knows :
      (now : ℕ) (scan last : Scan) → (poll at_least id now (some scan) (knows last)).0 ≡ knows scan
  unfolding poll
  poll-knows now (listeners, total) (prev, before) =
      rw (detect_new-current c id now (index_listeners prev []) listeners []) refl

  polls-knows :
      (history : List (ℕ × Option Scan)) (last : Scan)
      → polls history (knows last) ≡ knows (last_scan last history)
  unfolding polls poll
  polls-knows [] last = refl
  polls-knows ((now, none) ∷ more) last = polls-knows more last
  polls-knows ((now, some scan) ∷ more) last =
      ap (polls more) (poll-knows now scan last) ∙ polls-knows more scan

  poll-events :
      (now : ℕ) (scan last : Scan)
      → (poll at_least id now (some scan) (knows last)).1
        ≡ new_events c id now last.0 scan.0
          ++ (if is_burst at_least c last.1 scan.1
              then make_scan_detected_event c id now ∷ []
              else [])
  unfolding poll
  poll-events now (listeners, total) (prev, before) =
      rw (detect_new-events c id now prev listeners []) refl

  start-knows :
      (first : Scan)
      → start (some first) (record { cfg = c; prev_listen = []; prev_total = 0 })
        ≡ some (knows first)
  unfolding start
  start-knows (listeners, total) = refl

  -- From a start of a new collector with a scan, and over any polls, a poll with a scan gives two
  -- events for each listener that the last scan before it which succeeded lacks, in the order of
  -- the scan, and then the event of a burst if the number of connections grew that much since that
  -- scan.
  pub poll_news :
      (first : Scan) (history : List (ℕ × Option Scan)) (now : ℕ) (scan : Scan) (s : Collector)
      → start (some first) (record { cfg = c; prev_listen = []; prev_total = 0 }) ≡ some s
      → (poll at_least id now (some scan) (polls history s)).1
        ≡ new_events c id now (last_scan first history).0 scan.0
          ++ (if is_burst at_least c (last_scan first history).1 scan.1
              then make_scan_detected_event c id now ∷ []
              else [])
  poll_news first history now scan s started =
      let knew : s ≡ knows first = some-injective (sym started ∙ start-knows first) in
      ap (λ t. (poll at_least id now (some scan) (polls history t)).1) knew
      ∙ ap (λ t. (poll at_least id now (some scan) t).1) (polls-knows history first)
      ∙ poll-events now scan (last_scan first history)
