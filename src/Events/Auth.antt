-- ===== src/Events/Auth.antt =====
-- internal/events/auth/collector.go: what the auth collector decides from a log line or a wtmp
-- record. The three regular expressions are parameters, each from a line to its groups; an
-- event's id, from uuid.New, is an argument, and so is the time.

pub mod Wtmp
pub mod Sessions
pub mod Window
pub mod Alike
pub mod Cleanup
pub mod Lines
pub mod Origin
use yomins_agent.Go.Text.{Bytes, codes, is_empty, bytes_eq}
use yomins_agent.Events.Types.{
  Event, EventType, Category, Severity, Confidence, HostInfo, AgentInfo, no_actor, no_context,
  blank_event,
}
use yomins_agent.Prelude.Map.{Eq, lookup, insert, filter_map_values, pair_eq}
use yomins_agent.Prelude.{
  ℕ, ◌+◌, Bool, true, false, not, ◌&&◌, Option, none, some, List, [], ◌∷◌, ◌++◌, ltb, leb,
  if◌then◌else◌, length,
}

-- `Config`, less the paths; `has_state_dir` says that StateDir is not empty. A duration is in
-- nanoseconds and positive.
pub record Config : Type 0 where
  pub threshold : ℕ
  pub window : ℕ
  pub suppression : ℕ
  pub ignore_private_ip : Bool
  pub has_state_dir : Bool
  pub host : HostInfo
  pub agent : AgentInfo

-- The defaults of `NewCollector`, for fields that are zero.
unfoldable pub new_config : Config → Config
new_config c = record c {
  threshold = if ltb 0 c.threshold then c.threshold else 5;
  window = if ltb 0 c.window then c.window else 30_000_000_000;
  suppression = if ltb 0 c.suppression then c.suppression else 120_000_000_000;
}

-- `bruteforceKey`: the remote IP and the user.
abbrev pub BruteforceKey : Type 0
BruteforceKey = Bytes × Bytes

-- `bruteforceEntry`; `suppressed_until` is 0 in a new one, which is Go's zero time.
pub record BruteforceEntry : Type 0 where
  pub attempts : List ℕ
  pub suppressed_until : ℕ

abbrev pub new_entry : BruteforceEntry
new_entry = record { attempts = []; suppressed_until = 0 }

-- `saved_last_ip` is what the file auth_last_ip.json holds.
pub record Collector : Type 0 where
  pub bf_tracker : List (BruteforceKey × BruteforceEntry)
  pub last_ip_by_user : List (Bytes × Bytes)
  pub saved_last_ip : List (Bytes × Bytes)

-- The pruning loop: the attempts after `now - window`, which is `t.After(cutoff)`.
unfoldable pub prune : ℕ → ℕ → List ℕ → List ℕ
prune window now [] = []
prune window now (t ∷ ts) =
    let rest = prune window now ts in if ltb now (t + window) then t ∷ rest else rest

bruteforce_event : Config → Bytes → Bytes → Bytes → ℕ → Event
bruteforce_event c id user ip now =
    record (blank_event c.host c.agent id now EventType.auth_bruteforce_detected
      Category.threat_activity Severity.critical) {
        confidence = Confidence.high;
        actor = some (record no_actor { user = user; ip = ip });
        context = some (record no_context { reason = codes "bruteforce" });
        tags = codes "auth" ∷ codes "bruteforce" ∷ [];
      }

-- What `checkBruteforce` does to the entry of its key, and whether the alert goes out.
unfoldable pub record_attempt : Config → ℕ → BruteforceEntry → BruteforceEntry × Bool
unfolding prune
record_attempt c now entry =
    let attempts = prune c.window now entry.attempts ++ now ∷ [] in
    if leb c.threshold (length attempts) && ltb entry.suppressed_until now
    then (record { attempts = attempts; suppressed_until = now + c.suppression }, true)
    else (record entry { attempts = attempts }, false)

abbrev pub or_new : Option BruteforceEntry → BruteforceEntry
or_new none = new_entry
or_new (some entry) = entry

pub entry_of : BruteforceKey → Collector → BruteforceEntry
entry_of key s = or_new (lookup key s.bf_tracker)

-- `checkBruteforce`.
unfoldable pub check_bruteforce :
    Config → Bytes → Bytes → Bytes → ℕ → Collector → Collector × Option Event
unfolding record_attempt bruteforce_event entry_of lookup insert
check_bruteforce c id user remote_ip now s =
    let key : BruteforceKey = (remote_ip, user) in
    let (entry, alert) = record_attempt c now (entry_of key s) in
    if is_empty remote_ip then (s, none) else (
      record s { bf_tracker = insert key entry s.bf_tracker },
      if alert then some (bruteforce_event c id user remote_ip now) else none,
    )

-- The body of the loop of `gcBruteforceTracker`; `none` deletes the entry.
unfoldable pub gc_entry : Config → ℕ → BruteforceEntry → Option BruteforceEntry
unfolding prune
gc_entry c now entry =
    let attempts = prune c.window now entry.attempts in
    elim attempts [
      | [] ↦ if ltb entry.suppressed_until now then none else some (record entry { attempts = [] })
      | t ∷ ts ↦ some (record entry { attempts = t ∷ ts })
    ]

-- `gcBruteforceTracker`.
unfoldable pub gc_bruteforce_tracker : Config → ℕ → Collector → Collector
unfolding gc_entry filter_map_values
gc_bruteforce_tracker c now s = record s {
  bf_tracker = filter_map_values (gc_entry c now) s.bf_tracker;
}
