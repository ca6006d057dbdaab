-- ===== src/Events/System/Oom.antt =====
-- internal/events/system/kmsg.go and the loop of runOOMWatcher in collector.go. The regular
-- expression is a parameter, from a line to the four groups of its first match.
use yomins_agent.Go.Text.{Bytes, codes}
use yomins_agent.Events.Types.{
  Event, EventType, Category, Severity, no_context, no_process, blank_event,
}
use yomins_agent.Events.System.{Config}
use yomins_agent.Prelude.{ℕ, Option, none, some, List, [], ◌∷◌}

-- `oomKilledEvent`.
pub record OomKilledEvent : Type 0 where
  pub pid : Bytes
  pub process_name : Bytes
  pub total_vm_kb : Bytes
  pub anon_rss_kb : Bytes
  pub raw_line : Bytes

oom_event : Config → Bytes → ℕ → OomKilledEvent → Event
oom_event c id now parsed =
    record (blank_event c.host c.agent id now EventType.system_oom_killer Category.system_check
      Severity.warning) {
        process = some (record no_process { name = parsed.process_name });
        context = some (record no_context { reason = codes "oom_killed" });
        tags = codes "system" ∷ codes "oom" ∷ [];
      }

module _ (re_oom_killer : Bytes → Option (Bytes × Bytes × Bytes × Bytes)) where
  -- `parseOOMLine`.
  unfoldable pub parse_oom_line : Bytes → Option OomKilledEvent
  parse_oom_line line = elim (re_oom_killer line) [
    | none ↦ none
    | some (pid, name, vm, rss) ↦ some (record {
      pid = pid;
      process_name = name;
      total_vm_kb = vm;
      anon_rss_kb = rss;
      raw_line = line;
    })
  ]

  -- `parseOOM`.
  unfoldable pub parse_oom : Config → Bytes → ℕ → Bytes → Option Event
  unfolding parse_oom_line oom_event
  parse_oom c id now line = elim (parse_oom_line line) [
    | none ↦ none
    | some parsed ↦ some (oom_event c id now parsed)
  ]

  -- The loop of `runOOMWatcher` over the lines that come, each with an id and its time.
  unfoldable pub run_oom_watcher : Config → List (Bytes × ℕ × Bytes) → List Event
  unfolding parse_oom
  run_oom_watcher c [] = []
  run_oom_watcher c ((id, now, line) ∷ more) =
      let rest = run_oom_watcher c more in
      elim (parse_oom c id now line) [ none ↦ rest | some ev ↦ ev ∷ rest ]
