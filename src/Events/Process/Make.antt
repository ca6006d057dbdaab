-- ===== src/Events/Process/Make.antt =====
-- internal/events/process/collector.go: the constructors of its events.
use yomins_agent.Go.Text.{Bytes, codes}
use yomins_agent.Events.Types.{
  Event, EventType, Category, Severity, Confidence, ProcessDetail, no_context, no_process,
  blank_event,
}
use yomins_agent.Events.Process.{Config}
use yomins_agent.Events.Process.Snapshot.{ProcessSnapshot}
use yomins_agent.Prelude.Int.{ℤ}
use yomins_agent.Prelude.{ℕ, some, List, [], ◌∷◌}

-- The process of all events but those of high use.
unfoldable pub detail : ProcessSnapshot → ProcessDetail
detail s = record no_process {
  name = s.name;
  pid = s.pid;
  ppid = s.ppid;
  cmdline = s.cmdline;
  exe = s.exe;
}

abbrev process_tags : Bytes → List Bytes
process_tags tag = codes "process" ∷ tag ∷ []

-- `id` gives the id of the event of a type about a process.
module _ (c : Config) (id : EventType → ℤ → Bytes) (s : ProcessSnapshot) where
  abbrev blank : ℕ → EventType → Category → Severity → Event
  blank now type category severity =
      blank_event c.host c.agent (id type s.pid) now type category severity

  -- `makeStartEvent`.
  unfoldable pub make_start_event : ℕ → Event
  unfolding detail
  make_start_event now =
      record (blank now EventType.process_start Category.system_check Severity.info) {
        process = some (detail s);
        tags = process_tags (codes "start");
      }

  -- `makeStopEvent`.
  unfoldable pub make_stop_event : ℕ → Event
  unfolding detail
  make_stop_event now =
      record (blank now EventType.process_stop Category.system_check Severity.info) {
        process = some (detail s);
        tags = process_tags (codes "stop");
      }

  -- `makeSuspiciousEvent`.
  unfoldable pub make_suspicious_event : ℕ → Event
  unfolding detail
  make_suspicious_event now =
      record (blank now EventType.process_suspicious Category.threat_activity Severity.critical) {
        process = some (detail s);
        tags = process_tags (codes "suspicious");
      }

  -- `makeCPUEvent`.
  unfoldable pub make_cpu_event : ℕ → ℕ → Event
  make_cpu_event current now =
      record (blank now EventType.process_high_cpu Category.system_check Severity.warning) {
        process = some (record no_process {
          name = s.name;
          pid = s.pid;
          cmdline = s.cmdline;
          cpu_percent = current;
        });
        context = some (record no_context { reason = codes "cpu_spike" });
        tags = process_tags (codes "high_cpu");
      }

  -- `makeMemEvent`.
  unfoldable pub make_mem_event : ℕ → ℕ → Event
  make_mem_event current now =
      record (blank now EventType.process_high_memory Category.system_check Severity.warning) {
        process = some (record no_process {
          name = s.name;
          pid = s.pid;
          cmdline = s.cmdline;
          memory_percent = current;
        });
        context = some (record no_context { reason = codes "memory_spike" });
        tags = process_tags (codes "high_memory");
      }

  -- `makeExecTmpEvent`.
  unfoldable pub make_exec_tmp_event : ℕ → Event
  unfolding detail
  make_exec_tmp_event now =
      record (blank now EventType.process_exec_tmp Category.threat_activity Severity.warning) {
        confidence = Confidence.medium;
        process = some (detail s);
        tags = process_tags (codes "exec_tmp");
      }

  -- `makeReverseShellEvent`.
  unfoldable pub make_reverse_shell_event : ℕ → Event
  unfolding detail
  make_reverse_shell_event now =
      record (blank now EventType.process_reverse_shell Category.threat_activity
        Severity.critical) {
          confidence = Confidence.high;
          process = some (detail s);
          tags = process_tags (codes "reverse_shell");
        }
