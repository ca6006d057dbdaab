-- ===== src/Tests/Process.antt =====
-- Runs of the process collector and of the samples, and the theorems about them at concrete inputs.
use yomins_agent.Go.Text.{Bytes, codes, has_prefix, is_empty}
use yomins_agent.Events.Types.{EventType}
use yomins_agent.Procfs.{Sample, mem_total}
use yomins_agent.Events.Process.{Config, Floats, Reading}
use yomins_agent.Events.Process.Snapshot.{ProcessSnapshot, push_metrics, advance, ready_for_anomaly}
use yomins_agent.Events.Process.Make.{make_start_event, make_stop_event}
use yomins_agent.Events.Process.Start.{
  Collector, snapshot_process, index_samples, build_baseline, any_match, is_exec_from_tmp,
}
use yomins_agent.Events.Process.Poll.{
  poll, poll_reading, sweep, visit, visit_known, still_alive, stop_events, new_process_events,
  survive, check_readings, check_cpu, check_mem, cpu_percent, mem_percent,
}
use yomins_agent.Events.Process.Lifecycle.{polls, start_events-stop_events}
use yomins_agent.Events.Process.Lifecycle.Counts.{count_of, is_start, is_stop}
use yomins_agent.Events.Process.Lifecycle.Live.{live}
use yomins_agent.Events.Process.Cooldown.{life, is_high_cpu, is_high_memory, Spaced, life-Spaced}
use yomins_agent.Prelude.Int.{int_beq, ℤ, pos}
use yomins_agent.Prelude.Map.{lookup, insert, int_eq}
use yomins_agent.Prelude.{
  Option, none, ℕ, ◌+◌, ◌*◌, ◌/◌, true, some, List, [], ◌∷◌, ltb, ◌==◌, ◌≡◌, refl,
}

-- Whole numbers for floats, and seconds for nanoseconds.
abbrev whole : Floats
whole = record {
  gt64 = λ a b. ltb b a;
  add64 = λ a b. a + b;
  mul64 = λ a b. a * b;
  div64 = λ a b. a / b;
  of_uint = λ n. n;
  eq64 = λ a b. a == b;
  gt32 = λ a b. ltb b a;
  add32 = λ a b. a + b;
  mul32 = λ a b. a * b;
  div32 = λ a b. a / b;
  of_uint32 = λ n. n;
  eq32 = λ a b. a == b;
  to_float32 = λ n. n;
  seconds = λ d. d / 1_000_000_000;
}

abbrev config : Config
config = record {
  poll_interval = 2_000_000_000;
  suspicious_patterns = [];
  cpu_alert_threshold = 5;
  cpu_alert_multiplier = 3;
  mem_alert_threshold = 10;
  mem_alert_multiplier = 3;
  alert_cooldown = 60_000_000_000;
  monitor_lifecycle = true;
  monitor_tmp_paths = true;
  host = record { hostname = codes "web-1"; ip = codes "10.0.0.7" };
  agent = record { name = codes "yomins-agent"; version = codes "1.0.0" };
}

abbrev collector : Collector
collector = record { cfg = config; patterns = []; reverse_shells = []; procs = [] }

abbrev sample : ℕ → ℕ → ℕ → Sample
sample pid start cpu = record {
  pid = pos pid;
  ppid = pos 1;
  name = codes "sh";
  state = b'S';
  start = start;
  cpu = cpu;
  rss = 4096;
}

abbrev no_details : ℤ → Bytes × Bytes
no_details pid = (codes "/usr/bin/sh", [])

abbrev reading : List Sample → Reading
reading ps = record { samples = ps; mem_total = 8192; clock_ticks = 100; details = no_details }

abbrev ids : EventType → ℤ → Bytes
ids type pid = codes "id"

-- Process 7 starts, is replaced under its pid, and is gone.
abbrev history : List (Option Reading × ℕ)
history =
    (some (reading (sample 1 5 0 ∷ sample 7 100 0 ∷ [])), 10)
    ∷ (some (reading (sample 1 5 0 ∷ sample 7 200 0 ∷ [])), 20)
    ∷ (none, 25)
    ∷ (some (reading (sample 1 5 0 ∷ [])), 30)
    ∷ []

start_events-stop_events_example :
    count_of is_start
      (pos 7)
      (polls ids whole history
        (record collector { procs = build_baseline no_details 3 (sample 1 5 0 ∷ []) [] })).1
    ≡ count_of is_stop
        (pos 7)
        (polls ids whole history
          (record collector { procs = build_baseline no_details 3 (sample 1 5 0 ∷ []) [] })).1
      + live
          (pos 7)
          (polls ids whole history (record collector {
            procs = build_baseline no_details 3 (sample 1 5 0 ∷ []) [];
          })).0.procs
start_events-stop_events_example =
    start_events-stop_events ids (pos 7) whole collector no_details 3 (sample 1 5 0 ∷ []) history
      refl

abbrev fresh : ProcessSnapshot
fresh = record {
  pid = pos 7;
  ppid = pos 1;
  name = codes "sh";
  exe = [];
  cmdline = codes "sh";
  is_new = true;
  start = 100;
  cpu_ticks = 0;
  sampled_at = 0;
  cpu_history = 0 ∷ 0 ∷ 0 ∷ 0 ∷ 0 ∷ [];
  mem_history = 0 ∷ 0 ∷ 0 ∷ 0 ∷ 0 ∷ [];
  history_idx = 0;
  history_filled = 0;
  last_cpu_alert_at = 0;
  last_mem_alert_at = 0;
}

abbrev busy : List (Reading × ℕ × Sample)
busy =
    (reading [], 2_000_000_000, sample 7 100 1)
    ∷ (reading [], 4_000_000_000, sample 7 100 2)
    ∷ (reading [], 1_000_000_000_000, sample 7 100 400_000)
    ∷ []

life-Spaced_example :
    Spaced is_high_cpu 60_000_000_000 0 (life ids whole config busy fresh).1
    × Spaced is_high_memory 60_000_000_000 0 (life ids whole config busy fresh).1
life-Spaced_example = life-Spaced ids whole config busy fresh

abbrev numbers : List ℕ
numbers =
    1 ∷ 1 ∷ 1 ∷ 0 ∷ 0 ∷ 0 ∷ 0 ∷ 0 ∷ 0 ∷ 0 ∷ 30 ∷ 12 ∷ 0 ∷ 0 ∷ 20 ∷ 0 ∷ 1 ∷ 0 ∷ 4_000 ∷ 0 ∷ 25 ∷ []

meminfo : mem_total (some (codes "MemTotal:       16 kB\nMemFree: 3 kB\n")) ≡ 16_384
unfolding mem_total
meminfo = refl

two_lives : count_of is_start (pos 7) (polls ids whole history collector).1 ≡ 2
unfolding polls poll poll_reading sweep visit visit_known still_alive stop_events new_process_events
    survive check_readings check_cpu check_mem cpu_percent mem_percent push_metrics advance
    ready_for_anomaly make_start_event make_stop_event count_of is_start snapshot_process
    index_samples lookup insert is_exec_from_tmp has_prefix is_empty any_match int_beq
two_lives = refl
