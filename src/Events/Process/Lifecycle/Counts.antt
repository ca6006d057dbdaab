-- ===== src/Events/Process/Lifecycle/Counts.antt =====
-- How many start and stop events about a pid each part of poll gives.
use yomins_agent.Go.Text.{Bytes}
use yomins_agent.Events.Types.{Event, EventType, ProcessDetail}
use yomins_agent.Procfs.{Sample}
use yomins_agent.Events.Process.{Config, Floats, Reading}
use yomins_agent.Events.Process.Snapshot.{ProcessSnapshot, push_metrics, advance, ready_for_anomaly}
use yomins_agent.Events.Process.Make.{
  make_start_event, make_stop_event, make_suspicious_event, make_cpu_event, make_mem_event,
  make_exec_tmp_event, make_reverse_shell_event,
}
use yomins_agent.Events.Process.Start.{Collector}
use yomins_agent.Events.Process.Poll.{
  stop_events, new_process_events, check_cpu, check_mem, check_readings, survive,
}
use yomins_agent.Prelude.Int.{ℤ, int_beq}
use yomins_agent.Prelude.{
  ℕ, ◌+◌, Bool, true, false, ◌&&◌, Option, none, some, List, [], ◌∷◌, ◌++◌, if◌then◌else◌, ◌≡◌,
  refl, ap₂, ◌∙◌, arith,
}

unfoldable pub is_start : EventType → Bool
is_start EventType.process_start = true
is_start _ = false

unfoldable pub is_stop : EventType → Bool
is_stop EventType.process_stop = true
is_stop _ = false

abbrev pub is_about : ℤ → Option ProcessDetail → Bool
is_about k none = false
is_about k (some d) = int_beq d.pid k

-- The events of a type about a pid.
unfoldable pub count_of : (EventType → Bool) → ℤ → List Event → ℕ
count_of test k [] = 0
count_of test k (ev ∷ evs) =
    (if test ev.type && is_about k ev.process then 1 else 0) + count_of test k evs

pub count_of-nil : (test : EventType → Bool) (k : ℤ) → count_of test k [] ≡ 0
unfolding count_of
count_of-nil test k = refl

pub no_start_cpu : is_start EventType.process_high_cpu ≡ false
unfolding is_start
no_start_cpu = refl

pub no_start_mem : is_start EventType.process_high_memory ≡ false
unfolding is_start
no_start_mem = refl

pub no_stop_cpu : is_stop EventType.process_high_cpu ≡ false
unfolding is_stop
no_stop_cpu = refl

pub no_stop_mem : is_stop EventType.process_high_memory ≡ false
unfolding is_stop
no_stop_mem = refl

pub count_of-append :
    (test : EventType → Bool) (k : ℤ) (xs ys : List Event)
    → count_of test k (xs ++ ys) ≡ count_of test k xs + count_of test k ys
unfolding count_of
count_of-append test k [] ys = omega arith
count_of-append test k (x ∷ xs) ys = omega (arith, count_of-append test k xs ys)

module _ (id : EventType → ℤ → Bytes) (k : ℤ) where
  pub stop_events-stop :
      (c : Config) (now : ℕ) (snap : ProcessSnapshot)
      → c.monitor_lifecycle ≡ true
      → count_of is_stop k (stop_events id c now snap)
        ≡ (if snap.is_new && int_beq snap.pid k then 1 else 0)
  unfolding stop_events make_stop_event count_of is_stop
  stop_events-stop c now snap h = ground arith

  pub stop_events-start :
      (c : Config) (now : ℕ) (snap : ProcessSnapshot)
      → count_of is_start k (stop_events id c now snap) ≡ 0
  unfolding stop_events make_stop_event count_of is_start
  stop_events-start c now snap = ground arith

  pub new_process_events-start :
      (c : Collector) (snap : ProcessSnapshot) (now : ℕ)
      → c.cfg.monitor_lifecycle ≡ true
      → count_of is_start k (new_process_events id c snap now)
        ≡ (if int_beq snap.pid k then 1 else 0)
  unfolding new_process_events make_start_event make_suspicious_event make_exec_tmp_event
      make_reverse_shell_event count_of is_start
  new_process_events-start c snap now h = ground arith

  pub new_process_events-stop :
      (c : Collector) (snap : ProcessSnapshot) (now : ℕ)
      → count_of is_stop k (new_process_events id c snap now) ≡ 0
  unfolding new_process_events make_start_event make_suspicious_event make_exec_tmp_event
      make_reverse_shell_event count_of is_stop
  new_process_events-stop c snap now = ground arith

  module _ (test : EventType → Bool) (no_cpu : test EventType.process_high_cpu ≡ false)
      (no_mem : test EventType.process_high_memory ≡ false) where
    check_cpu-quiet :
        (fl : Floats) (c : Config) (now cpu avg : ℕ) (s : ProcessSnapshot)
        → count_of test k (check_cpu id fl c now cpu avg s).1 ≡ 0
    unfolding check_cpu make_cpu_event count_of
    check_cpu-quiet fl c now cpu avg s = ground (arith, no_cpu)

    check_mem-quiet :
        (fl : Floats) (c : Config) (now mem avg : ℕ) (s : ProcessSnapshot)
        → count_of test k (check_mem id fl c now mem avg s).1 ≡ 0
    unfolding check_mem make_mem_event count_of
    check_mem-quiet fl c now mem avg s = ground (arith, no_mem)

    check_readings-quiet :
        (fl : Floats) (c : Config) (now cpu mem : ℕ) (m : ProcessSnapshot × ℕ × ℕ)
        → count_of test k (check_readings id fl c now cpu mem m).1 ≡ 0
    unfolding check_readings count_of
    check_readings-quiet fl c now cpu mem (s, cpu_avg, mem_avg) =
        let first = check_cpu id fl c now cpu cpu_avg s in
        let second = check_mem id fl c now mem mem_avg first.0 in
        by _ (ready_for_anomaly s) (
          count_of-append test k first.1 second.1
          ∙ ap₂ ◌+◌ (check_cpu-quiet fl c now cpu cpu_avg s)
              (check_mem-quiet fl c now mem mem_avg first.0))
      where
        by :
            (x : ProcessSnapshot × List Event) (b : Bool)
            → count_of test k x.1 ≡ 0 + 0
            → count_of test k (if b then x else (s, [])).1 ≡ 0
        by x true e = e
        by x false e = refl

    pub survive-quiet :
        (fl : Floats) (r : Reading) (now : ℕ) (c : Config) (p : Sample) (s : ProcessSnapshot)
        → count_of test k (survive id fl r now c p s).1 ≡ 0
    unfolding survive
    survive-quiet fl r now c p s = check_readings-quiet fl c now _ _ _

  -- A surviving process stays the same one.
  abbrev pub Same : ProcessSnapshot → ProcessSnapshot → Type 0
  Same s s' = (s'.pid ≡ s.pid) × (s'.is_new ≡ s.is_new)

  check_readings-Same :
      (fl : Floats) (c : Config) (now cpu mem : ℕ) (m : ProcessSnapshot × ℕ × ℕ)
      → Same m.0 (check_readings id fl c now cpu mem m).0
  unfolding check_readings check_cpu check_mem
  check_readings-Same fl c now cpu mem (s, cpu_avg, mem_avg) = ground arith

  pub survive-Same :
      (fl : Floats) (r : Reading) (now : ℕ) (c : Config) (p : Sample) (s : ProcessSnapshot)
      → Same s (survive id fl r now c p s).0
  unfolding survive push_metrics advance
  survive-Same fl r now c p s = check_readings-Same fl c now _ _ _
