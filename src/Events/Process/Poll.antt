-- ===== src/Events/Process/Poll.antt =====
-- internal/events/process/collector.go: poll. The entries of a map are visited in the order of the
-- list; Go leaves the order open.
use yomins_agent.Go.Text.{Bytes}
use yomins_agent.Events.Types.{Event, EventType}
use yomins_agent.Procfs.{Sample}
use yomins_agent.Events.Process.{Config, Floats, Reading}
use yomins_agent.Events.Process.Snapshot.{ProcessSnapshot, push_metrics, ready_for_anomaly}
use yomins_agent.Events.Process.Make.{
  make_start_event, make_stop_event, make_suspicious_event, make_cpu_event, make_mem_event,
  make_exec_tmp_event, make_reverse_shell_event,
}
use yomins_agent.Events.Process.Start.{
  Procs, Collector, any_match, is_exec_from_tmp, snapshot_process, index_samples,
}
use yomins_agent.Prelude.Int.{ℤ}
use yomins_agent.Prelude.Map.{lookup, insert, int_eq}
use yomins_agent.Prelude.{
  ℕ, ◌-◌, ◌^◌, Bool, true, false, ◌&&◌, ◌||◌, Option, none, some, List, [], ◌∷◌, ◌++◌, ltb, leb,
  ◌==◌, if◌then◌else◌, min,
}

-- Whether the pid still belongs to the process of the snapshot.
unfoldable pub still_alive : Option Sample → ProcessSnapshot → Bool
still_alive none snap = false
still_alive (some p) snap = p.start == snap.start

-- `now.Sub(last)`, which stops at the largest duration.
abbrev pub time_since : ℕ → ℕ → ℕ
time_since now last = min (now - last) (2 ^ 63 - 1)

module _ (id : EventType → ℤ → Bytes) where
  -- `newProcessEvents`.
  unfoldable pub new_process_events : Collector → ProcessSnapshot → ℕ → List Event
  new_process_events c snap now =
      (if c.cfg.monitor_lifecycle then make_start_event c.cfg id snap now ∷ [] else [])
      ++ ((if c.cfg.monitor_tmp_paths && is_exec_from_tmp snap.exe
            then make_exec_tmp_event c.cfg id snap now ∷ []
            else [])
          ++ (if any_match c.reverse_shells snap.cmdline
              then make_reverse_shell_event c.cfg id snap now ∷ []
              else if any_match c.patterns snap.cmdline
              then make_suspicious_event c.cfg id snap now ∷ []
              else []))

  unfoldable pub stop_events : Config → ℕ → ProcessSnapshot → List Event
  stop_events c now snap =
      if snap.is_new && c.monitor_lifecycle then make_stop_event c id snap now ∷ [] else []

  -- The loop over the known processes: those that are kept, and the events of the others.
  unfoldable pub sweep : Config → ℕ → List (ℤ × Sample) → Procs → Procs × List Event
  sweep c now current [] = ([], [])
  sweep c now current ((pid, snap) ∷ procs) =
      let (kept, evs) = sweep c now current procs in
      if still_alive (lookup pid current) snap
      then ((pid, snap) ∷ kept, evs)
      else (kept, stop_events c now snap ++ evs)

  -- The alert on a CPU reading `cpu` with the average `avg`.
  unfoldable pub check_cpu :
      Floats → Config → ℕ → ℕ → ℕ → ProcessSnapshot → ProcessSnapshot × List Event
  check_cpu fl c now cpu avg snap =
      if fl.gt64 cpu c.cpu_alert_threshold
        && ((fl.eq64 avg 0 || fl.gt64 cpu (fl.mul64 c.cpu_alert_multiplier avg))
            && ltb c.alert_cooldown (time_since now snap.last_cpu_alert_at))
      then (record snap { last_cpu_alert_at = now }, make_cpu_event c id snap cpu now ∷ [])
      else (snap, [])

  -- The alert on a memory reading.
  unfoldable pub check_mem :
      Floats → Config → ℕ → ℕ → ℕ → ProcessSnapshot → ProcessSnapshot × List Event
  check_mem fl c now mem avg snap =
      if fl.gt32 mem c.mem_alert_threshold
        && ((fl.eq32 avg 0 || fl.gt32 mem (fl.mul32 c.mem_alert_multiplier avg))
            && ltb c.alert_cooldown (time_since now snap.last_mem_alert_at))
      then (record snap { last_mem_alert_at = now }, make_mem_event c id snap mem now ∷ [])
      else (snap, [])

  abbrev pub both :
      ProcessSnapshot × List Event
      → (ProcessSnapshot → ProcessSnapshot × List Event)
      → ProcessSnapshot × List Event
  both (snap, evs) next = let (snap', more) = next snap in (snap', evs ++ more)

  -- What follows the two readings of a surviving process.
  unfoldable pub check_readings :
      Floats → Config → ℕ → ℕ → ℕ → ProcessSnapshot × ℕ × ℕ → ProcessSnapshot × List Event
  check_readings fl c now cpu mem (snap, cpu_avg, mem_avg) =
      if ready_for_anomaly snap
      then both (check_cpu fl c now cpu cpu_avg snap) (check_mem fl c now mem mem_avg)
      else (snap, [])

-- The share of one core that was used since the last poll, in percent.
unfoldable pub cpu_percent : Floats → Reading → ℕ → Sample → ProcessSnapshot → ℕ
cpu_percent fl r now p snap =
    let elapsed = fl.seconds (now - snap.sampled_at) in
    if fl.gt64 elapsed 0 && leb snap.cpu_ticks p.cpu
    then fl.mul64 (fl.div64 (fl.div64 (fl.of_uint (p.cpu - snap.cpu_ticks)) r.clock_ticks) elapsed)
        (fl.of_uint 100)
    else 0

-- The share of the memory, in percent.
unfoldable pub mem_percent : Floats → Reading → Sample → ℕ
mem_percent fl r p =
    if ltb 0 r.mem_total
    then fl.to_float32
        (fl.mul64 (fl.div64 (fl.of_uint p.rss) (fl.of_uint r.mem_total)) (fl.of_uint 100))
    else 0

module _ (id : EventType → ℤ → Bytes) (fl : Floats) (r : Reading) (now : ℕ) where
  -- A process that is known and survives.
  unfoldable pub survive : Config → Sample → ProcessSnapshot → ProcessSnapshot × List Event
  survive c p snap =
      let cpu = cpu_percent fl r now p snap in
      let mem = mem_percent fl r p in
      check_readings id fl c now cpu mem
        (push_metrics fl (record snap { cpu_ticks = p.cpu; sampled_at = now }) cpu mem)

  abbrev pub store : ℤ → ProcessSnapshot × List Event → Procs → Procs × List Event
  store pid (snap, evs) procs = (insert pid snap procs, evs)

  unfoldable pub visit_known :
      Collector → Sample → Option ProcessSnapshot → Procs → Procs × List Event
  visit_known c p none procs =
      let snap = snapshot_process r.details p true now in
      (insert p.pid snap procs, new_process_events id c snap now)
  visit_known c p (some snap) procs = store p.pid (survive c.cfg p snap) procs

  -- The loop over the processes.
  unfoldable pub visit : Collector → List Sample → Procs → Procs × List Event
  visit c [] procs = (procs, [])
  visit c (p ∷ ps) procs =
      let (procs', evs) = visit_known c p (lookup p.pid procs) procs in
      let (procs'', more) = visit c ps procs' in (procs'', evs ++ more)

  -- `poll` past the listing of the processes.
  unfoldable pub poll_reading : Collector → Collector × List Event
  poll_reading c =
      let (kept, stops) = sweep id c.cfg now (index_samples r.samples []) c.procs in
      let (procs, evs) = visit c r.samples kept in (record c { procs = procs }, stops ++ evs)

-- `poll`; `none` says that the processes cannot be listed.
unfoldable pub poll :
    (EventType → ℤ → Bytes) → Floats → Option Reading → ℕ → Collector → Collector × List Event
poll id fl none now c = (c, [])
poll id fl (some r) now c = poll_reading id fl r now c
