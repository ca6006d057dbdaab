-- ===== src/Events/Process/Lifecycle.antt =====
-- The start and stop events of poll over the whole life of the collector, pid by pid.
pub mod Counts
pub mod Live
pub mod Sweep
pub mod Visit
use yomins_agent.Events.Types.{Event, EventType}
use yomins_agent.Go.Text.{Bytes}
use yomins_agent.Procfs.{Sample}
use yomins_agent.Events.Process.{Config, Floats, Reading}
use yomins_agent.Events.Process.Snapshot.{ProcessSnapshot}
use yomins_agent.Events.Process.Start.{
  Procs, Collector, snapshot_process, index_samples, build_baseline,
}
use yomins_agent.Events.Process.Poll.{
  still_alive, stop_events, sweep, new_process_events, survive, store, visit_known, visit, poll,
  poll_reading,
}
use yomins_agent.Events.Process.Lifecycle.Live.{
  Keyed, live, live_of, insert-Keyed, lookup-Keyed, live-at, started, survived, baseline-Keyed,
  baseline-Unique, live-baseline, live-nil,
}
use yomins_agent.Events.Process.Lifecycle.Counts.{
  is_start, is_stop, count_of, count_of-nil, count_of-append, no_start_cpu, no_start_mem,
  no_stop_cpu, no_stop_mem, stop_events-stop, stop_events-start, new_process_events-start,
  new_process_events-stop, survive-quiet, survive-Same,
}
use yomins_agent.Prelude.Int.{ℤ, int_beq, int_beq_iff}
use yomins_agent.Prelude.Map.{lookup, insert, lookup-insert, insert-Unique, Unique, int_eq}
use yomins_agent.Prelude.{
  ℕ, ◌+◌, Bool, true, false, ◌&&◌, Option, none, some, List, [], ◌∷◌, ◌++◌, if◌then◌else◌, ◌≡◌,
  refl, ap, sym, ◌∙◌, arith,
}
use yomins_agent.Events.Process.Lifecycle.Sweep.{sweep-Unique, sweep-Keyed, sweep-start, sweep-stop}
use yomins_agent.Events.Process.Lifecycle.Visit.{visit-Unique, visit-Keyed, visit-start, visit-stop}

module _ (id : EventType → ℤ → Bytes) (k : ℤ) where
  module _ (fl : Floats) (r : Reading) (now : ℕ) (c : Collector) where
    poll-Unique : Unique c.procs → Unique (poll_reading id fl r now c).0.procs
    unfolding poll_reading
    poll-Unique u =
        visit-Unique id k fl r now c r.samples _
          (sweep-Unique id k c.cfg now (index_samples r.samples []) c.procs u)

    poll-Keyed : Keyed c.procs → Keyed (poll_reading id fl r now c).0.procs
    unfolding poll_reading
    poll-Keyed h =
        visit-Keyed id k fl r now c r.samples _
          (sweep-Keyed id k c.cfg now (index_samples r.samples []) c.procs h)

    -- What a poll adds to the start events, it adds to the stop events and the live processes.
    poll-balance :
        c.cfg.monitor_lifecycle ≡ true
        → Unique c.procs
        → Keyed c.procs
        → count_of is_start k (poll_reading id fl r now c).1 + live k c.procs
          ≡ count_of is_stop k (poll_reading id fl r now c).1
            + live k (poll_reading id fl r now c).0.procs
    unfolding poll_reading
    poll-balance on u h =
        let current = index_samples r.samples [] in
        let swept = sweep id c.cfg now current c.procs in
        let visited = visit id fl r now c r.samples swept.0 in
        omega (
          arith,
          count_of-append is_start k swept.1 visited.1,
          count_of-append is_stop k swept.1 visited.1,
          sweep-start id k c.cfg now current c.procs,
          sweep-stop id k c.cfg now current c.procs on u h,
          visit-stop id k fl r now c r.samples swept.0,
          visit-start id k fl r now c r.samples swept.0 on,
        )

poll-on :
    (id : EventType → ℤ → Bytes) (fl : Floats) (r : Reading) (now : ℕ) (c : Collector)
    → c.cfg.monitor_lifecycle ≡ true
    → (poll_reading id fl r now c).0.cfg.monitor_lifecycle ≡ true
unfolding poll_reading
poll-on id fl r now c on = on

-- Polls one after another, each with its reading and its time.
unfoldable pub polls :
    (EventType → ℤ → Bytes)
    → Floats
    → List (Option Reading × ℕ)
    → Collector
    → Collector × List Event
unfolding poll
polls id fl [] c = (c, [])
polls id fl ((r, now) ∷ more) c =
    let (c', evs) = poll id fl r now c in
    let (c'', rest) = polls id fl more c' in (c'', evs ++ rest)

polls-balance :
    (id : EventType → ℤ → Bytes) (k : ℤ) (fl : Floats) (history : List (Option Reading × ℕ))
    (c : Collector)
    → c.cfg.monitor_lifecycle ≡ true
    → Unique c.procs
    → Keyed c.procs
    → count_of is_start k (polls id fl history c).1 + live k c.procs
      ≡ count_of is_stop k (polls id fl history c).1 + live k (polls id fl history c).0.procs
unfolding polls
polls-balance id k fl [] c on u h = omega (arith, count_of-nil is_start k, count_of-nil is_stop k)
polls-balance id k fl ((none, now) ∷ more) c on u h = polls-balance id k fl more c on u h
polls-balance id k fl ((some r, now) ∷ more) c on u h =
    let first = poll_reading id fl r now c in
    let rest = polls id fl more first.0 in
    omega (
      arith,
      count_of-append is_start k first.1 rest.1,
      count_of-append is_stop k first.1 rest.1,
      poll-balance id k fl r now c on u h,
      polls-balance id k fl more first.0 (poll-on id fl r now c on) (poll-Unique id k fl r now c u)
          (poll-Keyed id k fl r now c h),
    )

-- With lifecycle events on, after the baseline and any polls, the start events about a pid are one
-- more than the stop events if a process that appeared since is known under the pid, and as many
-- otherwise.
pub start_events-stop_events :
    (id : EventType → ℤ → Bytes) (k : ℤ) (fl : Floats) (c : Collector) (details : ℤ → Bytes × Bytes)
    (at : ℕ) (first : List Sample) (history : List (Option Reading × ℕ))
    → c.cfg.monitor_lifecycle ≡ true
    → count_of is_start k
        (polls id fl history (record c { procs = build_baseline details at first [] })).1
      ≡ count_of is_stop k
          (polls id fl history (record c { procs = build_baseline details at first [] })).1
        + live k
            (polls id fl history (record c { procs = build_baseline details at first [] })).0.procs
start_events-stop_events id k fl c details at first history on = omega (
  arith,
  polls-balance id k fl history (record c { procs = build_baseline details at first [] }) on
      (baseline-Unique details at first [] tt) (baseline-Keyed details at first [] tt),
  live-baseline details at k first [] (live-nil k),
)
