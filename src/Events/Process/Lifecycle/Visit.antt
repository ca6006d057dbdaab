-- ===== src/Events/Process/Lifecycle/Visit.antt =====
-- The second loop of poll: what becomes known, and the start events that it gives.
use yomins_agent.Events.Types.{EventType}
use yomins_agent.Go.Text.{Bytes}
use yomins_agent.Procfs.{Sample}
use yomins_agent.Events.Process.{Floats, Reading}
use yomins_agent.Events.Process.Snapshot.{ProcessSnapshot}
use yomins_agent.Events.Process.Start.{Procs, Collector, snapshot_process}
use yomins_agent.Events.Process.Poll.{survive, visit_known, visit}
use yomins_agent.Events.Process.Lifecycle.Live.{
  Keyed, live, insert-Keyed, lookup-Keyed, started, survived,
}
use yomins_agent.Events.Process.Lifecycle.Counts.{
  is_start, is_stop, count_of, count_of-nil, count_of-append, no_start_cpu, no_start_mem,
  no_stop_cpu, no_stop_mem, new_process_events-start, new_process_events-stop, survive-quiet,
  survive-Same,
}
use yomins_agent.Prelude.Int.{ℤ}
use yomins_agent.Prelude.Map.{lookup, insert-Unique, Unique, int_eq}
use yomins_agent.Prelude.{ℕ, ◌+◌, true, Option, none, some, List, [], ◌∷◌, ◌≡◌, refl, ◌∙◌, arith}

module _ (id : EventType → ℤ → Bytes) (k : ℤ) where
  module _ (fl : Floats) (r : Reading) (now : ℕ) (c : Collector) where
    visit_known-Unique :
        (p : Sample) (o : Option ProcessSnapshot) (procs : Procs)
        → Unique procs
        → Unique (visit_known id fl r now c p o procs).0
    unfolding visit_known
    visit_known-Unique p none procs u = insert-Unique p.pid _ procs u
    visit_known-Unique p (some s) procs u = insert-Unique p.pid _ procs u

    visit_known-Keyed :
        (p : Sample) (o : Option ProcessSnapshot) (procs : Procs)
        → lookup p.pid procs ≡ o
        → Keyed procs
        → Keyed (visit_known id fl r now c p o procs).0
    unfolding visit_known snapshot_process
    visit_known-Keyed p none procs e h = insert-Keyed p.pid _ procs refl h
    visit_known-Keyed p (some s) procs e h =
        insert-Keyed p.pid _ procs
          ((survive-Same id k fl r now c.cfg p s).0 ∙ lookup-Keyed p.pid s procs h e) h

    visit_known-stop :
        (p : Sample) (o : Option ProcessSnapshot) (procs : Procs)
        → count_of is_stop k (visit_known id fl r now c p o procs).1 ≡ 0
    unfolding visit_known
    visit_known-stop p none procs =
        new_process_events-stop id k c (snapshot_process r.details p true now) now
    visit_known-stop p (some s) procs =
        survive-quiet id k is_stop no_stop_cpu no_stop_mem fl r now c.cfg p s

    visit_known-start :
        (p : Sample) (o : Option ProcessSnapshot) (procs : Procs)
        → c.cfg.monitor_lifecycle ≡ true
        → lookup p.pid procs ≡ o
        → count_of is_start k (visit_known id fl r now c p o procs).1 + live k procs
          ≡ live k (visit_known id fl r now c p o procs).0
    unfolding visit_known snapshot_process
    visit_known-start p none procs on e =
        started k p.pid (snapshot_process r.details p true now) procs _ refl
          (new_process_events-start id k c (snapshot_process r.details p true now) now on) e
    visit_known-start p (some s) procs on e =
        survived k p.pid s (survive id fl r now c.cfg p s).0 procs _
          (survive-quiet id k is_start no_start_cpu no_start_mem fl r now c.cfg p s)
          (survive-Same id k fl r now c.cfg p s).1 e

    pub visit-Unique :
        (ps : List Sample) (procs : Procs) → Unique procs → Unique (visit id fl r now c ps procs).0
    unfolding visit
    visit-Unique [] procs u = u
    visit-Unique (p ∷ ps) procs u =
        visit-Unique ps _ (visit_known-Unique p (lookup p.pid procs) procs u)

    pub visit-Keyed :
        (ps : List Sample) (procs : Procs) → Keyed procs → Keyed (visit id fl r now c ps procs).0
    unfolding visit
    visit-Keyed [] procs h = h
    visit-Keyed (p ∷ ps) procs h =
        visit-Keyed ps _ (visit_known-Keyed p (lookup p.pid procs) procs refl h)

    pub visit-stop :
        (ps : List Sample) (procs : Procs) → count_of is_stop k (visit id fl r now c ps procs).1 ≡ 0
    unfolding visit
    visit-stop [] procs = count_of-nil is_stop k
    visit-stop (p ∷ ps) procs =
        let first = visit_known id fl r now c p (lookup p.pid procs) procs in
        count_of-append is_stop k first.1 (visit id fl r now c ps first.0).1
        ∙ omega (arith, visit_known-stop p (lookup p.pid procs) procs, visit-stop ps first.0)

    pub visit-start :
        (ps : List Sample) (procs : Procs)
        → c.cfg.monitor_lifecycle ≡ true
        → count_of is_start k (visit id fl r now c ps procs).1 + live k procs
          ≡ live k (visit id fl r now c ps procs).0
    unfolding visit
    visit-start [] procs on = omega (arith, count_of-nil is_start k)
    visit-start (p ∷ ps) procs on =
        let first = visit_known id fl r now c p (lookup p.pid procs) procs in
        omega (
          arith,
          count_of-append is_start k first.1 (visit id fl r now c ps first.0).1,
          visit_known-start p (lookup p.pid procs) procs on refl,
          visit-start ps first.0 on,
        )
