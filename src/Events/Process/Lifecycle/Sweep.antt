-- ===== src/Events/Process/Lifecycle/Sweep.antt =====
-- The first loop of poll: what it keeps, and the stop events that it gives.
use yomins_agent.Events.Types.{EventType}
use yomins_agent.Go.Text.{Bytes}
use yomins_agent.Procfs.{Sample}
use yomins_agent.Events.Process.{Config}
use yomins_agent.Events.Process.Start.{Procs}
use yomins_agent.Events.Process.Poll.{stop_events, sweep}
use yomins_agent.Events.Process.Lifecycle.Live.{Keyed, live}
use yomins_agent.Events.Process.Lifecycle.Counts.{
  is_start, is_stop, count_of, count_of-nil, count_of-append, stop_events-stop, stop_events-start,
}
use yomins_agent.Prelude.Int.{ℤ, int_beq_iff}
use yomins_agent.Prelude.Map.{lookup, Unique, int_eq}
use yomins_agent.Prelude.{ℕ, ◌+◌, true, none, List, [], ◌∷◌, ◌≡◌, refl, arith}

module _ (id : EventType → ℤ → Bytes) (k : ℤ) where
  module _ (c : Config) (now : ℕ) (current : List (ℤ × Sample)) where
    pub sweep-absent :
        (j : ℤ) (procs : Procs)
        → lookup j procs ≡ none
        → lookup j (sweep id c now current procs).0 ≡ none
    unfolding sweep lookup
    sweep-absent j [] h = refl
    sweep-absent j ((pid, snap) ∷ procs) h = ground (arith, sweep-absent j procs)

    pub sweep-Keyed : (procs : Procs) → Keyed procs → Keyed (sweep id c now current procs).0
    unfolding sweep
    sweep-Keyed [] h = tt
    sweep-Keyed ((pid, snap) ∷ procs) (h, hs) = ground (arith, sweep-Keyed procs hs)

    pub sweep-Unique : (procs : Procs) → Unique procs → Unique (sweep id c now current procs).0
    unfolding sweep
    sweep-Unique [] h = tt
    sweep-Unique ((pid, snap) ∷ procs) (h, hs) =
        ground (arith, sweep-Unique procs hs, sweep-absent pid procs h)

    pub sweep-start : (procs : Procs) → count_of is_start k (sweep id c now current procs).1 ≡ 0
    unfolding sweep
    sweep-start [] = count_of-nil is_start k
    sweep-start ((pid, snap) ∷ procs) = ground (
      arith,
      sweep-start procs,
      stop_events-start id k c now snap,
      count_of-append is_start k (stop_events id c now snap) (sweep id c now current procs).1,
    )

    pub sweep-stop :
        (procs : Procs)
        → c.monitor_lifecycle ≡ true
        → Unique procs
        → Keyed procs
        → count_of is_stop k (sweep id c now current procs).1
            + live k (sweep id c now current procs).0
          ≡ live k procs
    unfolding sweep live lookup
    sweep-stop [] on u h = omega (arith, count_of-nil is_stop k)
    sweep-stop ((pid, snap) ∷ procs) on (fresh, u) (h, hs) = ground (
      arith,
      sweep-stop procs on u hs,
      stop_events-stop id k c now snap on,
      count_of-append is_stop k (stop_events id c now snap) (sweep id c now current procs).1,
      sweep-absent pid procs fresh,
      int_beq_iff pid k,
      int_beq_iff snap.pid k,
    )
