-- ===== src/Events/Process/Cooldown.antt =====
-- The cooldown of the alerts on high use, over the life of one process.
use yomins_agent.Go.Text.{Bytes}
use yomins_agent.Events.Types.{Event, EventType}
use yomins_agent.Procfs.{Sample}
use yomins_agent.Events.Process.{Config, Floats, Reading}
use yomins_agent.Events.Process.Snapshot.{ProcessSnapshot, push_metrics, advance, ready_for_anomaly}
use yomins_agent.Events.Process.Make.{make_cpu_event, make_mem_event}
use yomins_agent.Events.Process.Poll.{check_cpu, check_mem, check_readings, survive}
use yomins_agent.Prelude.Int.{ℤ}
use yomins_agent.Prelude.{
  ℕ, ◌+◌, ◌<◌, Bool, true, false, List, [], ◌∷◌, ◌++◌, if◌then◌else◌, ◌≡◌, refl, ap, ◌∙◌, arith,
}

unfoldable pub is_high_cpu : EventType → Bool
is_high_cpu EventType.process_high_cpu = true
is_high_cpu _ = false

unfoldable pub is_high_memory : EventType → Bool
is_high_memory EventType.process_high_memory = true
is_high_memory _ = false

-- The time of the last event of a type, where `last` is the one before.
abbrev pub last_of : (EventType → Bool) → ℕ → List Event → ℕ
last_of test last [] = last
last_of test last (ev ∷ evs) = last_of test (if test ev.type then ev.timestamp else last) evs

-- Each event of the type comes more than `cooldown` after the one before it.
abbrev pub Spaced : (EventType → Bool) → ℕ → ℕ → List Event → Type 0
Spaced test cooldown last [] = Unit
Spaced test cooldown last (ev ∷ evs) =
    (test ev.type ≡ true → last + cooldown < ev.timestamp)
    × Spaced test cooldown (if test ev.type then ev.timestamp else last) evs

last_of-append :
    (test : EventType → Bool) (last : ℕ) (xs ys : List Event)
    → last_of test last (xs ++ ys) ≡ last_of test (last_of test last xs) ys
last_of-append test last [] ys = refl
last_of-append test last (x ∷ xs) ys =
    last_of-append test (if test x.type then x.timestamp else last) xs ys

Spaced-append :
    (test : EventType → Bool) (cooldown last : ℕ) (xs ys : List Event)
    → Spaced test cooldown last xs
    → Spaced test cooldown (last_of test last xs) ys
    → Spaced test cooldown last (xs ++ ys)
Spaced-append test cooldown last [] ys h k = k
Spaced-append test cooldown last (x ∷ xs) ys (h, hs) k =
    (h, Spaced-append test cooldown (if test x.type then x.timestamp else last) xs ys hs k)

-- The events of a step are spaced, and its state has the time of the last.
abbrev Keeps : (EventType → Bool) → ℕ → ℕ → ℕ → List Event → Type 0
Keeps test cooldown last last' evs = Spaced test cooldown last evs × (last_of test last evs ≡ last')

Keeps-append :
    (test : EventType → Bool) (cooldown a b c : ℕ) (xs ys : List Event)
    → Keeps test cooldown a b xs
    → Keeps test cooldown b c ys
    → Keeps test cooldown a c (xs ++ ys)
Keeps-append test cooldown a b c xs ys (h, e) (k, f) = (
  Spaced-append test cooldown a xs ys h (rw e k),
  last_of-append test a xs ys ∙ ap (λ last. last_of test last ys) e ∙ f,
)

module _ (id : EventType → ℤ → Bytes) (fl : Floats) (c : Config) (now : ℕ) where
  check_cpu-cpu :
      (cpu avg : ℕ) (s : ProcessSnapshot)
      → Keeps is_high_cpu c.alert_cooldown s.last_cpu_alert_at
          (check_cpu id fl c now cpu avg s).0.last_cpu_alert_at
          (check_cpu id fl c now cpu avg s).1
  unfolding check_cpu make_cpu_event is_high_cpu
  check_cpu-cpu cpu avg s = ground arith

  check_cpu-mem :
      (cpu avg : ℕ) (s : ProcessSnapshot)
      → Keeps is_high_memory c.alert_cooldown s.last_mem_alert_at
          (check_cpu id fl c now cpu avg s).0.last_mem_alert_at
          (check_cpu id fl c now cpu avg s).1
  unfolding check_cpu make_cpu_event is_high_memory
  check_cpu-mem cpu avg s = ground arith

  check_mem-cpu :
      (mem avg : ℕ) (s : ProcessSnapshot)
      → Keeps is_high_cpu c.alert_cooldown s.last_cpu_alert_at
          (check_mem id fl c now mem avg s).0.last_cpu_alert_at
          (check_mem id fl c now mem avg s).1
  unfolding check_mem make_mem_event is_high_cpu
  check_mem-cpu mem avg s = ground arith

  check_mem-mem :
      (mem avg : ℕ) (s : ProcessSnapshot)
      → Keeps is_high_memory c.alert_cooldown s.last_mem_alert_at
          (check_mem id fl c now mem avg s).0.last_mem_alert_at
          (check_mem id fl c now mem avg s).1
  unfolding check_mem make_mem_event is_high_memory
  check_mem-mem mem avg s = ground arith

  -- Both alerts keep both times.
  abbrev KeepsBoth : ProcessSnapshot → ProcessSnapshot × List Event → Type 0
  KeepsBoth s (s', evs) =
      Keeps is_high_cpu c.alert_cooldown s.last_cpu_alert_at s'.last_cpu_alert_at evs
      × Keeps is_high_memory c.alert_cooldown s.last_mem_alert_at s'.last_mem_alert_at evs

  keeps-if :
      (b : Bool) (s : ProcessSnapshot) (r : ProcessSnapshot × List Event)
      → KeepsBoth s r
      → KeepsBoth s (if b then r else (s, []))
  keeps-if true s r h = h
  keeps-if false s r h = ((tt, refl), (tt, refl))

  check_readings-keeps :
      (cpu mem : ℕ) (m : ProcessSnapshot × ℕ × ℕ)
      → KeepsBoth m.0 (check_readings id fl c now cpu mem m)
  unfolding check_readings
  check_readings-keeps cpu mem (s, cpu_avg, mem_avg) =
      let first = check_cpu id fl c now cpu cpu_avg s in
      let second = check_mem id fl c now mem mem_avg first.0 in
      keeps-if (ready_for_anomaly s) s (second.0, first.1 ++ second.1)
        (
          Keeps-append is_high_cpu c.alert_cooldown s.last_cpu_alert_at first.0.last_cpu_alert_at
              second.0.last_cpu_alert_at first.1 second.1 (check_cpu-cpu cpu cpu_avg s)
              (check_mem-cpu mem mem_avg first.0),
          Keeps-append is_high_memory c.alert_cooldown s.last_mem_alert_at first.0.last_mem_alert_at
              second.0.last_mem_alert_at first.1 second.1 (check_cpu-mem cpu cpu_avg s)
              (check_mem-mem mem mem_avg first.0),
        )

  survive-keeps :
      (r : Reading) (p : Sample) (s : ProcessSnapshot) → KeepsBoth s (survive id fl r now c p s)
  unfolding survive push_metrics advance
  survive-keeps r p s = check_readings-keeps _ _ _

-- The polls that a process survives, each with its reading, its time and the sample.
unfoldable pub life :
    (EventType → ℤ → Bytes)
    → Floats
    → Config
    → List (Reading × ℕ × Sample)
    → ProcessSnapshot
    → ProcessSnapshot × List Event
life id fl c [] s = (s, [])
life id fl c ((r, now, p) ∷ more) s =
    let (s', evs) = survive id fl r now c p s in
    let (s'', rest) = life id fl c more s' in (s'', evs ++ rest)

life-keeps :
    (id : EventType → ℤ → Bytes) (fl : Floats) (c : Config) (rs : List (Reading × ℕ × Sample))
    (s : ProcessSnapshot)
    → KeepsBoth id fl c 0 s (life id fl c rs s)
unfolding life
life-keeps id fl c [] s = ((tt, refl), (tt, refl))
life-keeps id fl c ((r, now, p) ∷ more) s =
    let first = survive id fl r now c p s in
    let rest = life id fl c more first.0 in
    let (cpu, mem) = survive-keeps id fl c now r p s in
    let (cpu', mem') = life-keeps id fl c more first.0 in
    (
      Keeps-append is_high_cpu c.alert_cooldown s.last_cpu_alert_at first.0.last_cpu_alert_at
          rest.0.last_cpu_alert_at first.1 rest.1 cpu cpu',
      Keeps-append is_high_memory c.alert_cooldown s.last_mem_alert_at first.0.last_mem_alert_at
          rest.0.last_mem_alert_at first.1 rest.1 mem mem',
    )

-- Over any polls that a process survives, whatever the readings and the times, each alert on high
-- CPU comes more than the cooldown after the one before it, and so does each alert on high memory;
-- the first one counts from the time that the snapshot holds.
pub life-Spaced :
    (id : EventType → ℤ → Bytes) (fl : Floats) (c : Config) (rs : List (Reading × ℕ × Sample))
    (s : ProcessSnapshot)
    → Spaced is_high_cpu c.alert_cooldown s.last_cpu_alert_at (life id fl c rs s).1
      × Spaced is_high_memory c.alert_cooldown s.last_mem_alert_at (life id fl c rs s).1
life-Spaced id fl c rs s = let keeps = life-keeps id fl c rs s in (keeps.0.0, keeps.1.0)
