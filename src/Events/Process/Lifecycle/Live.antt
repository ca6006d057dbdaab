-- ===== src/Events/Process/Lifecycle/Live.antt =====
-- The map of the known processes, and the processes in it that appeared after the start.
use yomins_agent.Procfs.{Sample}
use yomins_agent.Go.Text.{Bytes}
use yomins_agent.Events.Process.Snapshot.{ProcessSnapshot}
use yomins_agent.Events.Process.Start.{Procs, snapshot_process, build_baseline}
use yomins_agent.Prelude.Int.{ℤ, int_beq, int_beq_iff}
use yomins_agent.Prelude.Map.{lookup, insert, lookup-insert, insert-Unique, Unique, int_eq}
use yomins_agent.Prelude.{
  ℕ, ◌+◌, true, false, Option, none, some, List, [], ◌∷◌, if◌then◌else◌, ◌≡◌, refl, ap, arith,
}

-- A map of processes is keyed by their pids.
abbrev pub Keyed : Procs → Type 0
Keyed [] = Unit
Keyed ((pid, snap) ∷ procs) = (snap.pid ≡ pid) × Keyed procs

abbrev pub live_of : Option ProcessSnapshot → ℕ
live_of none = 0
live_of (some snap) = if snap.is_new then 1 else 0

-- 1 if a process that appeared after the start is known under the pid.
unfoldable pub live : ℤ → Procs → ℕ
live k procs = live_of (lookup k procs)

pub insert-Keyed :
    (pid : ℤ) (snap : ProcessSnapshot) (procs : Procs)
    → snap.pid ≡ pid
    → Keyed procs
    → Keyed (insert pid snap procs)
unfolding insert
insert-Keyed pid snap [] e h = (e, tt)
insert-Keyed pid snap ((j, s) ∷ procs) e (h, hs) = ground (arith, insert-Keyed pid snap procs e hs)

pub lookup-Keyed :
    (pid : ℤ) (snap : ProcessSnapshot) (procs : Procs)
    → Keyed procs
    → lookup pid procs ≡ some snap
    → snap.pid ≡ pid
unfolding lookup
lookup-Keyed pid snap [] h e = absurd (ground arith)
lookup-Keyed pid snap ((j, s) ∷ procs) (h, hs) e =
    ground (arith, int_beq_iff j pid, lookup-Keyed pid snap procs)

pub live-at : (k : ℤ) (procs : Procs) → live k procs ≡ live_of (lookup k procs)
unfolding live
live-at k procs = refl

pub live-nil : (k : ℤ) → live k [] ≡ 0
unfolding live lookup
live-nil k = refl

live-insert :
    (k pid : ℤ) (snap : ProcessSnapshot) (procs : Procs)
    → live k (insert pid snap procs) ≡ (if int_beq pid k then live_of (some snap) else live k procs)
unfolding live
live-insert k pid snap procs = ground (arith, lookup-insert pid k snap procs)

pub started :
    (k j : ℤ) (snap : ProcessSnapshot) (procs : Procs) (n : ℕ)
    → snap.is_new ≡ true
    → n ≡ (if int_beq j k then 1 else 0)
    → lookup j procs ≡ none
    → n + live k procs ≡ live k (insert j snap procs)
started k j snap procs n new e gone = ground (
  arith,
  live-insert k j snap procs,
  int_beq_iff j k,
  ap live_of gone,
  live-at j procs,
  live-at k procs,
)

pub survived :
    (k j : ℤ) (s s' : ProcessSnapshot) (procs : Procs) (n : ℕ)
    → n ≡ 0
    → s'.is_new ≡ s.is_new
    → lookup j procs ≡ some s
    → n + live k procs ≡ live k (insert j s' procs)
survived k j s s' procs n e same held =
    ground (arith, live-insert k j s' procs, int_beq_iff j k, live-at j procs, live-at k procs)

-- The processes of the baseline are not new.
module _ (details : ℤ → Bytes × Bytes) (now : ℕ) where
  pub baseline-Keyed :
      (ps : List Sample) (procs : Procs) → Keyed procs → Keyed (build_baseline details now ps procs)
  unfolding build_baseline snapshot_process
  baseline-Keyed [] procs h = h
  baseline-Keyed (p ∷ ps) procs h = baseline-Keyed ps _ (insert-Keyed p.pid _ procs refl h)

  pub baseline-Unique :
      (ps : List Sample) (procs : Procs)
      → Unique procs
      → Unique (build_baseline details now ps procs)
  unfolding build_baseline
  baseline-Unique [] procs u = u
  baseline-Unique (p ∷ ps) procs u = baseline-Unique ps _ (insert-Unique p.pid _ procs u)

  pub live-baseline :
      (k : ℤ) (ps : List Sample) (procs : Procs)
      → live k procs ≡ 0
      → live k (build_baseline details now ps procs) ≡ 0
  unfolding build_baseline snapshot_process
  live-baseline k [] procs e = e
  live-baseline k (p ∷ ps) procs e =
      live-baseline k ps _
        (ground (arith, live-insert k p.pid (snapshot_process details p false now) procs))
