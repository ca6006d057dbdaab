-- ===== src/Events/Process/Snapshot.antt =====
-- internal/events/process/snapshot.go: what is kept of a process, with the last five readings.
use yomins_agent.Go.Text.{Bytes}
use yomins_agent.Events.Process.{Floats}
use yomins_agent.Prelude.Int.{ℤ}
use yomins_agent.Prelude.{ℕ, ◌+◌, ◌%◌, Bool, List, [], ◌∷◌, ltb, leb, if◌then◌else◌, set, take}

abbrev pub rolling_window_size : ℕ
rolling_window_size = 5

-- `ProcessSnapshot`; the histories have five places each, and a time of alert that is 0 is Go's
-- zero time.
pub record ProcessSnapshot : Type 0 where
  pub pid : ℤ
  pub ppid : ℤ
  pub name : Bytes
  pub exe : Bytes
  pub cmdline : Bytes
  pub is_new : Bool
  pub start : ℕ
  pub cpu_ticks : ℕ
  pub sampled_at : ℕ
  pub cpu_history : List ℕ
  pub mem_history : List ℕ
  pub history_idx : ℕ
  pub history_filled : ℕ
  pub last_cpu_alert_at : ℕ
  pub last_mem_alert_at : ℕ

-- `advance`.
unfoldable pub advance : ProcessSnapshot → ProcessSnapshot
advance s = record s {
  history_idx = (s.history_idx + 1) % rolling_window_size;
  history_filled =
      if ltb s.history_filled rolling_window_size then s.history_filled + 1 else s.history_filled;
}

-- The loop of an average over the readings.
unfoldable pub sum_from : (ℕ → ℕ → ℕ) → ℕ → List ℕ → ℕ
sum_from add sum [] = sum
sum_from add sum (v ∷ vs) = sum_from add (add sum v) vs

module _ (fl : Floats) where
  -- `cpuAvg`; the bit pattern of 0 is 0.
  unfoldable pub cpu_avg : ProcessSnapshot → ℕ
  unfolding sum_from
  cpu_avg s =
      if ltb 0 s.history_filled
      then fl.div64 (sum_from fl.add64 0 (take s.history_filled s.cpu_history))
          (fl.of_uint s.history_filled)
      else 0

  -- `memAvg`.
  unfoldable pub mem_avg : ProcessSnapshot → ℕ
  unfolding sum_from
  mem_avg s =
      if ltb 0 s.history_filled
      then fl.div32 (sum_from fl.add32 0 (take s.history_filled s.mem_history))
          (fl.of_uint32 s.history_filled)
      else 0

  -- `pushCPU`.
  unfoldable pub push_cpu : ProcessSnapshot → ℕ → ProcessSnapshot × ℕ
  unfolding advance cpu_avg
  push_cpu s v =
      let s' = advance (record s { cpu_history = set s.cpu_history s.history_idx v }) in
      (s', cpu_avg s')

  -- `pushMem`.
  unfoldable pub push_mem : ProcessSnapshot → ℕ → ProcessSnapshot × ℕ
  unfolding mem_avg
  push_mem s v =
      let s' : ProcessSnapshot = record s { mem_history = set s.mem_history s.history_idx v } in
      (s', mem_avg s')

-- The writes of `pushMetrics`.
unfoldable pub store_metrics : ProcessSnapshot → ℕ → ℕ → ProcessSnapshot
unfolding advance
store_metrics s cpu mem = advance (record s {
  cpu_history = set s.cpu_history s.history_idx cpu;
  mem_history = set s.mem_history s.history_idx mem;
})

-- `pushMetrics`: the snapshot, the average of the CPU readings and that of the memory readings.
unfoldable pub push_metrics : Floats → ProcessSnapshot → ℕ → ℕ → ProcessSnapshot × ℕ × ℕ
unfolding store_metrics cpu_avg mem_avg
push_metrics fl s cpu mem = let s' = store_metrics s cpu mem in (s', cpu_avg fl s', mem_avg fl s')

-- `readyForAnomaly`.
unfoldable pub ready_for_anomaly : ProcessSnapshot → Bool
ready_for_anomaly s = leb 3 s.history_filled
