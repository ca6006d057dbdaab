-- ===== src/Events/Process/Rolling.antt =====
-- The rolling windows of a snapshot: which readings the averages read.
use yomins_agent.Events.Process.Snapshot.{ProcessSnapshot, rolling_window_size, store_metrics}
use yomins_agent.Prelude.{ℕ, zero, suc, ◌+◌, ◌%◌, ◌≤◌, ◌<◌, ◌≡◌, some, length, get_elem?, min}

-- `n` readings, the one numbered `i` with the CPU share `cpu i` and the memory share `mem i`.
unfoldable pub pushes : (ℕ → ℕ) → (ℕ → ℕ) → ℕ → ProcessSnapshot → ProcessSnapshot
pushes cpu mem zero s = s
pushes cpu mem (suc n) s = store_metrics (pushes cpu mem n s) (cpu n) (mem n)

-- A snapshot as `snapshotProcess` makes it: five places and no reading.
pub record IsFresh (s : ProcessSnapshot) : Type 0 where
  pub cpu_places : length s.cpu_history ≡ rolling_window_size
  pub mem_places : length s.mem_history ≡ rolling_window_size
  pub index : s.history_idx ≡ 0
  pub filled : s.history_filled ≡ 0

-- What holds after `n` readings.
record IsWindow (cpu mem : ℕ → ℕ) (n : ℕ) (s : ProcessSnapshot) : Type 0 where
  cpu_places : length s.cpu_history ≡ rolling_window_size
  mem_places : length s.mem_history ≡ rolling_window_size
  index : s.history_idx ≡ n % 5
  filled : s.history_filled ≡ min n 5
  cpu_held : (i : ℕ) → i < n → n ≤ i + 5 → get_elem? s.cpu_history (i % 5) ≡ some (cpu i)
  mem_held : (i : ℕ) → i < n → n ≤ i + 5 → get_elem? s.mem_history (i % 5) ≡ some (mem i)
