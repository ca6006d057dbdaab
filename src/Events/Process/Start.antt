-- ===== src/Events/Process/Start.antt =====
-- internal/events/process/collector.go: the collector with its defaults, its tests of a command
-- line, and its baseline.
use yomins_agent.Go.Text.{Bytes, codes, has_prefix, is_empty}
use yomins_agent.Procfs.{Sample}
use yomins_agent.Events.Process.{Config, Floats}
use yomins_agent.Events.Process.Snapshot.{ProcessSnapshot, rolling_window_size}
use yomins_agent.Prelude.Int.{ℤ}
use yomins_agent.Prelude.Map.{insert, int_eq}
use yomins_agent.Prelude.{
  ℕ, Bool, false, ◌||◌, Option, none, some, List, [], ◌∷◌, ltb, ◌==◌, if◌then◌else◌, replicate,
}

-- `DefaultSuspiciousPatterns`, `DefaultReverseShellPatterns` and `defaultTmpPaths`.
unfoldable pub default_suspicious_patterns : List Bytes
default_suspicious_patterns =
    codes "curl.*\\|\\s*(ba)?sh"
    ∷ codes "wget.*\\|\\s*(ba)?sh"
    ∷ codes "\\bnc\\s+-[^-]*e"
    ∷ codes "base64.*-d.*\\|.*sh"
    ∷ codes "/dev/tcp/"
    ∷ codes "xmrig|minerd|cpuminer"
    ∷ codes "bash\\s+-i\\s+>&\\s+/dev/tcp"
    ∷ []

unfoldable pub default_reverse_shell_patterns : List Bytes
default_reverse_shell_patterns =
    codes "\\bnc\\s+-[^-]*e" ∷ codes "/dev/tcp/" ∷ codes "bash\\s+-i\\s+>&\\s+/dev/tcp" ∷ []

unfoldable pub default_tmp_paths : List Bytes
default_tmp_paths = codes "/tmp/" ∷ codes "/var/tmp/" ∷ codes "/dev/shm/" ∷ []

abbrev pub Procs : Type 0
Procs = List (ℤ × ProcessSnapshot)

-- `Collector`, less the source; a compiled pattern is its test of a command line.
pub record Collector : Type 0 where
  pub cfg : Config
  pub patterns : List (Bytes → Bool)
  pub reverse_shells : List (Bytes → Bool)
  pub procs : Procs

-- The patterns that compile.
unfoldable pub compile_all : (Bytes → Option (Bytes → Bool)) → List Bytes → List (Bytes → Bool)
compile_all compile [] = []
compile_all compile (p ∷ ps) =
    let rest = compile_all compile ps in elim (compile p) [ none ↦ rest | some re ↦ re ∷ rest ]

abbrev or_default : List Bytes → List Bytes
or_default [] = default_suspicious_patterns
or_default (p ∷ ps) = p ∷ ps

-- The defaults of `newCollectorWithSource`, for fields that are zero.
unfoldable pub with_defaults : Floats → Config → Config
with_defaults fl c = record c {
  poll_interval = if ltb 0 c.poll_interval then c.poll_interval else 2_000_000_000;
  cpu_alert_threshold =
      if fl.eq64 c.cpu_alert_threshold 0 then fl.of_uint 5 else c.cpu_alert_threshold;
  cpu_alert_multiplier =
      if fl.eq64 c.cpu_alert_multiplier 0 then fl.of_uint 3 else c.cpu_alert_multiplier;
  mem_alert_threshold =
      if fl.eq32 c.mem_alert_threshold 0 then fl.of_uint32 10 else c.mem_alert_threshold;
  mem_alert_multiplier =
      if fl.eq32 c.mem_alert_multiplier 0 then fl.of_uint32 3 else c.mem_alert_multiplier;
  alert_cooldown = if c.alert_cooldown == 0 then 60_000_000_000 else c.alert_cooldown;
}

-- `newCollectorWithSource`.
unfoldable pub new_collector : Floats → (Bytes → Option (Bytes → Bool)) → Config → Collector
unfolding with_defaults compile_all
new_collector fl compile c = record {
  cfg = with_defaults fl c;
  patterns = compile_all compile (or_default c.suspicious_patterns);
  reverse_shells = compile_all compile default_reverse_shell_patterns;
  procs = [];
}

-- The loop of `isSuspicious` and of `isReverseShell`.
unfoldable pub any_match : List (Bytes → Bool) → Bytes → Bool
any_match [] cmdline = false
any_match (re ∷ res) cmdline = re cmdline || any_match res cmdline

unfoldable pub under_any : List Bytes → Bytes → Bool
under_any [] exe = false
under_any (prefix ∷ prefixes) exe = has_prefix exe prefix || under_any prefixes exe

-- `isExecFromTmp`.
unfoldable pub is_exec_from_tmp : Bytes → Bool
unfolding under_any default_tmp_paths
is_exec_from_tmp exe = under_any default_tmp_paths exe

-- `snapshotProcess`.
unfoldable pub snapshot_process : (ℤ → Bytes × Bytes) → Sample → Bool → ℕ → ProcessSnapshot
snapshot_process details p is_new now = record {
  pid = p.pid;
  ppid = p.ppid;
  name = p.name;
  exe = (details p.pid).0;
  cmdline = if is_empty (details p.pid).1 then p.name else (details p.pid).1;
  is_new = is_new;
  start = p.start;
  cpu_ticks = p.cpu;
  sampled_at = now;
  cpu_history = replicate rolling_window_size 0;
  mem_history = replicate rolling_window_size 0;
  history_idx = 0;
  history_filled = 0;
  last_cpu_alert_at = 0;
  last_mem_alert_at = 0;
}

-- The loop of `buildBaseline`.
unfoldable pub build_baseline : (ℤ → Bytes × Bytes) → ℕ → List Sample → Procs → Procs
unfolding snapshot_process
build_baseline details now [] procs = procs
build_baseline details now (p ∷ ps) procs =
    build_baseline details now ps (insert p.pid (snapshot_process details p false now) procs)

-- The map `current`.
unfoldable pub index_samples : List Sample → List (ℤ × Sample) → List (ℤ × Sample)
index_samples [] current = current
index_samples (p ∷ ps) current = index_samples ps (insert p.pid p current)
