-- ===== src/Tests/Agent.antt =====
-- Ticks of an agent whose first push fails, and the theorem about them.
use yomins_agent.Go.Text.{codes}
use yomins_agent.Metrics.Types.{MetricSet}
use yomins_agent.Metrics.Registry.{new_registry}
use yomins_agent.Metrics.SelfMetrics.{Floats, Build, new_self_metrics}
use yomins_agent.Agent.{Tick, new_agent, run}
use yomins_agent.Agent.Account.{Accounts, run-Accounts}
use yomins_agent.Prelude.{ℕ, zero, suc, Bool, true, false, none, [], ◌∷◌}

-- The state is the number of pushes that still fail.
abbrev fails_first : MetricSet → ℕ → ℕ × Bool
fails_first ms zero = (zero, true)
fails_first ms (suc n) = (n, false)

abbrev floats : Floats
floats = record { of_nat = λ n. n; seconds = λ n. n }

abbrev build : Build
build = record {
  version = codes "1.2.0";
  commit = codes "abc";
  build_date = [];
  go_version = codes "go1.24";
  os = codes "linux";
  arch = codes "amd64";
}

abbrev hangs : Tick
hangs = record {
  returned = [];
  gives = λ n. none;
  collect_duration = 20;
  push_duration = 3;
  now = 100;
  unix = 5;
}

run-Accounts_example :
    Accounts
      (codes "disk")
      true
      (run fails_first floats build (hangs ∷ hangs ∷ hangs ∷ []) (
        new_agent
          (codes "a-1")
          (codes "web")
          (codes "1.2.0")
          true
          (new_registry (codes "disk" ∷ []))
          1
          (new_self_metrics 0))).0
      (run fails_first floats build (hangs ∷ hangs ∷ hangs ∷ []) (
        new_agent
          (codes "a-1")
          (codes "web")
          (codes "1.2.0")
          true
          (new_registry (codes "disk" ∷ []))
          1
          (new_self_metrics 0))).1
run-Accounts_example =
    run-Accounts fails_first floats build (codes "disk") (hangs ∷ hangs ∷ hangs ∷ []) (codes "a-1")
      (codes "web") (codes "1.2.0") true (new_registry (codes "disk" ∷ [])) 1 0
