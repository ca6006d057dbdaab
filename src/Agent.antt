-- ===== src/Agent.antt =====
-- internal/agent/agent.go: one tick collects, encodes and pushes. The transport is an interface: a
-- state and its push, which says whether it succeeded. The end of the agent is one more tick.
pub mod Account
use yomins_agent.Go.Text.{Bytes, codes}
use yomins_agent.Metrics.Types.{MetricPoint, MetricSet}
use yomins_agent.Metrics.Registry.{Registry, Result, finish, CollectError, collect_all}
use yomins_agent.Metrics.SelfMetrics.{
  SelfMetricsCollector, Floats, Build, record_collection, record_push, collect,
}
use yomins_agent.Prelude.{
  ℕ, ◌+◌, ◌/◌, Bool, true, false, not, ◌&&◌, Option, List, [], ◌∷◌, ◌++◌, if◌then◌else◌,
}

-- `Agent`, without the settings that only the loop uses. `committed` is the state of the sync.Once,
-- and `commits` counts the calls of the hook.
pub record Agent (T : Type 0) : Type 0 where
  pub registry : Registry
  pub transport : T
  pub self : SelfMetricsCollector
  pub agent_id : Bytes
  pub hostname : Bytes
  pub version : Bytes
  pub has_hook : Bool
  pub committed : Bool
  pub commits : ℕ

-- `New`.
unfoldable pub new_agent :
    {T : Type 0} → Bytes → Bytes → Bytes → Bool → Registry → T → SelfMetricsCollector → Agent T
new_agent agent_id hostname version has_hook registry transport self = record {
  registry = registry;
  transport = transport;
  self = self;
  agent_id = agent_id;
  hostname = hostname;
  version = version;
  has_hook = has_hook;
  committed = false;
  commits = 0;
}

-- What one tick meets: the collectors whose calls have returned since the last one, what the
-- collectors give, the durations and the times.
pub record Tick : Type 0 where
  pub returned : List Bytes
  pub gives : Bytes → Option Result
  pub collect_duration : ℕ
  pub push_duration : ℕ
  pub now : ℕ
  pub unix : ℕ

unfoldable pub return_all : List Bytes → Registry → Registry
return_all [] r = r
return_all (name ∷ names) r = return_all names (finish name r)

-- What one tick did.
pub record Outcome : Type 0 where
  pub sent : MetricSet
  pub errs : List (Bytes × CollectError)
  pub ok : Bool

-- `commitOnce.Do`, behind a push that succeeded.
unfoldable pub commit_once : {T : Type 0} → Bool → Agent T → Agent T
commit_once ok a =
    if ok && not a.committed
    then record a { committed = true; commits = if a.has_hook then a.commits + 1 else a.commits }
    else a

module _ {T : Type 0} (push : MetricSet → T → T × Bool) (fl : Floats) (b : Build) where
  -- The set that a tick pushes.
  unfoldable pub metric_set : Tick → List MetricPoint → SelfMetricsCollector → Agent T → MetricSet
  metric_set t points self a = record {
    points = points ++ collect fl b t.now self;
    agent_id = a.agent_id;
    hostname = a.hostname;
    version = a.version;
    source = codes "yomins_agent";
    collected_at = t.now;
  }

  -- `tick`.
  unfoldable pub tick : Tick → Agent T → Agent T × Outcome
  unfolding commit_once metric_set
  tick t a =
      let (registry, collected) = collect_all t.gives (return_all t.returned a.registry) in
      let (points, errs) = collected in
      let self = record_collection t.collect_duration errs a.self in
      let ms = metric_set t points self a in
      let (transport, ok) = push ms a.transport in
      (
        commit_once ok (record a {
          registry = registry;
          transport = transport;
          self = record_push t.push_duration ok t.unix self;
        }),
        record { sent = ms; errs = errs; ok = ok },
      )

  -- The ticks of `Run`.
  unfoldable pub run : List Tick → Agent T → Agent T × List Outcome
  unfolding tick
  run [] a = (a, [])
  run (t ∷ ts) a =
      let (a', outcome) = tick t a in let (a'', more) = run ts a' in (a'', outcome ∷ more)
