-- ===== src/Tests/Metrics.antt =====
-- Families of metrics, and the theorems at concrete inputs.
use yomins_agent.Go.Text.{Bytes, codes, equal}
use yomins_agent.Metrics.Types.{MetricType, MetricPoint, MetricSet}
use yomins_agent.Metrics.Encode.{
  agent_label_pairs, before, insert_sorted, sort_labels, is_agent_label, exported_name, exported,
  dto_metric, build_families,
}
use yomins_agent.Metrics.Encode.Group.{
  with_name, first_names, family_of, build_families-first_names,
}
use yomins_agent.Metrics.Encode.Labels.{has_name, Distinct, Free, dto_metric-Distinct}
use yomins_agent.Metrics.Registry.{
  new_registry, start, finish, is_busy, collect_all, launch, await, gather,
}
use yomins_agent.Metrics.Registry.Once.{Move, count, moves, never_twice}
use yomins_agent.Prelude.Map.{lookup, insert, delete}
use yomins_agent.Prelude.{◌≤◌, ltb, some, none, if◌then◌else◌}
use yomins_agent.Prelude.{true, List, [], ◌∷◌, ◌++◌, map, ◌≡◌, refl}

abbrev bytes_metric : Bytes
bytes_metric = codes "system_network_rx_bytes_total"

abbrev point : Bytes → List (Bytes × Bytes) → MetricPoint
point name labels = record {
  name = name;
  help = codes "Received bytes";
  type = MetricType.counter;
  value = 4096;
  labels = labels;
  timestamp = 0;
}

abbrev two_interfaces : MetricSet
two_interfaces = record {
  points =
      point bytes_metric ((codes "iface", codes "eth0") ∷ [])
      ∷ point (codes "system_load1") []
      ∷ point bytes_metric ((codes "iface", codes "eth1") ∷ [])
      ∷ [];
  agent_id = codes "a-1";
  hostname = codes "web";
  version = codes "1.0.0";
  source = codes "agent";
  collected_at = 0;
}

names : first_names [] two_interfaces.points ≡ bytes_metric ∷ codes "system_load1" ∷ []
unfolding equal
names = refl

build_families-first_names_example :
    build_families two_interfaces
    ≡ map
        (λ n. family_of (agent_label_pairs two_interfaces) n (with_name n two_interfaces.points))
        (first_names [] two_interfaces.points)
build_families-first_names_example = build_families-first_names two_interfaces

abbrev hostname_label : MetricPoint
hostname_label =
    point bytes_metric ((codes "iface", codes "eth0") ∷ (codes "hostname", codes "db") ∷ [])

hostname_label-exported :
    (dto_metric hostname_label (agent_label_pairs two_interfaces)).label
    ≡ agent_label_pairs two_interfaces
      ++ (codes "exported_hostname", codes "db") ∷ (codes "iface", codes "eth0") ∷ []
unfolding dto_metric exported exported_name is_agent_label sort_labels insert_sorted before
    agent_label_pairs equal
hostname_label-exported = refl

hostname_label-Distinct : Distinct hostname_label.labels
unfolding equal
hostname_label-Distinct = (refl, (refl, tt))

hostname_label-Free : Free (agent_label_pairs two_interfaces) hostname_label.labels
unfolding equal
hostname_label-Free k h = refl

dto_metric-Distinct_example :
    Distinct (dto_metric hostname_label (agent_label_pairs two_interfaces)).label
dto_metric-Distinct_example =
    dto_metric-Distinct two_interfaces hostname_label hostname_label-Distinct hostname_label-Free

-- A point with both the labels hostname and exported_hostname gets two labels of one name.
two_exported :
    has_name
      (exported (agent_label_pairs two_interfaces) ((codes "hostname", codes "db") ∷ []))
      (codes "exported_hostname")
    ≡ true
unfolding exported exported_name is_agent_label agent_label_pairs equal
two_exported = refl

-- The disk collector hangs, and is not started a second time.
abbrev hung : List Move
hung =
    Move.begins (codes "disk")
    ∷ Move.begins (codes "cpu")
    ∷ Move.returns (codes "cpu")
    ∷ Move.begins (codes "disk")
    ∷ []

never_twice_example :
    (count (codes "disk") (moves hung (new_registry (codes "disk" ∷ codes "cpu" ∷ []), [])).1 ≤ 1)
    × ((start (codes "disk") (moves hung (new_registry (codes "disk" ∷ codes "cpu" ∷ []), [])).0).1
        ≡ ltb
            (count
              (codes "disk")
              (moves hung (new_registry (codes "disk" ∷ codes "cpu" ∷ []), [])).1)
            1)
never_twice_example = never_twice (codes "disk" ∷ codes "cpu" ∷ []) hung (codes "disk")

disk_only :
    count (codes "disk") (moves hung (new_registry (codes "disk" ∷ codes "cpu" ∷ []), [])).1 ≡ 1
unfolding start finish is_busy new_registry lookup insert delete equal
disk_only = refl

hung_points :
    (collect_all
      (λ n.
        if equal n (codes "cpu")
        then some (record { pts = hostname_label ∷ []; err = none })
        else none)
      (new_registry (codes "disk" ∷ codes "cpu" ∷ []))).1.0
    ≡ hostname_label ∷ []
unfolding collect_all launch await gather start is_busy new_registry lookup insert equal
hung_points = refl
