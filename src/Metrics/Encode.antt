-- ===== src/Metrics/Encode.antt =====
-- internal/metrics/encode.go: the families of metrics that the text format is printed from, which
-- github.com/prometheus/common does.
pub mod Group
pub mod Labels
use yomins_agent.Go.Text.{Bytes, codes, equal, bytes_eq}
use yomins_agent.Metrics.Types.{MetricType, MetricPoint, MetricSet}
use yomins_agent.Prelude.Map.{lookup, insert}
use yomins_agent.Prelude.{
  ℕ, Bool, true, false, ◌||◌, Option, none, some, List, [], ◌∷◌, ◌++◌, ltb, ◌==◌, if◌then◌else◌,
  map,
}

-- `dto.LabelPair`: a name and a value.
abbrev pub LabelPair : Type 0
LabelPair = Bytes × Bytes

-- `dto.Metric`, with the field that is set.
pub record Metric : Type 0 where
  pub label : List LabelPair
  pub type : MetricType
  pub value : ℕ

-- `dto.MetricFamily`.
pub record MetricFamily : Type 0 where
  pub name : Bytes
  pub help : Bytes
  pub type : MetricType
  pub metric : List Metric

-- `agentLabelPairs`.
unfoldable pub agent_label_pairs : MetricSet → List LabelPair
agent_label_pairs ms =
    (codes "agent_id", ms.agent_id)
    ∷ (codes "hostname", ms.hostname)
    ∷ (codes "source", ms.source)
    ∷ (codes "target_name", ms.agent_id)
    ∷ (codes "target_type", codes "system")
    ∷ []

-- The order of `sort.Strings`.
unfoldable pub before : Bytes → Bytes → Bool
before [] t = true
before (c ∷ s) [] = false
before (c ∷ s) (d ∷ t) =
    let rest = before s t in if ltb c d then true else if c == d then rest else false

unfoldable pub insert_sorted : LabelPair → List LabelPair → List LabelPair
insert_sorted p [] = p ∷ []
insert_sorted p (q ∷ qs) =
    let more = insert_sorted p qs in if before p.0 q.0 then p ∷ q ∷ qs else q ∷ more

-- The labels of a point in the order of their names.
unfoldable pub sort_labels : List LabelPair → List LabelPair
sort_labels [] = []
sort_labels (p ∷ ps) = insert_sorted p (sort_labels ps)

-- Whether a label of the agent has the name.
unfoldable pub is_agent_label : List LabelPair → Bytes → Bool
is_agent_label [] k = false
is_agent_label ((name, value) ∷ labels) k = equal name k || is_agent_label labels k

-- The name that a label of a point is sent under.
unfoldable pub exported_name : List LabelPair → Bytes → Bytes
exported_name agent_labels k = if is_agent_label agent_labels k then codes "exported_" ++ k else k

-- The loop over the labels of a point.
unfoldable pub exported : List LabelPair → List LabelPair → List LabelPair
exported agent_labels [] = []
exported agent_labels ((k, v) ∷ labels) =
    (exported_name agent_labels k, v) ∷ exported agent_labels labels

-- `dtoMetric`.
unfoldable pub dto_metric : MetricPoint → List LabelPair → Metric
dto_metric pt agent_labels = record {
  label = agent_labels ++ exported agent_labels (sort_labels pt.labels);
  type = pt.type;
  value = pt.value;
}

-- The names in the order of their first points, and the family of each.
pub record Families : Type 0 where
  pub order : List Bytes
  pub by_name : List (Bytes × MetricFamily)

-- The body of the loop over the points, with the family that the map holds.
unfoldable pub add_to : List LabelPair → MetricPoint → Option MetricFamily → Families → Families
add_to agent_labels pt none fs = record {
  order = fs.order ++ pt.name ∷ [];
  by_name =
      insert pt.name
        (record {
          name = pt.name;
          help = pt.help;
          type = pt.type;
          metric = dto_metric pt agent_labels ∷ [];
        })
        fs.by_name;
}
add_to agent_labels pt (some fam) fs = record fs {
  by_name =
      insert pt.name (record fam { metric = fam.metric ++ dto_metric pt agent_labels ∷ [] })
        fs.by_name;
}

unfoldable pub add_points : List LabelPair → List MetricPoint → Families → Families
add_points agent_labels [] fs = fs
add_points agent_labels (pt ∷ pts) fs =
    add_points agent_labels pts (add_to agent_labels pt (lookup pt.name fs.by_name) fs)

-- The loop over the names.
unfoldable pub in_order : List Bytes → List (Bytes × MetricFamily) → List MetricFamily
in_order [] by_name = []
in_order (n ∷ ns) by_name =
    let rest = in_order ns by_name in
    elim (lookup n by_name) [ none ↦ rest | some fam ↦ fam ∷ rest ]

-- `buildFamilies`.
unfoldable pub build_families : MetricSet → List MetricFamily
build_families ms =
    let fs = add_points (agent_label_pairs ms) ms.points (record { order = []; by_name = [] }) in
    in_order fs.order fs.by_name
