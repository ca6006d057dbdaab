-- ===== src/Metrics/Registry.antt =====
-- internal/collector/collector.go: the registry of collectors and one pass over them. What a
-- collector gives is a parameter; the moves of its goroutines are in Once.
pub mod Once
use yomins_agent.Go.Text.{Bytes, equal, bytes_eq}
use yomins_agent.Metrics.Types.{MetricPoint}
use yomins_agent.Prelude.Map.{lookup, insert, delete}
use yomins_agent.Prelude.{
  ℕ, Bool, true, false, ◌||◌, Option, none, some, List, [], ◌∷◌, ◌++◌, ltb, if◌then◌else◌,
}

-- `isExcluded`.
unfoldable pub is_excluded : Bytes → List Bytes → Bool
is_excluded name [] = false
is_excluded name (ex ∷ excludes) = equal ex name || is_excluded name excludes

-- `matchesAnyGlob`; `path_match` is `path.Match`, with `none` for a bad pattern.
unfoldable pub matches_any_glob : (Bytes → Bytes → Option Bool) → Bytes → List Bytes → Bool
matches_any_glob path_match name [] = false
matches_any_glob path_match name (p ∷ patterns) =
    let rest = matches_any_glob path_match name patterns in
    elim (path_match p name) [ none ↦ rest | some ok ↦ ok || rest ]

-- `Registry`, with the names of its collectors; a duration is in nanoseconds.
pub record Registry : Type 0 where
  pub collectors : List Bytes
  pub timeout : ℕ
  pub busy : List (Bytes × Bool)

-- `NewRegistry`.
unfoldable pub new_registry : List Bytes → Registry
new_registry names = record { collectors = names; timeout = 20_000_000_000; busy = [] }

-- `WithTimeout`, of a duration that is not negative.
unfoldable pub with_timeout : ℕ → Registry → Registry
with_timeout d r = if ltb 0 d then record r { timeout = d } else r

-- `r.busy[name]`.
unfoldable pub is_busy : Bytes → Registry → Bool
is_busy name r = elim (lookup name r.busy) [ none ↦ false | some b ↦ b ]

unfoldable pub start : Bytes → Registry → Registry × Bool
start name r =
    if is_busy name r then (r, false) else (record r { busy = insert name true r.busy }, true)

unfoldable pub finish : Bytes → Registry → Registry
finish name r = record r { busy = delete name r.busy }

-- The errors of a pass: those of the registry, and those of a collector.
pub data CollectError : Type 0 where
  still_running : CollectError
  timed_out : ℕ → CollectError
  failed : Bytes → CollectError

-- `result`.
pub record Result : Type 0 where
  pub pts : List MetricPoint
  pub err : Option CollectError

-- The branches of the select: the result that Collect gave, or none before the time limit.
unfoldable pub await : Registry → Option Result → Result
await r (some res) = res
await r none = record { pts = []; err = some (CollectError.timed_out r.timeout) }

-- The loop that starts the collectors; `gives` is what is had from each in time. The goroutines
-- that return are moves of their own.
unfoldable pub launch : (Bytes → Option Result) → List Bytes → Registry → Registry × List Result
launch gives [] r = (r, [])
launch gives (name ∷ names) r =
    let (r', started) = start name r in
    let more = launch gives names r' in
    let res =
      if started
      then await r (gives name)
      else record { pts = []; err = some CollectError.still_running } in
    (more.0, res ∷ more.1)

-- The loop over the results.
unfoldable pub gather :
    List Bytes
    → List Result
    → List MetricPoint × List (Bytes × CollectError)
    → List MetricPoint × List (Bytes × CollectError)
gather (name ∷ names) (res ∷ results) (points, errs) = elim res.err [
  | none ↦ gather names results (points ++ res.pts, errs)
  | some err ↦ gather names results (points, insert name err errs)
]
gather [] results acc = acc
gather (name ∷ names) [] acc = acc

-- `CollectAll`.
unfoldable pub collect_all :
    (Bytes → Option Result) → Registry → Registry × (List MetricPoint × List (Bytes × CollectError))
collect_all gives r =
    let (r', results) = launch gives r.collectors r in (r', gather r.collectors results ([], []))
