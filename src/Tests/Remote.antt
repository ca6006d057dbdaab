-- ===== src/Tests/Remote.antt =====
-- The local and the remote configuration, and the theorems about them at concrete inputs.
use yomins_agent.Go.Text.{Bytes, codes, equal, is_empty, cut, has_prefix, trim_right}
use yomins_agent.Config.{
  Config as LocalConfig, default_config, validate, server_faults, known_mode, known_logs,
}
use yomins_agent.Remote.{
  Config, split_typed, is_source_name, is_valid, apply, valid_interval, valid_logs, in_range,
  is_abs, is_name_start,
}
use yomins_agent.Remote.Trust.{reads, trusted, reads-apply}
use yomins_agent.Remote.Adopt.{validate-apply}
use yomins_agent.Remote.Fetch.{
  Fetcher, Poll, Json, empty_config, with_version, same_effect, fetched, save, adopt, check,
  after_check, run, run_in_mode, boot,
}
use yomins_agent.Remote.Fetch.Settles.{ReadsBack, AllNamed, restart_settles}
use yomins_agent.Prelude.Int.{ℤ, pos}
use yomins_agent.Prelude.{
  ℕ, ◌+◌, ◌≤◌, Bool, true, false, Option, none, some, [], ◌∷◌, if◌then◌else◌, ◌≡◌, refl, arith,
}

-- A duration in minutes, for two texts.
abbrev minutes : Bytes → Option ℤ
minutes s =
    if equal s (codes "5m")
    then some (pos 300_000_000_000)
    else if equal s (codes "1h")
    then some (pos 3_600_000_000_000)
    else none

abbrev compiles : Bytes → Bool
compiles p = true

typed : split_typed (codes "nginx:/srv/site/*.log") ≡ (codes "nginx", codes "/srv/site/*.log")
unfolding split_typed is_source_name is_name_start cut has_prefix
typed = refl

untyped : split_typed (codes "/srv/a:b.log") ≡ ([], codes "/srv/a:b.log")
unfolding split_typed is_source_name is_name_start cut has_prefix
untyped = refl

abbrev pushed : Config
pushed = record empty_config {
  interval = some (codes "5m");
  logs = some (record {
    enabled = some true;
    paths = codes "/srv/site/*.log" ∷ [];
    exclude = [];
    redact = [];
  });
}

abbrev hourly : Config
hourly = record empty_config { interval = some (codes "1h") }

abbrev host : LocalConfig
host = record default_config {
  server = codes "https://ingest.example";
  token = codes "t";
  log_paths = codes "/var/log/app.log" ∷ [];
}

hourly_refused : is_valid minutes compiles hourly ≡ false
unfolding is_valid valid_interval in_range equal
hourly_refused = refl

limited_keeps :
    (reads (apply minutes pushed (codes "limited") host)).log_paths ≡ codes "/var/log/app.log" ∷ []
unfolding apply equal
limited_keeps = refl

reads-apply_example :
    reads (apply minutes pushed (codes "full") host) ≡ trusted (codes "full") pushed (reads host)
reads-apply_example = reads-apply minutes pushed (codes "full") host

pushed_valid : is_valid minutes compiles pushed ≡ true
unfolding is_valid valid_interval valid_logs in_range equal split_typed is_source_name is_name_start
    cut has_prefix is_abs
pushed_valid = refl

host_valid : (validate host).1 ≡ []
unfolding validate default_config server_faults known_mode known_logs equal is_empty
host_valid = refl

validate-apply_example : (validate (apply minutes pushed (codes "limited") host)).1 ≡ []
validate-apply_example =
    validate-apply minutes compiles pushed (codes "limited") host pushed_valid host_valid

-- A server that is only a slash passes, and is empty behind the check.
slash_passes : validate (record host { server = codes "/" }) ≡ (record host { server = [] }, [])
unfolding validate default_config server_faults known_mode known_logs equal is_empty trim_right
slash_passes = refl

-- A text stands for the version of one configuration.
abbrev words : Json
words = record {
  marshal = λ s. some s.version;
  unmarshal = λ b. some (record { version = b; config = pushed });
  first = λ b. some (record { version = b; config = pushed });
  marshal_config = λ c. elim c.interval [ none ↦ some [] | some s ↦ some s ];
}

words-ReadsBack : ReadsBack words
words-ReadsBack text b s e e' = ground arith

abbrev answered : ℕ → Poll
answered now = record { now = now; paused = false; answer = some (200, codes "v2"); writes = true }

abbrev fresh : Fetcher
fresh = record { current = []; applied = empty_config; info = []; saved = none }

restarted :
    run_in_mode words minutes compiles 100 120 (codes "full") (answered 150 ∷ []) fresh
    ≡ (record fresh { saved = some (codes "v2") }, some (codes "v2", 220))
unfolding run_in_mode run check after_check fetched adopt save with_version same_effect equal
    is_empty is_valid valid_interval valid_logs in_range split_typed is_source_name is_name_start
    cut has_prefix is_abs
restarted = refl

named :
    AllNamed words words-ReadsBack minutes compiles 300 120
      (codes "v2")
      (answered 350 ∷ answered 410 ∷ [])
unfolding fetched with_version is_empty
named = (refl, (refl, tt))

restart_settles_example :
    (100 + 120 ≤ 220)
    × ((boot words minutes compiles (codes "full") (some (codes "v2"))).current ≡ codes "v2")
    × (run words minutes compiles 100 120
          (answered 350 ∷ answered 410 ∷ [])
          (boot words minutes compiles (codes "full") (some (codes "v2")))
        ≡ (boot words minutes compiles (codes "full") (some (codes "v2")), none))
restart_settles_example =
    restart_settles words words-ReadsBack minutes compiles 100 120 (codes "full")
      (answered 150 ∷ []) (answered 350 ∷ answered 410 ∷ []) fresh
      (record fresh { saved = some (codes "v2") }) (codes "v2") 220 restarted named
