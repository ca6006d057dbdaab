-- ===== src/Tests/Upgrade.antt =====
-- internal/upgrade: the versions of semver_test.go, and a machine that takes v1.3.0, crashes,
-- goes back, and takes it again.
use yomins_agent.Go.Text.{Bytes, codes, equal, trim_space}
use yomins_agent.Prelude.{◌≡◌, refl, replicate, true, false, none, some, [], ◌∷◌, List, ◌++◌}
use yomins_agent.Upgrade.Version.{Version, parse_version, is_newer}
use yomins_agent.Upgrade.{Config, Dir, Answers, exits, crashes, first_field, run_once}
use yomins_agent.Upgrade.Staged.{RunResult, run_once_result, Matches}
use yomins_agent.Upgrade.Stages.{supply, run_once_stages}
use yomins_agent.Upgrade.Machine.{Machine, Step, starts, checks, run, is_on_trial, trusted}

abbrev v1_2_3 : Version
v1_2_3 = record { major = 1; minor = 2; patch = 3 }

abbrev v1_10_0 : Version
v1_10_0 = record { major = 1; minor = 10; patch = 0 }

parse-tag : parse_version (codes "v1.2.3") ≡ some v1_2_3
unfolding parse_version
parse-tag = refl

parse-bare : parse_version (codes "1.10.0") ≡ some v1_10_0
unfolding parse_version
parse-bare = refl

parse-candidate : parse_version (codes "v1.2.3-rc1") ≡ none
unfolding parse_version
parse-candidate = refl

parse-four : parse_version (codes "v1.2.3.4") ≡ none
unfolding parse_version
parse-four = refl

newer-minor : is_newer (codes "v1.2.3") (codes "1.10.0") ≡ some true
unfolding is_newer parse_version
newer-minor = refl

newer-major : is_newer (codes "1.10.0") (codes "v2.0.0") ≡ some true
unfolding is_newer parse_version
newer-major = refl

-- A digest of 64 characters, which tells the binaries of these runs apart.
abbrev digest : Bytes → Bytes
digest [] = replicate 64 b'0'
digest (c ∷ binary) = replicate 64 c

abbrev agent : Config
agent = record { current_version = codes "v1.2.3"; disabled = false }

abbrev empty_dir : Dir
empty_dir = record {
  new_tmp = none;
  new_sha256 = none;
  new = none;
  pending = none;
  applied = none;
  committed = none;
}

abbrev old_binary : Bytes
old_binary = codes "old"

abbrev new_binary : Bytes
new_binary = codes "new"

abbrev sidecar : Bytes
sidecar = digest new_binary ++ codes "  yomins-agent-linux-amd64"

abbrev all_well : Answers
all_well = supply digest (codes "1.10.0") new_binary sidecar

sidecar-Matches : Matches digest new_binary sidecar
unfolding first_field trim_space
sidecar-Matches = (digest new_binary, refl, refl, refl)

run_once-panics :
    (run_once digest agent (supply digest (codes "1.10.0") new_binary []) empty_dir).1 ≡ crashes
unfolding run_once is_newer parse_version equal
run_once-panics = refl

run_once_result_example :
    RunResult digest agent all_well empty_dir (run_once digest agent all_well empty_dir)
run_once_result_example = run_once_result digest agent all_well empty_dir

run_once_stages_example :
    run_once digest agent all_well empty_dir
    ≡ (record empty_dir { new = some new_binary; pending = some (codes "1.10.0\n") }, exits)
unfolding equal
run_once_stages_example =
    run_once_stages digest agent (codes "1.10.0") new_binary sidecar empty_dir refl refl newer-minor
      sidecar-Matches

abbrev machine : Machine
machine = record { dir = empty_dir; backup = none; binary = old_binary }

-- Staged, applied, and the new agent never commits.
abbrev trial : List Step
trial = starts false ∷ checks agent all_well ∷ starts false ∷ []

trial-waits :
    (is_on_trial (run digest trial machine).dir.applied (run digest trial machine).dir.committed
      ≡ true)
    × ((run digest trial machine).binary ≡ new_binary)
    × (trusted digest trial machine old_binary ≡ old_binary)
unfolding run trusted run_once is_newer parse_version equal trim_space
trial-waits = (refl, refl, refl)
