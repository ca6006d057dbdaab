-- ===== src/Upgrade/Machine.antt =====
-- The life of an upgrade on a machine: the agent's checks and commits (internal/upgrade), and
-- between them the helper systemd/apply-upgrade.sh, which systemd runs before every start.
use yomins_agent.Go.Text.{Bytes}
use yomins_agent.Prelude.{
  Bool, true, false, Option, none, some, List, [], ◌∷◌, ◌≡◌, if◌then◌else◌, arith,
}
use yomins_agent.Upgrade.{Config, Dir, Answers, Write, run_once, commit}

-- The directory, the backup beside it and the installed binary.
pub record Machine : Type 0 where
  pub dir : Dir
  pub backup : Option Bytes
  pub binary : Bytes

-- The apply path; `refreshed` says that `refresh_unit` installed a new unit, upon which the start
-- fails and systemd starts again.
unfoldable pub apply_pending : Bool → Machine → Machine
apply_pending refreshed m = elim m.dir.pending [
  | none ↦ m
  | some version ↦ elim m.dir.new [
    | none ↦ record m { dir = record m.dir { pending = none } }
    | some new ↦ if refreshed then m else record {
      dir = record m.dir { pending = none; new = none; applied = some [] };
      backup = some m.binary;
      binary = new;
    }
  ]
]

abbrev restored : Bytes → Option Bytes → Bytes
restored binary none = binary
restored binary (some old) = old

-- apply-upgrade.sh.
unfoldable pub start : Bool → Machine → Machine
unfolding apply_pending
start refreshed m = elim m.dir.committed [
  | some ok ↦
      apply_pending refreshed
        (record m { dir = record m.dir { applied = none; committed = none }; backup = none })
  | none ↦ elim m.dir.applied [
    | none ↦ apply_pending refreshed m
    | some mark ↦ record {
      dir = record m.dir { applied = none; pending = none; new = none };
      backup = none;
      binary = restored m.binary m.backup;
    }
  ]
]

pub data Step : Type 0 where
  starts : Bool → Step
  checks : Config → Answers → Step
  commits : Write → Step

-- An upgrade waits for its commit.
abbrev pub is_on_trial : Option Bytes → Option Bytes → Bool
is_on_trial (some mark) none = true
is_on_trial _ _ = false

abbrev pub has_mark : Option Bytes → Option Bytes → Bool
has_mark (some mark) (some ok) = true
has_mark _ _ = false

-- The trusted binary `t` is installed, or it is the backup of an upgrade on trial.
abbrev Safe : Machine → Bytes → Type 0
Safe m t = if is_on_trial m.dir.applied m.dir.committed then m.backup ≡ some t else m.binary ≡ t

apply_pending-Safe :
    (refreshed : Bool) (m : Machine) (t : Bytes)
    → is_on_trial m.dir.applied m.dir.committed ≡ false
    → m.dir.committed ≡ none
    → m.binary ≡ t
    → Safe (apply_pending refreshed m) t
unfolding apply_pending
apply_pending-Safe refreshed m t off fresh e = ground arith

module _ (sha256_hex : Bytes → Bytes) where
  unfoldable pub step : Step → Machine → Machine
  unfolding start
  step (starts refreshed) m = start refreshed m
  step (checks c a) m = record m { dir = (run_once sha256_hex c a m.dir).0 }
  step (commits w) m = record m { dir = (commit w m.dir).0 }

  unfoldable pub run : List Step → Machine → Machine
  unfolding step
  run [] m = m
  run (x ∷ xs) m = run xs (step x m)

  -- The binary that the last commit found installed, `t` before there was one.
  unfoldable pub trusted : List Step → Machine → Bytes → Bytes
  trusted [] m t = t
  trusted (commits w ∷ xs) m t =
      let m' = step (commits w) m in
      trusted xs m' (if has_mark m'.dir.applied m'.dir.committed then m'.binary else t)
  trusted (x ∷ xs) m t = trusted xs (step x m) t
