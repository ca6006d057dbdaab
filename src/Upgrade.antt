-- ===== src/Upgrade.antt =====
-- internal/upgrade: the check for a newer release, its staging and the markers in the directory
-- StateDir/upgrade. The HTTP requests are answers that the caller supplies; so is whether each
-- file operation succeeds, but for `os.Remove`, whose error the source ignores.
pub mod Version
pub mod Staged
pub mod Stages
pub mod Machine
use yomins_agent.Go.Text.{Bytes, codes, equal, is_space, trim_left, trim_space}
use yomins_agent.Prelude.{
  ℕ, Bool, true, false, not, ◌&&◌, ◌||◌, Option, none, some, List, [], ◌∷◌, ◌++◌, ◌==◌, length,
  if◌then◌else◌,
}
use yomins_agent.Upgrade.Version.{is_newer}

-- `Config`, less the interval, which only times `RunPeriodic`.
pub record Config : Type 0 where
  pub current_version : Bytes
  pub disabled : Bool

-- The contents of the files of the directory, `none` where there is no such file.
pub record Dir : Type 0 where
  pub new_tmp : Option Bytes
  pub new_sha256 : Option Bytes
  pub new : Option Bytes
  pub pending : Option Bytes
  pub applied : Option Bytes
  pub committed : Option Bytes

-- A write of a file: it is not opened, it stops after some bytes, or it holds all of them.
pub data Write : Type 0 where
  unopened : Write
  cut_short : Bytes → Write
  written : Write

abbrev pub write_file : Write → Bytes → Option Bytes → Option Bytes × Bool
write_file unopened content file = (file, false)
write_file (cut_short part) content file = (some part, false)
write_file written content file = (some content, true)

-- What the world answers to one `RunOnce`, in the order in which it is asked.
pub record Answers : Type 0 where
  pub latest : Option Bytes
  pub platform : Bool
  pub mkdir : Bool
  pub binary : Option Bytes
  pub binary_write : Write
  pub sidecar : Option Bytes
  pub sidecar_write : Write
  pub reads_sidecar : Bool
  pub reads_binary : Bool
  pub rename : Bool
  pub pending_write : Write

-- `downloadFile`, from the body of a response with status 200 if there is one.
unfoldable pub download_file : Option Bytes → Write → Option Bytes → Option Bytes × Bool
download_file none w file = (file, false)
download_file (some body) w file = write_file w body file

-- How a step ends; `panics` is a run-time panic.
pub data Verdict : Type 0 where
  accepts : Verdict
  refuses : Verdict
  panics : Verdict

unfoldable pub word : Bytes → Bytes
word [] = []
word (c ∷ s) = let more = word s in if is_space c then [] else c ∷ more

-- `strings.Fields(s)[0]`; `none` is its panic when there is no field.
unfoldable pub first_field : Bytes → Option Bytes
unfolding word trim_left is_space
first_field s = elim (trim_left is_space s) [ [] ↦ none | c ∷ more ↦ some (word (c ∷ more)) ]

-- The rename at the end of `stageUpgrade`.
unfoldable pub accept : Answers → Dir → Dir × Verdict
accept a d =
    if a.rename
    then (record d { new_tmp = none; new_sha256 = none; new = d.new_tmp }, accepts)
    else (record d { new_tmp = none; new_sha256 = none }, refuses)

unfoldable pub check_staged : Answers → Verdict → Dir → Dir × Verdict
unfolding accept
check_staged a accepts d = accept a d
check_staged a refuses d = (record d { new_tmp = none; new_sha256 = none }, refuses)
check_staged a panics d = (d, panics)

-- How `RunOnce` ends: it returns, it exits for the restart, or it panics.
pub data Ending : Type 0 where
  returns : Ending
  exits : Ending
  crashes : Ending

unfoldable pub write_pending : Answers → Bytes → Dir × Verdict → Dir × Ending
write_pending a latest (d, panics) = (d, crashes)
write_pending a latest (d, refuses) = (d, returns)
write_pending a latest (d, accepts) =
    let (file, wrote) = write_file a.pending_write (latest ++ b'\n' ∷ []) d.pending in
    if wrote
    then (record d { pending = file }, exits)
    else (record d { pending = file; new = none }, returns)

module _ (sha256_hex : Bytes → Bytes) where
  unfoldable pub compare_digest : Bool → Bytes → Bytes → Verdict
  compare_digest reads_binary expected binary =
      if not (length expected == 64)
      then refuses
      else if reads_binary && equal (sha256_hex binary) expected
      then accepts
      else refuses

  unfoldable pub check_field : Bool → Bytes → Option Bytes → Verdict
  unfolding compare_digest
  check_field reads_binary binary none = panics
  check_field reads_binary binary (some field) =
      compare_digest reads_binary (trim_space field) binary

  -- `verifyChecksum` of the files' contents.
  unfoldable pub verify_checksum : Answers → Option Bytes → Option Bytes → Verdict
  unfolding check_field first_field
  verify_checksum a (some binary) (some raw) =
      if a.reads_sidecar then check_field a.reads_binary binary (first_field raw) else refuses
  verify_checksum a binary sidecar = refuses

  unfoldable pub fetch_sidecar : Answers → Dir → Dir × Verdict
  unfolding check_staged verify_checksum download_file
  fetch_sidecar a d =
      let (file, fetched) = download_file a.sidecar a.sidecar_write d.new_sha256 in
      if fetched
      then check_staged a (verify_checksum a d.new_tmp file) (record d { new_sha256 = file })
      else (record d { new_tmp = none; new_sha256 = none }, refuses)

  -- `stageUpgrade`.
  unfoldable pub stage_upgrade : Answers → Dir → Dir × Verdict
  unfolding fetch_sidecar download_file
  stage_upgrade a d =
      let (file, fetched) = download_file a.binary a.binary_write d.new_tmp in
      if not (a.platform && a.mkdir)
      then (d, refuses)
      else if fetched
      then fetch_sidecar a (record d { new_tmp = file })
      else (record d { new_tmp = none }, refuses)

  unfoldable pub upgrade_to : Answers → Bytes → Option Bool → Dir → Dir × Ending
  unfolding write_pending stage_upgrade
  upgrade_to a latest (some true) d = write_pending a latest (stage_upgrade a d)
  upgrade_to a latest newer d = (d, returns)

  unfoldable pub check_latest : Config → Answers → Option Bytes → Dir → Dir × Ending
  unfolding upgrade_to is_newer
  check_latest c a none d = (d, returns)
  check_latest c a (some latest) d = upgrade_to a latest (is_newer c.current_version latest) d

  -- `RunOnce`.
  unfoldable pub run_once : Config → Answers → Dir → Dir × Ending
  unfolding check_latest
  run_once c a d =
      if c.disabled || equal c.current_version (codes "dev")
      then (d, returns)
      else check_latest c a a.latest d

-- `Commit`: only behind an `applied` marker; the Boolean says that it returns no error.
unfoldable pub commit : Write → Dir → Dir × Bool
commit w d = elim d.applied [
  | none ↦ (d, true)
  | some mark ↦
      let (file, ok) = write_file w (codes "ok\n") d.committed in
      (record d { committed = file }, ok)
]
