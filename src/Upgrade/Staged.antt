-- ===== src/Upgrade/Staged.antt =====
-- What a run of the check can leave behind.
use yomins_agent.Go.Text.{Bytes, codes, equal, equal_iff, trim_space}
use yomins_agent.Prelude.{
  Bool, true, false, ◌&&◌, ◌||◌, Option, none, some, [], ◌∷◌, ◌++◌, ◌==◌, ◌≡◌, refl, ◌⊎◌, length,
  inl, inr, Bool-cases, arith,
}
use yomins_agent.Upgrade.Version.{is_newer}
use yomins_agent.Upgrade.{
  Config, Dir, Answers, Write, unopened, cut_short, written, download_file, Verdict, accepts,
  refuses, panics, first_field, compare_digest, check_field, verify_checksum, accept, check_staged,
  fetch_sidecar, stage_upgrade, Ending, returns, exits, crashes, write_pending, upgrade_to,
  check_latest, run_once,
}

-- The files that the helper script reads are as they were.
abbrev pub Untouched : Dir → Dir → Type 0
Untouched d e =
    (e.new ≡ d.new)
    × (e.pending ≡ d.pending)
    × (e.applied ≡ d.applied)
    × (e.committed ≡ d.committed)

download_file_lem :
    (o : Option Bytes) (w : Write) (file : Option Bytes)
    → ((download_file o w file).1 ≡ false)
      ⊎ ((body : Bytes) × (o ≡ some body) × (download_file o w file ≡ (some body, true)))
unfolding download_file
download_file_lem none w file = inl refl
download_file_lem (some body) unopened file = inl refl
download_file_lem (some body) (cut_short part) file = inl refl
download_file_lem (some body) written file = inr (body, refl, refl)

module _ (sha256_hex : Bytes → Bytes) where
  -- The digest of the binary is the first field of the sidecar, of 64 characters.
  abbrev pub Matches : Bytes → Bytes → Type 0
  Matches binary raw =
      (field : Bytes) × (first_field raw ≡ some field)
      × (length (trim_space field) ≡ 64)
      × (sha256_hex binary ≡ trim_space field)

  -- The ways for a run to end. It returns with the files as they were, or without a staged
  -- binary; it exits behind a binary whose digest matched, with the marker that names a newer
  -- release; or it crashes on a sidecar without a field.
  pub data RunResult (c : Config) (a : Answers) (d : Dir) : Dir × Ending → Type 0 where
    kept : (e : Dir) → Untouched d e → RunResult c a d (e, returns)
    withdrawn :
        (e : Dir)
        → e.new ≡ none
        → e.applied ≡ d.applied
        → e.committed ≡ d.committed
        → RunResult c a d (e, returns)
    staged :
        (latest body raw : Bytes)
        → a.latest ≡ some latest
        → is_newer c.current_version latest ≡ some true
        → a.binary ≡ some body
        → a.sidecar ≡ some raw
        → Matches body raw
        → RunResult c a d (
          record d {
            new_tmp = none;
            new_sha256 = none;
            new = some body;
            pending = some (latest ++ b'\n' ∷ []);
          },
          exits,
        )
    crashed :
        (e : Dir) (raw : Bytes)
        → a.sidecar ≡ some raw
        → first_field raw ≡ none
        → Untouched d e
        → RunResult c a d (e, crashes)

  data StageResult (a : Answers) (d : Dir) : Dir × Verdict → Type 0 where
    refused : (e : Dir) → Untouched d e → StageResult a d (e, refuses)
    accepted :
        (body raw : Bytes)
        → a.binary ≡ some body
        → a.sidecar ≡ some raw
        → Matches body raw
        → StageResult a d (record d { new_tmp = none; new_sha256 = none; new = some body }, accepts)
    panicked :
        (e : Dir) (raw : Bytes)
        → a.sidecar ≡ some raw
        → first_field raw ≡ none
        → Untouched d e
        → StageResult a d (e, panics)

  data Checked (binary raw : Bytes) : Verdict → Type 0 where
    matches : Matches binary raw → Checked binary raw accepts
    differs : Checked binary raw refuses
    blank : first_field raw ≡ none → Checked binary raw panics

  compare_digest_lem :
      (reads : Bool) (binary raw field : Bytes)
      → first_field raw ≡ some field
      → Checked binary raw (compare_digest sha256_hex reads (trim_space field) binary)
  unfolding compare_digest
  compare_digest_lem reads binary raw field e =
      elim (Bool-cases (length (trim_space field) == 64)) [
        | inr short ↦ rw short differs
        | inl long ↦ elim (Bool-cases (reads && equal (sha256_hex binary) (trim_space field))) [
          | inr other ↦ rw (long, other) differs
          | inl same ↦
              rw (long, same)
                (matches (
                  field,
                  e,
                  ground (arith, long),
                  ground (arith, same, equal_iff (sha256_hex binary) (trim_space field)),
                ))
        ]
      ]

  check_field_lem :
      (reads : Bool) (binary raw : Bytes) (o : Option Bytes)
      → first_field raw ≡ o
      → Checked binary raw (check_field sha256_hex reads binary o)
  unfolding check_field
  check_field_lem reads binary raw none e = blank e
  check_field_lem reads binary raw (some field) e = compare_digest_lem reads binary raw field e

  verify_checksum-Checked :
      (a : Answers) (binary raw : Bytes)
      → Checked binary raw (verify_checksum sha256_hex a (some binary) (some raw))
  unfolding verify_checksum
  verify_checksum-Checked a binary raw = elim (Bool-cases a.reads_sidecar) [
    | inr unread ↦ rw unread differs
    | inl read ↦ rw read (check_field_lem a.reads_binary binary raw (first_field raw) refl)
  ]

  check_staged_lem :
      (a : Answers) (d : Dir) (body raw : Bytes) (v : Verdict)
      → a.binary ≡ some body
      → a.sidecar ≡ some raw
      → Checked body raw v
      → StageResult a d (check_staged a v (record d { new_tmp = some body; new_sha256 = some raw }))
  unfolding check_staged accept
  check_staged_lem a d body raw _ b s (matches m) = elim (Bool-cases a.rename) [
    | inl moved ↦ rw moved (accepted body raw b s m)
    | inr stuck ↦ rw stuck (refused _ (refl, refl, refl, refl))
  ]
  check_staged_lem a d body raw _ b s differs = refused _ (refl, refl, refl, refl)
  check_staged_lem a d body raw _ b s (blank e) = panicked _ raw s e (refl, refl, refl, refl)

  fetch_sidecar_lem :
      (a : Answers) (d : Dir) (body : Bytes)
      → a.binary ≡ some body
      → StageResult a d (fetch_sidecar sha256_hex a (record d { new_tmp = some body }))
  unfolding fetch_sidecar
  fetch_sidecar_lem a d body b = elim (download_file_lem a.sidecar a.sidecar_write d.new_sha256) [
    | inl lost ↦ rw lost (refused _ (refl, refl, refl, refl))
    | inr (raw, s, got) ↦
        rw got (check_staged_lem a d body raw _ b s (verify_checksum-Checked a body raw))
  ]

  stage_upgrade_lem : (a : Answers) (d : Dir) → StageResult a d (stage_upgrade sha256_hex a d)
  unfolding stage_upgrade
  stage_upgrade_lem a d = elim (Bool-cases (a.platform && a.mkdir)) [
    | inr other ↦ rw other (refused d (refl, refl, refl, refl))
    | inl ready ↦ elim (download_file_lem a.binary a.binary_write d.new_tmp) [
      | inl lost ↦ rw (ready, lost) (refused _ (refl, refl, refl, refl))
      | inr (body, b, got) ↦ rw (ready, got) (fetch_sidecar_lem a d body b)
    ]
  ]

  write_pending_lem :
      (c : Config) (a : Answers) (d : Dir) (latest : Bytes) (r : Dir × Verdict)
      → a.latest ≡ some latest
      → is_newer c.current_version latest ≡ some true
      → StageResult a d r
      → RunResult c a d (write_pending a latest r)
  unfolding write_pending
  write_pending_lem c a d latest _ l n (refused e u) = kept e u
  write_pending_lem c a d latest _ l n (panicked e raw s f u) = crashed e raw s f u
  write_pending_lem c a d latest _ l n (accepted body raw b s m) = by a.pending_write refl
    where
      by :
          (w : Write)
          → a.pending_write ≡ w
          → RunResult c a d (
              write_pending a latest
                (record d { new_tmp = none; new_sha256 = none; new = some body }, accepts))
      by unopened e = rw e (withdrawn _ refl refl refl)
      by (cut_short part) e = rw e (withdrawn _ refl refl refl)
      by written e = rw e (staged latest body raw l n b s m)

  upgrade_to_lem :
      (c : Config) (a : Answers) (d : Dir) (latest : Bytes) (o : Option Bool)
      → a.latest ≡ some latest
      → is_newer c.current_version latest ≡ o
      → RunResult c a d (upgrade_to sha256_hex a latest o d)
  unfolding upgrade_to
  upgrade_to_lem c a d latest (some true) l n =
      write_pending_lem c a d latest _ l n (stage_upgrade_lem a d)
  upgrade_to_lem c a d latest (some false) l n = kept d (refl, refl, refl, refl)
  upgrade_to_lem c a d latest none l n = kept d (refl, refl, refl, refl)

  check_latest_lem :
      (c : Config) (a : Answers) (d : Dir) (o : Option Bytes)
      → a.latest ≡ o
      → RunResult c a d (check_latest sha256_hex c a o d)
  unfolding check_latest
  check_latest_lem c a d none l = kept d (refl, refl, refl, refl)
  check_latest_lem c a d (some latest) l =
      upgrade_to_lem c a d latest (is_newer c.current_version latest) l refl

  -- Whatever the world answers, a run returns with the staged binary and the markers as they
  -- were, or without a staged binary when the marker could not be written; it exits only behind
  -- a binary whose digest is the one of the sidecar, for a release that is newer, with the marker
  -- that names it; and it crashes only on a sidecar without a field.
  pub run_once_result :
      (c : Config) (a : Answers) (d : Dir) → RunResult c a d (run_once sha256_hex c a d)
  unfolding run_once
  run_once_result c a d = elim (Bool-cases (c.disabled || equal c.current_version (codes "dev"))) [
    | inl off ↦ rw off (kept d (refl, refl, refl, refl))
    | inr on ↦ rw on (check_latest_lem c a d a.latest refl)
  ]

  -- No run touches the two markers of an upgrade in progress.
  pub run_once_markers :
      (c : Config) (a : Answers) (d : Dir)
      → ((run_once sha256_hex c a d).0.applied ≡ d.applied)
        × ((run_once sha256_hex c a d).0.committed ≡ d.committed)
  run_once_markers c a d = by (run_once_result c a d)
    where
      by :
          {r : Dir × Ending}
          → RunResult c a d r
          → (r.0.applied ≡ d.applied) × (r.0.committed ≡ d.committed)
      by (kept e (n, p, s, t)) = (s, t)
      by (withdrawn e n s t) = (s, t)
      by (staged latest body raw l n b s m) = (refl, refl)
      by (crashed e raw s f (n, p, u, v)) = (u, v)
