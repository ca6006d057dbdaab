-- ===== src/Upgrade/Stages.antt =====
-- That a run does stage a newer release.
use yomins_agent.Go.Text.{Bytes, codes, equal, equal_iff, trim_space}
use yomins_agent.Prelude.{true, false, none, some, [], ◌∷◌, ◌++◌, ◌≡◌, ap, ◌∙◌, arith}
use yomins_agent.Upgrade.Version.{is_newer}
use yomins_agent.Upgrade.{
  Config, Dir, Answers, written, download_file, accepts, compare_digest, check_field,
  verify_checksum, accept, check_staged, fetch_sidecar, stage_upgrade, exits, write_pending,
  upgrade_to, check_latest, run_once,
}
use yomins_agent.Upgrade.Staged.{Matches}

module _ (sha256_hex : Bytes → Bytes) where
  -- The answers of a world in which everything works.
  abbrev pub supply : Bytes → Bytes → Bytes → Answers
  supply latest body raw = record {
    latest = some latest;
    platform = true;
    mkdir = true;
    binary = some body;
    binary_write = written;
    sidecar = some raw;
    sidecar_write = written;
    reads_sidecar = true;
    reads_binary = true;
    rename = true;
    pending_write = written;
  }

  verify_checksum-supply :
      (latest body raw : Bytes)
      → Matches sha256_hex body raw
      → verify_checksum sha256_hex (supply latest body raw) (some body) (some raw) ≡ accepts
  unfolding verify_checksum check_field compare_digest
  verify_checksum-supply latest body raw (field, e, l, m) =
      ap (check_field sha256_hex true body) e
      ∙ ground (arith, l, m, equal_iff (sha256_hex body) (trim_space field))

  stage_upgrade-supply :
      (latest body raw : Bytes) (d : Dir)
      → Matches sha256_hex body raw
      → stage_upgrade sha256_hex (supply latest body raw) d
        ≡ (record d { new_tmp = none; new_sha256 = none; new = some body }, accepts)
  unfolding stage_upgrade fetch_sidecar download_file check_staged accept
  stage_upgrade-supply latest body raw d m =
      ap
        (λ v.
          check_staged (supply latest body raw) v
            (record d { new_tmp = some body; new_sha256 = some raw }))
        (verify_checksum-supply latest body raw m)

  -- When everything works, a newer release whose binary matches its sidecar is staged, and the
  -- agent exits for the restart.
  pub run_once_stages :
      (c : Config) (latest body raw : Bytes) (d : Dir)
      → c.disabled ≡ false
      → equal c.current_version (codes "dev") ≡ false
      → is_newer c.current_version latest ≡ some true
      → Matches sha256_hex body raw
      → run_once sha256_hex c (supply latest body raw) d ≡ (
        record d {
          new_tmp = none;
          new_sha256 = none;
          new = some body;
          pending = some (latest ++ b'\n' ∷ []);
        },
        exits,
      )
  unfolding run_once check_latest upgrade_to write_pending
  run_once_stages c latest body raw d on release newer m =
      rw (on, release)
        (ap (λ o. upgrade_to sha256_hex (supply latest body raw) latest o d) newer
          ∙ ap (write_pending (supply latest body raw) latest)
              (stage_upgrade-supply latest body raw d m))
