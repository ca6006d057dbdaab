-- ===== src/Logs/Follow/Pass.antt =====
-- internal/logs/tail.go: one pass over the files: discover, wanted, open, scan, and the end of read.
use yomins_agent.Go.Text.{Bytes, bytes_eq}
use yomins_agent.Logs.Allow.{allowed}
use yomins_agent.Logs.Positions.{file, set_file, forget}
use yomins_agent.Logs.Tail.{TailedFile, read}
use yomins_agent.Logs.Types.{Entry}
use yomins_agent.Logs.Follow.{
  max_files, discover_every, FileSpec, FileSource, Stat, Opened, FileSystem, is_rotated_name,
  Verdict, any_match, is_file, contains_path, is_followed, start_offset, container_or,
}
use yomins_agent.Prelude.Map.{lookup, insert, delete}
use yomins_agent.Prelude.{
  ℕ, ◌+◌, Bool, true, false, not, ◌||◌, Option, none, some, List, [], ◌∷◌, leb, ◌==◌, length,
  if◌then◌else◌,
}

-- The variables of `discover`.
pub record Search : Type 0 where
  pub source : FileSource
  pub seen : List Bytes
  pub denied : ℕ
  pub outside : ℕ

module _ (fs : FileSystem) (now : ℕ) where
  -- `wanted`.
  unfoldable pub wanted : List Bytes → Bytes → FileSpec → Verdict
  unfolding is_rotated_name allowed
  wanted allow p spec =
      if is_rotated_name p || (any_match fs.path_match spec.exclude p || not (is_file (fs.stat p)))
      then Verdict.skip
      else if allowed p allow
      then Verdict.to_read
      else Verdict.outside_allow

  -- `open`, for a file that could be opened; the map of `discover` takes it.
  unfoldable pub open_at : Bytes → FileSpec → ℕ → ℕ → FileSource → FileSource
  unfolding start_offset set_file file
  open_at p spec inode size s =
      let offset = start_offset now s.started inode size (file p s.positions) in
      let (ctr, image) = container_or spec.docker_json (fs.container_of p) spec.container in
      record s {
        positions = set_file p (record { inode = inode; offset = offset }) s.positions;
        files =
            insert p
              (record {
                path = p;
                source = spec.source;
                inode = inode;
                offset = offset;
                partial = [];
                part_at = 0;
                gone = false;
                ctr = ctr;
                image = image;
                cursor = offset;
              })
              s.files;
      }

  abbrev pub try_open : Bytes → FileSpec → Opened → Search → Search
  try_open p spec (Opened.opened inode size) d = record d {
    source = open_at p spec inode size d.source;
  }
  try_open p spec Opened.no_permission d = record d { denied = d.denied + 1 }
  try_open p spec Opened.failed d = d

  unfoldable pub judge : Bytes → FileSpec → Verdict → Search → Search
  unfolding open_at
  judge p spec Verdict.skip d = d
  judge p spec Verdict.outside_allow d = record d { outside = d.outside + 1 }
  judge p spec Verdict.to_read d =
      let d' = record d { seen = p ∷ d.seen } in
      if leb max_files (length d.source.files) then d' else try_open p spec (fs.open_file p) d'

  -- The body of the loops of `discover`, for one match.
  unfoldable pub visit : FileSpec → Bytes → Search → Search
  unfolding wanted judge
  visit spec p d =
      if contains_path p d.seen
      then d
      else if is_followed (lookup p d.source.files)
      then record d { seen = p ∷ d.seen }
      else judge p spec (wanted d.source.allow p spec) d

  unfoldable pub visit_all : FileSpec → List Bytes → Search → Search
  visit_all spec [] d = d
  visit_all spec (p ∷ ps) d = visit_all spec ps (visit spec p d)

  unfoldable pub visit_globs : FileSpec → List Bytes → Search → Search
  unfolding visit_all
  visit_globs spec [] d = d
  visit_globs spec (g ∷ gs) d = visit_globs spec gs (visit_all spec (fs.glob g) d)

  unfoldable pub visit_specs : List FileSpec → Search → Search
  unfolding visit_globs
  visit_specs [] d = d
  visit_specs (spec ∷ specs) d = visit_specs specs (visit_globs spec spec.globs d)

  -- A loop that marks as gone the files that fail a test.
  unfoldable pub mark_gone :
      (Bytes → TailedFile → Bool) → List (Bytes × TailedFile) → List (Bytes × TailedFile)
  mark_gone stays [] = []
  mark_gone stays ((p, tf) ∷ m) =
      (p, record tf { gone = tf.gone || not (stays p tf) }) ∷ mark_gone stays m

  -- `discover`.
  unfoldable pub discover : FileSource → FileSource
  unfolding visit_specs mark_gone
  discover s =
      let d = visit_specs s.specs (record { source = s; seen = []; denied = 0; outside = 0 }) in
      record d.source {
        files = mark_gone (λ p tf. contains_path p d.seen) d.source.files;
        denied = d.denied;
        outside = d.outside;
      }

  abbrev pub same_inode : Option Stat → TailedFile → Bool
  same_inode none tf = false
  same_inode (some st) tf = st.inode == tf.inode

  -- `scan`.
  unfoldable pub scan : FileSource → FileSource
  unfolding discover mark_gone
  scan s =
      let found =
        if leb (s.last_found + discover_every) now
        then discover (record s { last_found = now })
        else s in
      record found { files = mark_gone (λ p tf. same_inode (fs.stat p) tf) found.files }

  -- The end of `read`: the file is kept, or closed and let go.
  unfoldable pub after_read :
      Bytes → TailedFile × List Entry × Bool → FileSource → FileSource × List Entry
  unfolding forget
  after_read p (tf, es, false) s = (record s { files = insert p tf s.files }, es)
  after_read p (tf, es, true) s = (
    record s {
      files = delete tf.path s.files;
      last_found = 0;
      positions = elim (fs.stat tf.path) [
        | none ↦ forget tf.path s.positions
        | some st ↦ s.positions
      ];
    },
    es,
  )

  unfoldable pub read_found :
      (Bytes → Entry) → Bytes → Bytes → Option TailedFile → FileSource → FileSource × List Entry
  unfolding after_read read
  read_found parse content p none s = (s, [])
  read_found parse content p (some tf) s = after_read p (read parse now content tf) s

  -- `read` of the file that is followed at a path, of which the open file holds `content`.
  unfoldable pub read_file : (Bytes → Entry) → Bytes → Bytes → FileSource → FileSource × List Entry
  unfolding read_found
  read_file parse content p s = read_found parse content p (lookup p s.files) s
