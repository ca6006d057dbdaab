-- ===== src/Logs/Positions.antt =====
-- internal/logs/positions.go: what has been delivered of each file and of the journal. The file
-- log_positions.json is `disk`, decoded, and `none` when it is missing or unreadable; the rename
-- makes its change atomic.
pub mod Restart
use yomins_agent.Go.Text.{Bytes, equal, bytes_eq}
use yomins_agent.Prelude.Map.{lookup, insert, delete}
use yomins_agent.Prelude.{
  ℕ, Bool, true, false, not, ◌&&◌, ◌||◌, Option, none, some, List, [], ◌∷◌, ◌==◌, if◌then◌else◌,
}

-- `Position`: how far a file has been delivered.
pub record Position : Type 0 where
  pub inode : ℕ
  pub offset : ℕ

abbrev pub same_position : Position → Position → Bool
same_position p q = p.inode == q.inode && p.offset == q.offset

abbrev pub zero_position : Position
zero_position = record { inode = 0; offset = 0 }

-- What the file holds.
pub record Saved : Type 0 where
  pub files : List (Bytes × Position)
  pub journal : Bytes

-- `Positions`; `has_path` says that there is a state directory.
pub record Positions : Type 0 where
  pub has_path : Bool
  pub memory : Saved
  pub dirty : Bool
  pub disk : Option Saved

abbrev pub nothing_saved : Saved
nothing_saved = record { files = []; journal = [] }

unfoldable pub or_empty : Option Saved → Saved
or_empty none = nothing_saved
or_empty (some saved) = saved

-- `LoadPositions`.
unfoldable pub load_positions : Bool → Option Saved → Positions
unfolding or_empty
load_positions has_path disk = record {
  has_path = has_path;
  memory = if has_path then or_empty disk else nothing_saved;
  dirty = false;
  disk = disk;
}

-- `File`.
unfoldable pub file : Bytes → Positions → Option Position
unfolding lookup
file path p = lookup path p.memory.files

-- Go's map read without the comma-ok form.
abbrev pub or_zero : Option Position → Position
or_zero none = zero_position
or_zero (some pos) = pos

-- `SetFile`.
unfoldable pub set_file : Bytes → Position → Positions → Positions
unfolding lookup insert
set_file path pos p =
    if same_position (or_zero (lookup path p.memory.files)) pos then p else record p {
      memory = record p.memory { files = insert path pos p.memory.files };
      dirty = true;
    }

-- `Forget`.
unfoldable pub forget : Bytes → Positions → Positions
unfolding lookup delete
forget path p = elim (lookup path p.memory.files) [
  | none ↦ p
  | some pos ↦ record p {
    memory = record p.memory { files = delete path p.memory.files };
    dirty = true;
  }
]

-- `JournalCursor`.
unfoldable pub journal_cursor : Positions → Bytes
journal_cursor p = p.memory.journal

-- `SetJournalCursor`.
unfoldable pub set_journal_cursor : Bytes → Positions → Positions
unfolding equal
set_journal_cursor c p =
    if equal p.memory.journal c
    then p
    else record p { memory = record p.memory { journal = c }; dirty = true }

-- `Save`; `writes` says that the write and the rename succeed. The result says that it returns
-- no error.
unfoldable pub save : Bool → Positions → Positions × Bool
save writes p =
    if not p.dirty || not p.has_path
    then (p, true)
    else if writes
    then (record p { dirty = false; disk = some p.memory }, true)
    else (record p { dirty = false }, false)
