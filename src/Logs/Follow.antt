-- ===== src/Logs/Follow.antt =====
-- internal/logs/tail.go: the files that are followed: which are found, opened, marked as gone and
-- let go. What the file system answers in one pass is a record of functions. The warnings are left
-- out.
pub mod Pass
pub mod Kept
use yomins_agent.Go.Text.{Bytes, codes, equal, is_empty, is_digit, bytes_eq}
use yomins_agent.Go.Path.{base, ext, after_last}
use yomins_agent.Logs.Allow.{allowed}
use yomins_agent.Logs.Positions.{Position, Positions, file, set_file, forget}
use yomins_agent.Logs.Tail.{TailedFile, read}
use yomins_agent.Logs.Types.{Entry}
use yomins_agent.Prelude.Map.{lookup, insert, delete}
use yomins_agent.Prelude.{
  ℕ, ◌+◌, ◌*◌, Bool, true, false, not, ◌&&◌, ◌||◌, Option, none, some, List, [], ◌∷◌, ◌++◌, ltb,
  leb, ◌==◌, length, drop, if◌then◌else◌,
}

abbrev pub max_files : ℕ
max_files = 500

-- `discoverEvery`, and the interval of `Run`, in nanoseconds.
abbrev pub discover_every : ℕ
discover_every = 10_000_000_000

abbrev pub interval : ℕ
interval = 1_000_000_000

-- `FileSpec`, with whether its parser is that of Docker's files.
pub record FileSpec : Type 0 where
  pub source : Bytes
  pub globs : List Bytes
  pub exclude : List Bytes
  pub docker_json : Bool
  pub container : Bytes

-- `FileSource`; `last_found` is 0 for the zero time.
pub record FileSource : Type 0 where
  pub specs : List FileSpec
  pub allow : List Bytes
  pub positions : Positions
  pub last_found : ℕ
  pub files : List (Bytes × TailedFile)
  pub started : ℕ
  pub denied : ℕ
  pub outside : ℕ

-- `NewFileSource`, and the start of `Run`.
unfoldable pub new_file_source : List FileSpec → List Bytes → Positions → ℕ → FileSource
new_file_source specs allow positions now = record {
  specs = specs;
  allow = allow;
  positions = positions;
  last_found = 0;
  files = [];
  started = now;
  denied = 0;
  outside = 0;
}

pub record Stat : Type 0 where
  pub inode : ℕ
  pub is_regular : Bool

-- How opening a file, asking for its size and seeking in it end.
pub data Opened : Type 0 where
  opened : ℕ → ℕ → Opened
  no_permission failed : Opened

-- What the file system answers, with filepath.Match and containerOfLog.
pub record FileSystem : Type 0 where
  pub glob : Bytes → List Bytes
  pub stat : Bytes → Option Stat
  pub open_file : Bytes → Opened
  pub path_match : Bytes → Bytes → Bool
  pub container_of : Bytes → Option (Bytes × Bytes)

-- `isDigits`.
abbrev pub all_digits : Bytes → Bool
all_digits [] = true
all_digits (c ∷ s) = is_digit c && all_digits s

unfoldable pub is_digits : Bytes → Bool
unfolding is_digit
is_digits s = all_digits s && not (is_empty s)

abbrev pub has_suffix : Bytes → Bytes → Bool
has_suffix [] t = is_empty t
has_suffix (c ∷ s) t = equal (c ∷ s) t || has_suffix s t

abbrev any_suffix : Bytes → List Bytes → Bool
any_suffix s [] = false
any_suffix s (t ∷ ts) = has_suffix s t || any_suffix s ts

abbrev pub are_digits : Option Bytes → Bool
are_digits none = false
are_digits (some s) = is_digits s

abbrev pub are_date : Option Bytes → Bool
are_date none = false
are_date (some s) = length s == 8 && is_digits s

unfoldable pub is_rotated_base : Bytes → Bool
unfolding is_digits ext after_last
is_rotated_base b =
    any_suffix b (
      codes ".gz"
      ∷ codes ".xz"
      ∷ codes ".bz2"
      ∷ codes ".zst"
      ∷ codes ".zip"
      ∷ codes ".old"
      ∷ codes ".bak"
      ∷ [])
    || (are_digits (ext b) || are_date (after_last b'-' b))

-- `isRotatedName`.
unfoldable pub is_rotated_name : Bytes → Bool
unfolding is_rotated_base base
is_rotated_name p = is_rotated_base (base p)

pub data Verdict : Type 0 where
  to_read skip outside_allow : Verdict

abbrev pub any_match : (Bytes → Bytes → Bool) → List Bytes → Bytes → Bool
any_match path_match [] p = false
any_match path_match (ex ∷ exclude) p = path_match ex p || any_match path_match exclude p

abbrev pub is_file : Option Stat → Bool
is_file none = false
is_file (some st) = st.is_regular

abbrev pub contains_path : Bytes → List Bytes → Bool
contains_path p [] = false
contains_path p (q ∷ qs) = equal q p || contains_path p qs

abbrev pub is_followed : Option TailedFile → Bool
is_followed none = false
is_followed (some tf) = true

-- The switch over the stored position: a file that was read before goes on where it was left, a
-- new or rotated one is read whole, and one that is there at the start is read from its end.
unfoldable pub start_offset : ℕ → ℕ → ℕ → ℕ → Option Position → ℕ
start_offset now started inode size none = if ltb (started + 2 * interval) now then 0 else size
start_offset now started inode size (some pos) =
    if pos.inode == inode && leb pos.offset size then pos.offset else 0

abbrev pub container_or : Bool → Option (Bytes × Bytes) → Bytes → Bytes × Bytes
container_or docker_json none ctr = (ctr, [])
container_or docker_json (some (name, image)) ctr = if docker_json then (name, image) else (ctr, [])
