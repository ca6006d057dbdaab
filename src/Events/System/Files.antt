-- ===== src/Events/System/Files.antt =====
-- internal/events/system/collector.go: hashFile and pollFileState. SHA-256 is a parameter; what a
-- path holds at a time is an argument. The file file_state.json is the map that it holds.
pub mod Modified
pub mod History
use yomins_agent.Go.Text.{Bytes, codes, equal, bytes_eq}
use yomins_agent.Go.Hex.{hex}
use yomins_agent.Events.Types.{
  Event, EventType, Category, Severity, Confidence, no_context, blank_event,
}
use yomins_agent.Events.System.{Config}
use yomins_agent.Prelude.Int.{ℤ}
use yomins_agent.Prelude.Map.{lookup, insert}
use yomins_agent.Prelude.{
  ℕ, Bool, true, false, not, Option, none, some, List, [], ◌∷◌, ◌++◌, if◌then◌else◌,
}

-- `fileState`.
pub record FileState : Type 0 where
  pub hash : Bytes
  pub mod_time : ℤ
  pub size : ℕ

-- A file that can be read and stat'ed.
pub record Readable : Type 0 where
  pub content : Bytes
  pub mod_time : ℤ
  pub size : ℕ

abbrev pub States : Type 0
States = List (Bytes × FileState)

-- What the paths hold at one time.
abbrev pub Disk : Type 0
Disk = Bytes → Option Readable

unfoldable pub default_monitored_files : List Bytes
default_monitored_files =
    codes "/etc/passwd"
    ∷ codes "/etc/shadow"
    ∷ codes "/etc/group"
    ∷ codes "/etc/sudoers"
    ∷ codes "/etc/ssh/sshd_config"
    ∷ []

-- The variables of `pollFileState`, and what file_state.json holds if it can be read.
pub record FileWatch : Type 0 where
  pub state : States
  pub warned_unreadable : List (Bytes × Bool)
  pub saved : Option States

-- One pass over the paths: the variables, the events, whether `changed` is set, and the paths that
-- the debug line names.
pub record Pass : Type 0 where
  pub watch : FileWatch
  pub events : List Event
  pub changed : Bool
  pub warned : List Bytes

-- `saveFileState`; a write that fails leaves the file as it was.
unfoldable pub save_file_state : Bool → FileWatch → FileWatch
save_file_state written w = if written then record w { saved = some w.state } else w

-- `loadFileState`.
unfoldable pub load_file_state : Option States → States
load_file_state none = []
load_file_state (some m) = m

unfoldable pub config_modified : Config → (Bytes → Bytes) → ℕ → Bytes → Event
config_modified c id now path =
    record (blank_event c.host c.agent (id path) now EventType.system_config_modified
      Category.threat_activity Severity.critical) {
        confidence = Confidence.high;
        context = some (record no_context { reason = path });
        tags = codes "system" ∷ codes "config_modified" ∷ [];
      }

-- A read of the map `warnedUnreadable`.
abbrev or_false : Option Bool → Bool
or_false none = false
or_false (some b) = b

module _ (sha256 : Bytes → Bytes) where
  -- `hashFile`.
  unfoldable pub hash_file : Option Readable → Option FileState
  hash_file none = none
  hash_file (some r) =
      some (record { hash = hex (sha256 r.content); mod_time = r.mod_time; size = r.size })

  -- A path with no state gets one, where it can be hashed.
  unfoldable pub track : Bytes → Option FileState → Option FileState → States → States
  track path (some known) current m = m
  track path none none m = m
  track path none (some current) m = insert path current m

  -- The loop over the paths before the first tick.
  unfoldable pub baseline : Disk → List Bytes → States → States
  baseline disk [] m = m
  baseline disk (path ∷ paths) m =
      baseline disk paths (track path (lookup path m) (hash_file (disk path)) m)

  -- `pollFileState` before its loop.
  unfoldable pub start_file_watch : Disk → Bool → Option States → FileWatch
  start_file_watch disk written saved = save_file_state written (record {
    state = baseline disk default_monitored_files (load_file_state saved);
    warned_unreadable = [];
    saved = saved;
  })

  -- The body of the loop over the paths, past `hashFile`.
  unfoldable pub compare_file :
      Config → (Bytes → Bytes) → ℕ → Bytes → Option FileState → Option FileState → Pass → Pass
  compare_file c id now path none prev p =
      if or_false (lookup path p.watch.warned_unreadable) then p else record p {
        watch = record p.watch { warned_unreadable = insert path true p.watch.warned_unreadable };
        warned = p.warned ++ path ∷ [];
      }
  compare_file c id now path (some current) none p = record p {
    watch = record p.watch {
      state = insert path current p.watch.state;
      warned_unreadable = insert path false p.watch.warned_unreadable;
    };
    changed = true;
  }
  compare_file c id now path (some current) (some prev) p =
      if equal prev.hash current.hash
      then record p {
        watch = record p.watch { warned_unreadable = insert path false p.watch.warned_unreadable };
      }
      else record p {
        watch = record p.watch {
          state = insert path current p.watch.state;
          warned_unreadable = insert path false p.watch.warned_unreadable;
        };
        events = p.events ++ config_modified c id now path ∷ [];
        changed = true;
      }

  -- The loop over the paths.
  unfoldable pub check_files : Config → (Bytes → Bytes) → ℕ → Disk → List Bytes → Pass → Pass
  check_files c id now disk [] p = p
  check_files c id now disk (path ∷ paths) p =
      check_files c id now disk paths
        (compare_file c id now path (hash_file (disk path)) (lookup path p.watch.state) p)

  -- A tick of `pollFileState`: the variables, and the pass with its events.
  unfoldable pub poll_file_state :
      Config → (Bytes → Bytes) → ℕ → Disk → Bool → FileWatch → FileWatch × Pass
  poll_file_state c id now disk written w =
      let p =
        check_files c id now disk default_monitored_files
          (record { watch = w; events = []; changed = false; warned = [] }) in
      (if p.changed then save_file_state written p.watch else p.watch, p)
