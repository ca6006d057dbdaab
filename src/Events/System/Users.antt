-- ===== src/Events/System/Users.antt =====
-- internal/events/system/collector.go: currentPasswdUsers and pollPasswd. The entries of a map are
-- visited in the order of the list; Go leaves the order open.
pub mod Quiet
pub mod Renamed
use yomins_agent.Go.Text.{Bytes, codes, cut, is_empty, has_prefix, bytes_eq}
use yomins_agent.Go.Bufio.{scan_lines}
use yomins_agent.Go.Strconv.{atoi}
use yomins_agent.Events.Types.{
  Event, EventType, Category, Severity, Confidence, no_actor, blank_event,
}
use yomins_agent.Events.System.{Config}
use yomins_agent.Prelude.Int.{ℤ, pos, negsuc, int_beq}
use yomins_agent.Prelude.Map.{lookup, insert}
use yomins_agent.Prelude.{
  ℕ, Bool, true, false, ◌&&◌, ◌||◌, Option, none, some, List, [], ◌∷◌, ◌++◌, ◌==◌, if◌then◌else◌,
  length, map,
}

-- From a user to the uid.
abbrev pub Users : Type 0
Users = List (Bytes × ℤ)

-- Up to the next colon.
abbrev pub first_part : Bytes → Option (Bytes × Bytes) → Bytes
first_part s none = s
first_part s (some (before, after)) = before

-- The first and the third of the parts of `SplitN(line, ":", 4)`, if there are three.
unfoldable pub third_part : Bytes → Option (Bytes × Bytes) → Option (Bytes × Bytes)
third_part name none = none
third_part name (some (password, rest)) = some (name, first_part rest (cut b':' rest))

unfoldable pub user_fields : Option (Bytes × Bytes) → Option (Bytes × Bytes)
unfolding third_part cut
user_fields none = none
user_fields (some (name, rest)) = third_part name (cut b':' rest)

abbrev pub add_uid : Bytes → Option ℤ → Users → Users
add_uid name none users = users
add_uid name (some uid) users = insert name uid users

abbrev pub add_fields : Option (Bytes × Bytes) → Users → Users
add_fields none users = users
add_fields (some (name, uid)) users = add_uid name (atoi uid) users

-- The body of the loop over the lines.
unfoldable pub add_user : Bytes → Users → Users
unfolding user_fields cut
add_user line users =
    if has_prefix line (b'#' ∷ []) || is_empty line
    then users
    else add_fields (user_fields (cut b':' line)) users

unfoldable pub add_users : List Bytes → Users → Users
unfolding add_user
add_users [] users = users
add_users (line ∷ lines) users = add_users lines (add_user line users)

-- `currentPasswdUsers`, from what /etc/passwd holds if it can be read; `none` is the nil map.
unfoldable pub current_passwd_users : Option Bytes → Option Users
unfolding add_users scan_lines
current_passwd_users none = none
current_passwd_users (some content) = some (add_users (scan_lines content) [])

-- A read of a map without comma-ok.
abbrev pub or_zero : Option ℤ → ℤ
or_zero none = pos 0
or_zero (some uid) = uid

unfoldable pub all_match : Users → Users → Bool
all_match [] b = true
all_match ((user, uid) ∷ a) b = int_beq (or_zero (lookup user b)) uid && all_match a b

-- `passwdEqual`.
unfoldable pub passwd_equal : Users → Users → Bool
unfolding all_match
passwd_equal a b = length a == length b && all_match a b

-- The entries whose user the second map lacks.
unfoldable pub missing_from : Users → Users → Users
missing_from known [] = []
missing_from known ((user, uid) ∷ m) =
    let rest = missing_from known m in
    elim (lookup user known) [ none ↦ (user, uid) ∷ rest | some _ ↦ rest ]

user_event :
    Config → EventType → Severity → Confidence → Bytes → (Bytes → Bytes) → ℕ → Bytes × ℤ → Event
user_event c type severity confidence tag id now (user, uid) =
    record (blank_event c.host c.agent (id user) now type Category.threat_activity severity) {
      confidence = confidence;
      actor = some (record no_actor { user = user; uid = uid });
      tags = codes "system" ∷ tag ∷ [];
    }

unfoldable pub user_created : Config → (Bytes → Bytes) → ℕ → Bytes × ℤ → Event
unfolding user_event
user_created c =
    user_event c EventType.system_user_created Severity.critical Confidence.high
      (codes "user_created")

unfoldable pub user_deleted : Config → (Bytes → Bytes) → ℕ → Bytes × ℤ → Event
unfolding user_event
user_deleted c =
    user_event c EventType.system_user_deleted Severity.warning Confidence.medium
      (codes "user_deleted")

-- The variable `snapshot`, and the map that the file passwd_snapshot.json holds, if it can be read.
pub record Watch : Type 0 where
  pub snapshot : Users
  pub saved : Option Users

-- `savePasswdSnapshot` of a map that is not nil; a write that fails leaves the file as it was.
unfoldable pub save_passwd_snapshot : Bool → Users → Option Users → Option Users
save_passwd_snapshot written m saved = if written then some m else saved

start_without : Bool → Option Users → Option Users → Watch
unfolding save_passwd_snapshot
start_without written none saved = record { snapshot = []; saved = saved }
start_without written (some users) saved = record {
  snapshot = users;
  saved = save_passwd_snapshot written users saved;
}

-- `pollPasswd` before its loop.
unfoldable pub start_watch : Bool → Option Bytes → Option Users → Watch
unfolding start_without current_passwd_users
start_watch written passwd none = start_without written (current_passwd_users passwd) none
start_watch written passwd (some m) = record { snapshot = m; saved = some m }

-- A tick with the users of the file.
unfoldable pub compare_users :
    Config → (Bytes → Bytes) → ℕ → Bool → Watch → Option Users → Watch × List Event
unfolding missing_from user_created user_deleted passwd_equal save_passwd_snapshot
compare_users c id now written s none = (s, [])
compare_users c id now written s (some current) = (
  if passwd_equal s.snapshot current
      then s
      else record { snapshot = current; saved = save_passwd_snapshot written current s.saved },
  map (user_created c id now) (missing_from s.snapshot current)
      ++ map (user_deleted c id now) (missing_from current s.snapshot),
)

-- A tick of `pollPasswd`; `id` gives the id of the event about a user.
unfoldable pub poll_passwd :
    Config → (Bytes → Bytes) → ℕ → Bool → Option Bytes → Watch → Watch × List Event
unfolding compare_users current_passwd_users
poll_passwd c id now written passwd s =
    compare_users c id now written s (current_passwd_users passwd)
