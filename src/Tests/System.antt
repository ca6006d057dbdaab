-- ===== src/Tests/System.antt =====
-- Runs of the system collector, and the theorems about it at concrete inputs.
use yomins_agent.Go.Text.{Bytes, codes, equal, bytes_eq, has_prefix, is_empty, cut}
use yomins_agent.Go.Bufio.{scan_lines}
use yomins_agent.Go.Strconv.{atoi}
use yomins_agent.Go.Hex.{hex}
use yomins_agent.Events.System.{Config}
use yomins_agent.Events.System.Users.{
  Users, Watch, add_users, poll_passwd, user_created, user_deleted,
}
use yomins_agent.Events.System.Users.Quiet.{users_of, poll_passwd_settles}
use yomins_agent.Events.System.Files.{
  Disk, start_file_watch, poll_file_state, hash_file, default_monitored_files, baseline, track,
  compare_file, check_files, save_file_state, load_file_state, config_modified,
}
use yomins_agent.Events.System.Files.History.{Tick, ticks, last_hash, first_hash, modified_history}
use yomins_agent.Events.System.Files.Modified.{modified_events, hash_at, kept}
use yomins_agent.Prelude.Int.{pos}
use yomins_agent.Prelude.Map.{lookup, insert, Unique}
use yomins_agent.Prelude.{
  ◌≡◌, ◌≢◌, refl, ℕ, true, Option, none, some, List, [], ◌∷◌, ◌++◌, arith, if◌then◌else◌,
}

abbrev config : Config
config = record {
  monitor_config_files = true;
  host = record { hostname = codes "web-1"; ip = codes "10.0.0.7" };
  agent = record { name = codes "yomins-agent"; version = codes "1.0.0" };
}

abbrev boots : List (Bytes × Option ℕ)
boots = (codes "a", some 1_700_000_000) ∷ (codes "b", none) ∷ []

abbrev event_id : Bytes → Bytes
event_id user = codes "id-" ++ user

abbrev passwd : Bytes
passwd =
    codes "root:x:0:0:root:/root:/bin/sh\n# no line\n"
    ++ codes "bob:x:1000:1000::/home/bob:/bin/sh\n"

abbrev old_users : Users
old_users = (codes "root", pos 0) ∷ (codes "eve", pos 1001) ∷ []

abbrev watch : Watch
watch = record { snapshot = old_users; saved = none }

two_users : users_of passwd ≡ (codes "root", pos 0) ∷ (codes "bob", pos 1000) ∷ []
unfolding add_users scan_lines atoi has_prefix is_empty cut insert equal
two_users = refl

bob_for_eve :
    (poll_passwd config event_id 7 true (some passwd) watch).1
    ≡ user_created config event_id 7 (codes "bob", pos 1000)
      ∷ user_deleted config event_id 7 (codes "eve", pos 1001)
      ∷ []
unfolding poll_passwd atoi has_prefix is_empty cut insert equal lookup
bob_for_eve = refl

roots_stay : (k : Bytes) → lookup k old_users ≡ some (pos 0) → lookup k (users_of passwd) ≢ none
unfolding add_users scan_lines atoi has_prefix is_empty cut insert equal lookup
roots_stay k h = ground arith

watch-Unique : Unique watch.snapshot
unfolding lookup equal
watch-Unique = (refl, (refl, tt))

poll_passwd_settles_example :
    (poll_passwd config event_id 8 true
      (some passwd)
      (poll_passwd config event_id 7 true (some passwd) watch).0).1
    ≡ []
poll_passwd_settles_example =
    poll_passwd_settles config event_id event_id 7 8 true true passwd watch watch-Unique roots_stay

abbrev toor : Bytes
toor = codes "toor:x:0:0:root:/root:/bin/sh\n" ++ codes "bob:x:1000:1000::/home/bob:/bin/sh\n"

abbrev bob : Users
bob = (codes "bob", pos 1000) ∷ []

-- A hash that is the content itself, and files that hold one byte.
abbrev sum : Bytes → Bytes
sum s = s

abbrev holds : ℕ → Disk
holds b path =
    if equal path (codes "/etc/group")
    then some (record { content = b ∷ []; mod_time = pos 5; size = 1 })
    else none

abbrev tick : ℕ → ℕ → Tick
tick b now = record { id = event_id; now = now; disk = holds b; written = true }

modified_history_example :
    (poll_file_state sum config event_id 30 (holds 9) true (
      ticks sum config
        (tick 7 10 ∷ tick 9 20 ∷ [])
        (start_file_watch sum (holds 7) true none))).1.events
    ≡ modified_events sum config event_id 30
        (holds 9)
        (λ path.
          last_hash sum config
            (tick 7 10 ∷ tick 9 20 ∷ [])
            path
            (first_hash (kept (load_file_state none) path) (hash_at sum (holds 7) path)))
        default_monitored_files
modified_history_example =
    modified_history sum config (holds 7) true none (tick 7 10 ∷ tick 9 20 ∷ []) (tick 9 30)

group_modified :
    (poll_file_state sum config event_id 20
      (holds 9)
      true
      (ticks sum config (tick 7 10 ∷ []) (start_file_watch sum (holds 7) true none))).1.events
    ≡ config_modified config event_id 20 (codes "/etc/group") ∷ []
unfolding poll_file_state ticks start_file_watch baseline track hash_file hex compare_file
    check_files save_file_state load_file_state default_monitored_files lookup insert equal
group_modified = refl
