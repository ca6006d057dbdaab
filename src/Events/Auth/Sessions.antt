-- ===== src/Events/Auth/Sessions.antt =====
-- internal/events/auth/collector.go: runWtmp, which turns the records of wtmp into logins and
-- logouts and keeps a cursor. A tick has one time; reopening a rotated file succeeds.
pub mod Once
pub mod Life
pub mod Ends
use yomins_agent.Go.Text.{Bytes, codes, is_empty, trim_space}
use yomins_agent.Go.Os.{Write, written}
use yomins_agent.Go.Strconv.{atoi}
use yomins_agent.Go.Strconv.Decimal.{format}
use yomins_agent.Events.Types.{
  Event, EventType, Category, Severity, no_actor, no_context, blank_event,
}
use yomins_agent.Events.Auth.{Config, Collector}
use yomins_agent.Events.Auth.Origin.{Address, check_new_ip}
use yomins_agent.Events.Auth.Wtmp.{ParsedRecord, utmp_record_size, parse_record}
use yomins_agent.Prelude.Int.{ℤ, pos, negsuc, int_beq, add_nat}
use yomins_agent.Prelude.{
  ℕ, zero, suc, ◌+◌, ◌-◌, Bool, true, false, Option, none, some, List, [], ◌∷◌, ◌++◌, leb, ◌==◌,
  if◌then◌else◌, length, take, drop,
}

-- `makeLoginEvent`.
unfoldable pub make_login_event : Config → Bytes → ParsedRecord → Event
make_login_event c id rec =
    record (blank_event c.host c.agent id rec.timestamp EventType.auth_login_success
      Category.access_event Severity.info) {
        actor = some (record no_actor { user = rec.user });
        context = some (record no_context { tty = rec.tty; remote_ip = rec.host });
        tags = codes "auth" ∷ codes "login" ∷ [];
      }

-- `makeLogoutEvent`.
unfoldable pub make_logout_event : Config → Bytes → ParsedRecord → Event
make_logout_event c id rec =
    record (blank_event c.host c.agent id rec.timestamp EventType.auth_logout Category.access_event
      Severity.info) {
        actor = some (record no_actor { user = rec.user });
        context = some (record no_context { tty = rec.tty });
        tags = codes "auth" ∷ codes "logout" ∷ [];
      }

-- `FormatInt`.
unfoldable pub format_int : ℤ → Bytes
format_int (pos n) = format n
format_int (negsuc n) = b'-' ∷ format (n + 1)

-- `loadWtmpCursor`, from what the path holds.
unfoldable pub load_wtmp_cursor : Option Bytes → Option ℤ
load_wtmp_cursor none = none
load_wtmp_cursor (some s) = atoi (trim_space s)

-- The variables of `runWtmp`: the cursor, the offset of the open file, and its inode; and what the
-- file wtmp_cursor holds.
pub record Reader : Type 0 where
  pub cursor : ℤ
  pub offset : ℕ
  pub inode : ℕ
  pub saved : Option Bytes

-- `saveWtmpCursor`.
unfoldable pub save_wtmp_cursor : Write → Reader → Reader
save_wtmp_cursor write w = record w { saved = written write (format_int w.cursor) }

-- `runWtmp` before its loop, with the size of the file: the cursor, and where the seeks lead.
unfoldable pub start_at : ℕ → ℕ → Option Bytes → Option ℤ → Reader
start_at size inode saved none = record {
  cursor = pos size;
  offset = size;
  inode = inode;
  saved = saved;
}
start_at size inode saved (some (negsuc n)) = record {
  cursor = negsuc n;
  offset = size;
  inode = inode;
  saved = saved;
}
start_at size inode saved (some (pos zero)) = record {
  cursor = pos size;
  offset = size;
  inode = inode;
  saved = saved;
}
start_at size inode saved (some (pos (suc n))) = record {
  cursor = pos (suc n);
  offset = suc n;
  inode = inode;
  saved = saved;
}

unfoldable pub start_reader : ℕ → ℕ → Option Bytes → Reader
unfolding start_at
start_reader size inode saved = start_at size inode saved (load_wtmp_cursor saved)

-- A changed inode reopens the file from its start.
unfoldable pub rotate : Option ℕ → Reader → Reader
rotate none w = w
rotate (some inode) w =
    if inode == w.inode then w else record w { cursor = pos 0; offset = 0; inode = inode }

abbrev pub with_second : Event → Collector × Option Event → Collector × List Event
with_second ev (s, none) = (s, ev ∷ [])
with_second ev (s, some more) = (s, ev ∷ more ∷ [])

-- `id` gives the id of the event of a type about the record that ends at a cursor, and `writes`
-- says whether a file can be written.
module _ (parse_ip : Bytes → Option Address) (c : Config) (id : EventType → ℤ → Bytes) (now : ℕ)
    (writes : Bool) where
  -- The switch over the type of a record.
  unfoldable pub handle_record : ℤ → Option ParsedRecord → Collector → Collector × List Event
  unfolding make_login_event make_logout_event
  handle_record cursor none s = (s, [])
  handle_record cursor (some rec) s =
      if int_beq rec.type (pos 7)
      then (if is_empty rec.user
          then (s, [])
          else with_second (make_login_event c (id EventType.auth_login_success cursor) rec) (
              check_new_ip parse_ip c (id EventType.auth_login_new_ip cursor) writes rec.user
                rec.host now s))
      else if int_beq rec.type (pos 8)
      then (if is_empty rec.tty
          then (s, [])
          else (s, make_logout_event c (id EventType.auth_logout cursor) rec ∷ []))
      else (s, [])

  -- The inner loop over the records that are there; `ReadFull` takes what is left too when it is no
  -- whole record. The length of the rest is fuel enough.
  unfoldable pub read_records : ℕ → Bytes → Reader → Collector → (Reader × Collector) × List Event
  read_records zero rest w s = ((w, s), [])
  read_records (suc fuel) rest w s =
      let cursor = add_nat w.cursor utmp_record_size in
      let (s', evs) = handle_record cursor (parse_record now (take utmp_record_size rest)) s in
      let more : (Reader × Collector) × List Event =
        read_records fuel (drop utmp_record_size rest)
          (record w { cursor = cursor; offset = w.offset + utmp_record_size }) s' in
      if leb utmp_record_size (length rest)
      then (more.0, evs ++ more.1)
      else ((record w { offset = w.offset + length rest }, s), [])

  -- A tick: `inode` is that of the path, if it can be had, and `content` what the file that is open
  -- after the check for rotation holds.
  unfoldable pub read_wtmp :
      Option ℕ → Bytes → Write → Reader × Collector → (Reader × Collector) × List Event
  read_wtmp inode content write (w, s) =
      let opened = rotate inode w in
      let rest = drop opened.offset content in
      let r = read_records (suc (length rest)) rest opened s in
      ((save_wtmp_cursor write r.0.0, r.0.1), r.1)
