-- ===== src/Tests/Sessions.antt =====
-- Runs of the wtmp reader, and the theorems about it at concrete inputs.
use yomins_agent.Go.Text.{Bytes, codes}
use yomins_agent.Go.Binary.{packed, le_bytes}
use yomins_agent.Events.Types.{EventType}
use yomins_agent.Events.Auth.Origin.{Address}
use yomins_agent.Events.Auth.Wtmp.{parse_record, unix_micro}
use yomins_agent.Events.Auth.Wtmp.Layout.{Utmp, IsUtmp, utmp_fields, padded, parse_record-utmp}
use yomins_agent.Events.Auth.Sessions.Life.{WtmpStep, run_wtmp, handled_once, caught_up, wtmp_once}
use yomins_agent.Events.Auth.Sessions.{read_records}
use yomins_agent.Events.Auth.Sessions.Ends.{read_records_ends}
use yomins_agent.Tests.Auth.{twice, idle_auth}
use yomins_agent.Prelude.Int.{ℤ, pos}
use yomins_agent.Prelude.{
  ℕ, ◌+◌, true, Option, none, some, List, [], ◌∷◌, replicate, length, ◌≡◌, refl, arith,
}

abbrev zeros : ℕ → Bytes
zeros n = replicate n 0

-- A login of eve at the start of 2024, and the end of a session.
abbrev login : Utmp
login = record {
  type = 7;
  padding = zeros 2;
  pid = 812;
  line = codes "pts/0";
  id = codes "ts/0";
  user = codes "eve";
  host = codes "198.51.100.7";
  exit = zeros 4;
  session = zeros 4;
  sec = 1_704_067_200;
  usec = 250_000;
  addr = zeros 16;
  unused = zeros 20;
}

abbrev logout : Utmp
logout = record login { type = 8; user = []; host = []; sec = 100 }

login-IsUtmp : IsUtmp login
login-IsUtmp = record {
  type = omega arith;
  padding = refl;
  pid = omega arith;
  line_length = omega arith;
  line = ground arith;
  id = refl;
  user_length = omega arith;
  user = ground arith;
  host_length = omega arith;
  host = ground arith;
  exit = refl;
  session = refl;
  sec = omega arith;
  usec = omega arith;
  addr = refl;
  unused = refl;
}

parse_record-utmp_example :
    parse_record 5 (packed (utmp_fields login))
    ≡ some (record {
      type = pos 7;
      pid = pos 812;
      tty = codes "pts/0";
      user = codes "eve";
      host = codes "198.51.100.7";
      timestamp = unix_micro 1_704_067_200 (pos 250_000);
    })
parse_record-utmp_example = parse_record-utmp 5 login login-IsUtmp

abbrev no_address : Bytes → Option Address
no_address ip = none

abbrev ids : EventType → ℤ → Bytes
ids type cursor = codes "id"

unfoldable login_bytes : Bytes
login_bytes = packed (utmp_fields login)

unfoldable logout_bytes : Bytes
logout_bytes = packed (utmp_fields logout)

abbrev steps : List WtmpStep
steps =
    WtmpStep.ticked 10 true (login_bytes ∷ [])
    ∷ WtmpStep.restarted
    ∷ WtmpStep.rotated 20 true 8 (logout_bytes ∷ login_bytes ∷ [])
    ∷ []

login_whole : length login_bytes ≡ 384
unfolding login_bytes utmp_fields padded le_bytes
login_whole = refl

logout_whole : length logout_bytes ≡ 384
unfolding logout_bytes utmp_fields padded le_bytes
logout_whole = refl

wtmp_once_example :
    run_wtmp no_address twice ids steps (zeros 384) (caught_up 3 384, idle_auth)
    ≡ handled_once no_address twice ids steps 384 idle_auth
wtmp_once_example = wtmp_once no_address twice ids steps (zeros 384) 3 384 idle_auth refl (
  (login_whole, tt),
  ((omega arith, (omega arith, (refl, ((logout_whole, (login_whole, tt)), tt))))),
)

-- A file of less than a record, which the loop takes and forgets.
read_records_ends_example :
    ((read_records no_address twice ids 7 true 11 (zeros 10) (caught_up 3 384) idle_auth).0.0.offset
      ≡ 384 + 10)
    × (read_records no_address twice ids 7 true 12 (zeros 10) (caught_up 3 384) idle_auth
        ≡ read_records no_address twice ids 7 true 11 (zeros 10) (caught_up 3 384) idle_auth)
read_records_ends_example =
    read_records_ends no_address twice ids 7 true 11 12 (zeros 10) (caught_up 3 384) idle_auth
      (omega arith) (omega arith)
