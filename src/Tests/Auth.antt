-- ===== src/Tests/Auth.antt =====
-- internal/events/auth/collector.go: two failed logins, a cleanup and a third one, and a user who
-- changes the address.
use yomins_agent.Go.Text.{equal, Bytes, codes}
use yomins_agent.Prelude.{if◌then◌else◌, ◌≡◌, refl, List, [], ◌∷◌, Option, none, some, arith, true}
use yomins_agent.Events.Auth.{Config, Collector, new_entry, record_attempt}
use yomins_agent.Events.Auth.Window.{alerts}
use yomins_agent.Events.Auth.Cleanup.{
  Happening, fails, cleans, alerts_of, alerts_uncleaned, cleanup_changes_nothing,
}
use yomins_agent.Events.Auth.Origin.{Address, v4, Login}

abbrev pub twice : Config
twice = record {
  threshold = 2;
  window = 30;
  suppression = 100;
  ignore_private_ip = true;
  has_state_dir = true;
  host = record { hostname = codes "web"; ip = codes "10.0.0.2" };
  agent = record { name = codes "yomins"; version = codes "1.2.3" };
}

abbrev pub idle_auth : Collector
idle_auth = record { bf_tracker = []; last_ip_by_user = []; saved_last_ip = [] }

abbrev pub eve : Bytes
eve = codes "eve"

abbrev remote : Bytes
remote = codes "9.9.9.9"

abbrev other_remote : Bytes
other_remote = codes "8.8.8.8"

-- The second attempt is the alert, the third one is suppressed, the fourth stands alone.
alerts-twice : alerts twice (10 ∷ 20 ∷ 21 ∷ 200 ∷ 201 ∷ []) new_entry ≡ 20 ∷ 201 ∷ []
unfolding alerts record_attempt
alerts-twice = refl

second_alerts : (record_attempt twice 20 (record new_entry { attempts = 10 ∷ [] })).1 ≡ true
unfolding record_attempt
second_alerts = refl

abbrev night : List Happening
night =
    fails (codes "a") eve remote 10
    ∷ fails (codes "b") eve remote 20
    ∷ cleans 60
    ∷ fails (codes "c") eve remote 70
    ∷ []

cleanup_changes_nothing_example :
    alerts_of twice night idle_auth ≡ alerts_uncleaned twice night idle_auth
cleanup_changes_nothing_example = cleanup_changes_nothing twice night idle_auth (ground arith) tt

abbrev match_password : Bytes → Option (Bytes × Bytes × Bytes)
match_password line = some (codes "password", eve, remote)

abbrev match_none : Bytes → Option (Bytes × Bytes)
match_none line = none

abbrev parse_two : Bytes → Option Address
parse_two ip = if equal ip remote then some (v4 9 9 9 9) else some (v4 8 8 8 8)

abbrev login_from : Bytes → Login
login_from ip = record { user = eve; ip = ip; now = 10; id = codes "a"; writes = true }
