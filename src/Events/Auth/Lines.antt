-- ===== src/Events/Auth/Lines.antt =====
-- internal/events/auth/collector.go: what a line of the auth log gives. The three regular
-- expressions are parameters, from a line to the groups of its first match.
use yomins_agent.Go.Text.{Bytes, codes, is_empty, trim_right, trim_space}
use yomins_agent.Events.Types.{
  Event, EventType, Category, Severity, ActorInfo, no_actor, no_context, blank_event,
}
use yomins_agent.Prelude.{
  ℕ, Bool, true, false, ◌||◌, Option, none, some, List, [], ◌∷◌, ◌==◌, if◌then◌else◌, ◌≡◌,
}
use yomins_agent.Events.Auth.{Config, Collector, check_bruteforce}

failed_event : Config → Bytes → ℕ → Bytes → Bytes → Bytes → Bytes → Event
failed_event c id now user ip method reason =
    record (blank_event c.host c.agent id now EventType.auth_login_failed Category.access_event
      Severity.warning) {
        actor = some (record no_actor { user = user; ip = ip; method = method });
        context = some (record no_context { reason = reason; service = codes "sshd" });
        tags = codes "auth" ∷ codes "failed_login" ∷ [];
      }

unfoldable pub sudo_event : Config → Bytes → ℕ → Bytes → Bytes → Event
sudo_event c id now user command =
    record (blank_event c.host c.agent id now EventType.auth_sudo Category.access_event
      Severity.warning) {
        actor =
            some (record no_actor { user = user; target_user = codes "root"; command = command });
        tags = codes "auth" ∷ codes "sudo" ∷ [];
      }

abbrev is_login_failed : EventType → Bool
is_login_failed EventType.auth_login_failed = true
is_login_failed _ = false

-- `ev.Type == events.EventAuthLoginFailed`, with the actor that such an event has.
failed_actor : Event → Option ActorInfo
failed_actor ev = if is_login_failed ev.type then ev.actor else none

is_line_end : ℕ → Bool
is_line_end c = c == b'\r' || c == b'\n'

-- What `runAuthLog` does with the event of a line.
handle_event : Config → Bytes → ℕ → Option Event → Collector → Collector × List Event
handle_event c alert_id now none s = (s, [])
handle_event c alert_id now (some ev) s = elim (failed_actor ev) [
  | none ↦ (s, ev ∷ [])
  | some actor ↦
      let (s', alert) = check_bruteforce c alert_id actor.user actor.ip now s in
      (s', ev ∷ elim alert [ none ↦ [] | some bf ↦ bf ∷ [] ])
]

module _ (re_login_failed : Bytes → Option (Bytes × Bytes × Bytes))
    (re_invalid_user : Bytes → Option (Bytes × Bytes))
    (re_sudo : Bytes → Option (Bytes × Bytes)) where
  sudo_line : Config → Bytes → ℕ → Bytes → Option Event
  sudo_line c id now line = elim (re_sudo line) [
    | none ↦ none
    | some (user, command) ↦ some (sudo_event c id now (trim_space user) (trim_space command))
  ]

  invalid_user_line : Config → Bytes → ℕ → Bytes → Option Event
  invalid_user_line c id now line = elim (re_invalid_user line) [
    | none ↦ sudo_line c id now line
    | some (user, ip) ↦
        some (failed_event c id now user ip (codes "preauth") (codes "invalid_user"))
  ]

  -- `parseAuthLogLine`.
  unfoldable pub parse_auth_log_line : Config → Bytes → ℕ → Bytes → Option Event
  unfolding sudo_line invalid_user_line failed_event sudo_event
  parse_auth_log_line c id now line = elim (re_login_failed line) [
    | none ↦ invalid_user_line c id now line
    | some (method, user, ip) ↦
        some (failed_event c id now user ip method (codes "invalid_password"))
  ]

  -- The body of the reading loop of `runAuthLog` for one line as `ReadString` returns it; `id`
  -- and `alert_id` are the ids that the events get.
  unfoldable pub handle_line :
      Config → Bytes → Bytes → ℕ → Bytes → Collector → Collector × List Event
  unfolding parse_auth_log_line handle_event failed_actor is_line_end trim_right
  handle_line c id alert_id now line s =
      if is_empty line
      then (s, [])
      else handle_event c alert_id now (parse_auth_log_line c id now (trim_right is_line_end line))
          s

-- The event that names this user and this address.
abbrev Names : Bytes → Bytes → Event → Type 0
Names user ip ev =
    (actor : ActorInfo) × (ev.actor ≡ some actor) × (actor.user ≡ user) × (actor.ip ≡ ip)

-- What a line can give: nothing, with the tracker as it was; an event that is no failed login; a
-- failed login, counted once under its own user and address, without an alert or before one.
pub data LineResult (c : Config) (alert_id : Bytes) (now : ℕ) (s : Collector)
    : Collector × List Event → Type 0 where
  no_event : LineResult c alert_id now s (s, [])
  other_event :
      (ev : Event) → ev.type ≡ EventType.auth_sudo → LineResult c alert_id now s (s, ev ∷ [])
  failure :
      (t : Collector) (ev : Event) (user ip : Bytes)
      → ev.type ≡ EventType.auth_login_failed
      → Names user ip ev
      → check_bruteforce c alert_id user ip now s ≡ (t, none)
      → LineResult c alert_id now s (t, ev ∷ [])
  alert :
      (t : Collector) (ev bf : Event) (user ip : Bytes)
      → ev.type ≡ EventType.auth_login_failed
      → Names user ip ev
      → check_bruteforce c alert_id user ip now s ≡ (t, some bf)
      → LineResult c alert_id now s (t, ev ∷ bf ∷ [])

data Parsed : Option Event → Type 0 where
  nothing : Parsed none
  failed :
      (c : Config) (id : Bytes) (now : ℕ) (user ip method reason : Bytes)
      → Parsed (some (failed_event c id now user ip method reason))
  sudo :
      (c : Config) (id : Bytes) (now : ℕ) (user command : Bytes)
      → Parsed (some (sudo_event c id now user command))
