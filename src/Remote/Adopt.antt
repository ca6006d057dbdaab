-- ===== src/Remote/Adopt.antt =====
-- A local configuration that is valid stays so when a valid remote one is applied.
use yomins_agent.Go.Text.{Bytes, equal, is_empty}
use yomins_agent.Config.{
  Config as LocalConfig, Fault, validate, server_faults, known_mode, known_logs, is_positive,
}
use yomins_agent.Remote.{
  LogsConfig, IntegrationsConfig, EventsConfig, Config, mode_off, in_range, valid_interval,
  is_valid, parsed_in_range, logs_word, set_interval, apply_interval, apply_collectors, apply_logs,
  apply_integrations, apply_events, apply,
}
use yomins_agent.Prelude.Int.{ℤ, pos, negsuc}
use yomins_agent.Prelude.{
  zero, suc, Bool, true, false, ◌&&◌, Option, none, some, List, [], ◌∷◌, ◌++◌, if◌then◌else◌, ◌≡◌,
  refl, arith, inl, inr, Bool-cases,
}

-- What `validate` finds nothing wrong with.
record Sound (c : LocalConfig) : Type 0 where
  server : server_faults c ≡ []
  interval : is_positive c.interval ≡ true
  mode : known_mode c.remote_config ≡ true
  logs : known_logs c.logs ≡ true

append-empty : (xs ys : List Fault) → xs ++ ys ≡ [] → (xs ≡ []) × (ys ≡ [])
append-empty [] ys h = (refl, h)
append-empty (x ∷ xs) ys h = ground arith

no_fault : (b : Bool) (f : Fault) → (if b then [] else f ∷ []) ≡ [] → b ≡ true
no_fault b f h = ground arith

Sound-validate : (c : LocalConfig) → (validate c).1 ≡ [] → Sound c
unfolding validate
Sound-validate c h =
    let (servers, rest) = append-empty (server_faults c) _ h in
    let (interval, more) = append-empty _ _ rest in
    let (mode, logs) = append-empty _ _ more in
    record {
      server = servers;
      interval = no_fault (is_positive c.interval) Fault.bad_interval interval;
      mode = no_fault (known_mode c.remote_config) Fault.bad_remote_config mode;
      logs = no_fault (known_logs c.logs) Fault.bad_logs logs;
    }

validate-Sound : (c : LocalConfig) → Sound c → (validate c).1 ≡ []
unfolding validate
validate-Sound c s = rw (s.server, s.interval, s.mode, s.logs) refl

positive : (d : ℤ) → in_range d ≡ true → is_positive d ≡ true
unfolding in_range
positive (pos zero) h = h
positive (pos (suc n)) h = refl
positive (negsuc n) h = h

set_interval-Sound :
    (o : Option ℤ) (c : LocalConfig) → parsed_in_range o ≡ true → Sound c → Sound (set_interval o c)
unfolding set_interval server_faults
set_interval-Sound none c h s = s
set_interval-Sound (some d) c h s = record {
  server = s.server;
  interval = positive d h;
  mode = s.mode;
  logs = s.logs;
}

apply_interval-Sound :
    (parse_duration : Bytes → Option ℤ) (o : Option Bytes) (c : LocalConfig)
    → valid_interval parse_duration o ≡ true
    → Sound c
    → Sound (apply_interval parse_duration o c)
unfolding apply_interval valid_interval
apply_interval-Sound parse_duration none c h s = s
apply_interval-Sound parse_duration (some t) c h s = set_interval-Sound (parse_duration t) c h s

logs_word-known :
    (o : Option Bool) (old : Bytes) → known_logs old ≡ true → known_logs (logs_word o old) ≡ true
unfolding logs_word known_logs equal is_empty
logs_word-known none old h = h
logs_word-known (some true) old h = refl
logs_word-known (some false) old h = refl

apply_collectors-Sound :
    (o : Option (List Bytes)) (c : LocalConfig) → Sound c → Sound (apply_collectors o c)
unfolding apply_collectors server_faults
apply_collectors-Sound none c s = s
apply_collectors-Sound (some names) c s = record {
  server = s.server;
  interval = s.interval;
  mode = s.mode;
  logs = s.logs;
}

apply_logs-Sound :
    (o : Option LogsConfig) (mode : Bytes) (c : LocalConfig) → Sound c → Sound (apply_logs o mode c)
unfolding apply_logs server_faults
apply_logs-Sound none mode c s = s
apply_logs-Sound (some l) mode c s = record {
  server = s.server;
  interval = s.interval;
  mode = s.mode;
  logs = logs_word-known l.enabled c.logs s.logs;
}

apply_integrations-Sound :
    (o : Option IntegrationsConfig) (mode : Bytes) (c : LocalConfig)
    → Sound c
    → Sound (apply_integrations o mode c)
unfolding apply_integrations server_faults
apply_integrations-Sound none mode c s = s
apply_integrations-Sound (some i) mode c s = record {
  server = s.server;
  interval = s.interval;
  mode = s.mode;
  logs = s.logs;
}

apply_events-Sound :
    (o : Option EventsConfig) (c : LocalConfig) → Sound c → Sound (apply_events o c)
unfolding apply_events server_faults
apply_events-Sound none c s = s
apply_events-Sound (some e) c s = record {
  server = s.server;
  interval = s.interval;
  mode = s.mode;
  logs = s.logs;
}

left : (a b : Bool) → (a && b) ≡ true → a ≡ true
left a b h = ground arith

is_valid-interval :
    (parse_duration : Bytes → Option ℤ) (compiles : Bytes → Bool) (c : Config)
    → is_valid parse_duration compiles c ≡ true
    → valid_interval parse_duration c.interval ≡ true
unfolding is_valid
is_valid-interval parse_duration compiles c h = left _ _ h

-- The agent that runs with a valid remote configuration runs with a valid configuration: where
-- Validate finds nothing wrong with the local one and the remote one is not refused, it finds
-- nothing wrong after the remote one is applied, in any mode.
pub validate-apply :
    (parse_duration : Bytes → Option ℤ) (compiles : Bytes → Bool) (c : Config) (mode : Bytes)
    (cfg : LocalConfig)
    → is_valid parse_duration compiles c ≡ true
    → (validate cfg).1 ≡ []
    → (validate (apply parse_duration c mode cfg)).1 ≡ []
unfolding apply
validate-apply parse_duration compiles c mode cfg v h = elim (Bool-cases (equal mode mode_off)) [
  | inl off ↦ rw off h
  | inr on ↦ rw on (
      validate-Sound _ (
        apply_events-Sound c.events _ (
          apply_integrations-Sound c.integrations mode _ (
            apply_logs-Sound c.logs mode _ (
              apply_collectors-Sound c.disabled_collectors _ (
                apply_interval-Sound parse_duration c.interval cfg
                  (is_valid-interval parse_duration compiles c v) (Sound-validate cfg h)))))))
]
