-- ===== src/Remote/Fetch.antt =====
-- internal/remote/fetch.go, Load and Save of remote.go, and what main.go makes of the stored
-- configuration at a start. encoding/json is a parameter. A wait is not cut short by the end of the
-- agent. The file on disk changes only by a rename.
pub mod Settles
use yomins_agent.Go.Text.{Bytes, codes, equal, is_empty}
use yomins_agent.Remote.{Config, Stored, is_valid, mode_off}
use yomins_agent.Prelude.Int.{ℤ}
use yomins_agent.Prelude.{
  ℕ, ◌+◌, max, Bool, true, false, not, ◌&&◌, ◌||◌, Option, none, some, List, [], ◌∷◌, ◌==◌, take,
  if◌then◌else◌,
}

abbrev pub empty_config : Config
empty_config = record {
  interval = none;
  disabled_collectors = none;
  logs = none;
  integrations = none;
  events = none;
}

-- Of the fields of `Fetcher` those that change, with the version of `Info` and what the file
-- remote_config.json holds.
pub record Fetcher : Type 0 where
  pub current : Bytes
  pub applied : Config
  pub info : Bytes
  pub saved : Option Bytes

-- The answer to one request: the status and the body, or none. `writes` says that the write and
-- the rename succeed.
pub record Poll : Type 0 where
  pub now : ℕ
  pub paused : Bool
  pub answer : Option (ℕ × Bytes)
  pub writes : Bool

-- The parts of encoding/json: Marshal and Unmarshal of what is stored, the first value that a
-- Decoder reads, and Marshal of a configuration.
pub record Json : Type 0 where
  pub marshal : Stored → Option Bytes
  pub unmarshal : Bytes → Option Stored
  pub first : Bytes → Option Stored
  pub marshal_config : Config → Option Bytes

-- The test on the version that is empty.
unfoldable pub with_version : Option Stored → Option Stored
unfolding is_empty
with_version none = none
with_version (some s) = if is_empty s.version then none else some s

abbrev pub fetcher_of : Option Bytes → Option Stored → Fetcher
fetcher_of disk none = record { current = []; applied = empty_config; info = []; saved = disk }
fetcher_of disk (some s) = record {
  current = s.version;
  applied = s.config;
  info = s.version;
  saved = disk;
}

module _ (json : Json) where
  -- `Load`.
  unfoldable pub load : Option Bytes → Option Stored
  unfolding with_version
  load none = none
  load (some b) = with_version (json.unmarshal b)

  abbrev pub same_text : Option Bytes → Option Bytes → Bool
  same_text (some a) (some b) = equal a b
  same_text (some a) none = false
  same_text none b = false

  -- `sameEffect`.
  unfoldable pub same_effect : Config → Config → Bool
  same_effect a b = same_text (json.marshal_config a) (json.marshal_config b)

  -- `check` up to the stored configuration that an answer holds; a mebibyte is read at most.
  unfoldable pub fetched : Bool → Option (ℕ × Bytes) → Option Stored
  unfolding with_version
  fetched paused none = none
  fetched paused (some (status, body)) =
      if paused
      then none
      else if status == 200
      then with_version (json.first (take 1_048_576 body))
      else none

  -- `Save` and the end of `check`.
  unfoldable pub save : Bool → Fetcher → Stored → Option Bytes → Fetcher × Option Stored
  save writes f s none = (f, none)
  save writes f s (some b) = if writes then (record f { saved = some b }, some s) else (f, none)

  module _ (parse_duration : Bytes → Option ℤ) (compiles : Bytes → Bool) where
    unfoldable pub adopt : Bool → Fetcher → Option Stored → Fetcher × Option Stored
    unfolding save
    adopt writes f none = (f, none)
    adopt writes f (some s) =
        if equal s.version f.current
        then (f, none)
        else if is_valid parse_duration compiles s.config
        then save writes f s (json.marshal s)
        else (f, none)

    -- `check`.
    unfoldable pub check : Poll → Fetcher → Fetcher × Option Stored
    unfolding fetched adopt
    check p f = adopt p.writes f (fetched p.paused p.answer)

    -- `Run`: the loop over the polls, and the version that it restarts the agent for, with the time.
    module _ (started min_uptime : ℕ) where
      -- The body of the loop behind `check`, with the rounds that follow.
      unfoldable pub after_check :
          ℕ
          → (Fetcher → Fetcher × Option (Bytes × ℕ))
          → Fetcher × Option Stored
          → Fetcher × Option (Bytes × ℕ)
      after_check now go (f, none) = go f
      after_check now go (f, some s) =
          if same_effect s.config f.applied
          then go (record f { current = s.version; info = s.version })
          else (f, some (s.version, max now (started + min_uptime)))

      unfoldable pub run : List Poll → Fetcher → Fetcher × Option (Bytes × ℕ)
      unfolding after_check
      run [] f = (f, none)
      run (p ∷ ps) f = after_check p.now (run ps) (check p f)

      unfoldable pub run_in_mode : Bytes → List Poll → Fetcher → Fetcher × Option (Bytes × ℕ)
      unfolding run
      run_in_mode mode ps f = if equal mode mode_off then (f, none) else run ps f

    unfoldable pub applied_at_start : Bytes → Option Stored → Option Stored
    applied_at_start mode none = none
    applied_at_start mode (some s) =
        if equal mode mode_off
        then none
        else if is_valid parse_duration compiles s.config
        then some s
        else none

    -- The fetcher of an agent that starts with what the file holds.
    unfoldable pub boot : Bytes → Option Bytes → Fetcher
    unfolding load applied_at_start
    boot mode disk = fetcher_of disk (applied_at_start mode (load disk))
