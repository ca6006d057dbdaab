-- ===== src/Events/System/Reboot.antt =====
-- internal/events/system/collector.go: checkReboot and the file last_boot_time, over any number
-- of starts of the agent.
use yomins_agent.Go.Text.{Bytes, codes, trim_space}
use yomins_agent.Go.Strconv.{parse_uint}
use yomins_agent.Go.Strconv.Decimal.{format, format-All, parse_uint-format}
use yomins_agent.Go.Strconv.Trim.{trim_space-digits}
use yomins_agent.Events.Types.{Event, EventType, Category, Severity, blank_event}
use yomins_agent.Go.Os.{Write, written}
use yomins_agent.Events.System.{Config}
use yomins_agent.Prelude.{
  ℕ, ◌+◌, ◌*◌, ◌^◌, ◌<◌, Option, none, some, List, [], ◌∷◌, ltb, if◌then◌else◌, ◌≡◌, refl, ap, ◌∙◌,
}

-- `time.Unix(int64(t), 0)` in nanoseconds since Go's zero time, for a `t` below 2^63.
unfoldable pub unix_time : ℕ → ℕ
unix_time t = (62_135_596_800 + t) * 1_000_000_000

unfoldable pub reboot_event : Config → Bytes → ℕ → Event
unfolding unix_time
reboot_event c id t =
    record (blank_event c.host c.agent id (unix_time t) EventType.system_reboot
      Category.system_check Severity.warning) { tags = codes "system" ∷ codes "reboot" ∷ [] }

-- `loadBootTime`, from what the path holds.
unfoldable pub load_boot_time : Option Bytes → Option ℕ
load_boot_time none = none
load_boot_time (some s) = parse_uint (trim_space s)

-- `saveBootTime`.
unfoldable pub save_boot_time : Write → ℕ → Option Bytes
save_boot_time w t = written w (format t)

unfoldable pub reboot_since : Config → Bytes → ℕ → Option ℕ → Option Event
reboot_since c id t none = none
reboot_since c id t (some prev) = if ltb prev t then some (reboot_event c id t) else none

-- `checkReboot`: what the path holds afterwards, and the event.
unfoldable pub check_reboot :
    Config → Bytes → Option ℕ → Write → Option Bytes → Option Bytes × Option Event
unfolding load_boot_time save_boot_time reboot_since
check_reboot c id none w file = (file, none)
check_reboot c id (some t) w file = (save_boot_time w t, reboot_since c id t (load_boot_time file))

-- Starts of the agent one after another, each with the boot time that it reads, if it can; the
-- writes succeed. What the path holds afterwards.
unfoldable pub starts : Config → List (Bytes × Option ℕ) → Option Bytes → Option Bytes
starts c [] file = file
starts c ((id, t) ∷ more) file = starts c more (check_reboot c id t Write.done file).0

-- The last boot time that was read.
abbrev pub last_read : Option ℕ → List (Bytes × Option ℕ) → Option ℕ
last_read last [] = last
last_read last ((id, none) ∷ more) = last_read last more
last_read last ((id, some t) ∷ more) = last_read (some t) more

abbrev pub All64 : List (Bytes × Option ℕ) → Type 0
All64 [] = Unit
All64 ((id, none) ∷ more) = All64 more
All64 ((id, some t) ∷ more) = (t < 2 ^ 64) × All64 more

load-format : (t : ℕ) → t < 2 ^ 64 → load_boot_time (some (format t)) ≡ some t
unfolding load_boot_time
load-format t h = rw (trim_space-digits (format t) (format-All t)) (parse_uint-format t h)

load-starts :
    (c : Config) (history : List (Bytes × Option ℕ)) (file : Option Bytes)
    → All64 history
    → load_boot_time (starts c history file) ≡ last_read (load_boot_time file) history
unfolding starts check_reboot save_boot_time
load-starts c [] file h = refl
load-starts c ((id, none) ∷ more) file h = load-starts c more file h
load-starts c ((id, some t) ∷ more) file (h, hs) =
    load-starts c more (some (format t)) hs ∙ ap (λ last. last_read last more) (load-format t h)

-- On a first start nothing is stored. After any starts whose writes succeed, a start that reads a
-- boot time raises the event exactly when the last boot time that a start read is smaller, and
-- raises none when no start read one.
pub reboot-history :
    (c : Config) (history : List (Bytes × Option ℕ)) (id : Bytes) (t : ℕ) (w : Write)
    → All64 history
    → (check_reboot c id (some t) w (starts c history none)).1 ≡ elim (last_read none history) [
      | none ↦ none
      | some prev ↦ if ltb prev t then some (reboot_event c id t) else none
    ]
unfolding check_reboot reboot_since
reboot-history c history id t w h =
    ap (reboot_since c id t) (load-starts c history none h) ∙ by (last_read none history)
  where
    by :
        (last : Option ℕ)
        → reboot_since c id t last ≡ elim last [
          | none ↦ none
          | some prev ↦ if ltb prev t then some (reboot_event c id t) else none
        ]
    by none = refl
    by (some prev) = refl
