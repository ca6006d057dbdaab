-- ===== src/Tests/Network.antt =====
-- Runs of the network collector and of its parts, and the theorems at concrete inputs.
use yomins_agent.Go.Text.{Bytes, codes, bytes_eq}
use yomins_agent.Go.Net.{format_ip4, format_ip6}
use yomins_agent.Go.Hex.Upper.{upper_hex, upper_hex16, upper_digit}
use yomins_agent.Go.Hex.{decode_hex, hex_value, parse_hex16, hex_from}
use yomins_agent.Events.Types.{EventType}
use yomins_agent.Events.Network.{Config, ListenEntry, Proto}
use yomins_agent.Events.Network.ProcNet.{File, scan_listeners, parse_addr, ip_text}
use yomins_agent.Events.Network.ProcNet.Address.{kernel_addr, dotted, parse_addr-kernel_addr}
use yomins_agent.Events.Network.Poll.{poll, start, is_burst, make_scan_detected_event}
use yomins_agent.Events.Network.Poll.News.{new_events}
use yomins_agent.Events.Network.Poll.Life.{Scan, knows, polls, poll_news}
use yomins_agent.Prelude.{
  ℕ, ◌*◌, Bool, Option, none, some, List, [], ◌∷◌, ◌++◌, leb, if◌then◌else◌, ◌≡◌, refl, length,
  arith,
}

loopback :
    format_ip6 (0 ∷ 0 ∷ 0 ∷ 0 ∷ 0 ∷ 0 ∷ 0 ∷ 0 ∷ 0 ∷ 0 ∷ 0 ∷ 0 ∷ 0 ∷ 0 ∷ 0 ∷ 1 ∷ []) ≡ codes "::1"
unfolding format_ip6
loopback = refl

unspecified :
    format_ip6 (0 ∷ 0 ∷ 0 ∷ 0 ∷ 0 ∷ 0 ∷ 0 ∷ 0 ∷ 0 ∷ 0 ∷ 0 ∷ 0 ∷ 0 ∷ 0 ∷ 0 ∷ 0 ∷ []) ≡ codes "::"
unfolding format_ip6
unspecified = refl

documentation :
    format_ip6 (32 ∷ 1 ∷ 13 ∷ 184 ∷ 0 ∷ 0 ∷ 0 ∷ 0 ∷ 0 ∷ 1 ∷ 0 ∷ 0 ∷ 0 ∷ 0 ∷ 0 ∷ 1 ∷ [])
    ≡ codes "2001:db8::1:0:0:1"
unfolding format_ip6
documentation = refl

mapped :
    format_ip6 (0 ∷ 0 ∷ 0 ∷ 0 ∷ 0 ∷ 0 ∷ 0 ∷ 0 ∷ 0 ∷ 0 ∷ 255 ∷ 255 ∷ 127 ∷ 0 ∷ 0 ∷ 1 ∷ [])
    ≡ codes "127.0.0.1"
unfolding format_ip6
mapped = refl

abbrev local : Bytes
local = 127 ∷ 0 ∷ 0 ∷ 1 ∷ []

parse_addr-kernel_addr_example :
    (length local ≡ 4 → parse_addr Proto.tcp (kernel_addr local 8080) ≡ some (dotted local, 8080))
    × (length local ≡ 16
        → parse_addr Proto.tcp6 (kernel_addr local 8080) ≡ some (format_ip6 local, 8080))
parse_addr-kernel_addr_example = parse_addr-kernel_addr local 8080 (omega arith) (omega arith)

printed : kernel_addr (127 ∷ 0 ∷ 0 ∷ 1 ∷ []) 8080 ≡ codes "0100007F:1F90"
unfolding kernel_addr upper_hex upper_hex16 upper_digit
printed = refl

abbrev config : Config
config = record {
  poll_interval = 5_000_000_000;
  scan_delta_threshold = 50;
  scan_multiplier = 2;
  host = record { hostname = codes "web-1"; ip = codes "10.0.0.7" };
  agent = record { name = codes "yomins-agent"; version = codes "1.0.0" };
}

abbrev at_least : ℕ → ℕ → ℕ → Bool
at_least total prev multiplier = leb (prev * multiplier) total

abbrev ids : EventType → Option ListenEntry → Bytes
ids type l = codes "id"

abbrev ssh : ListenEntry
ssh = record { proto = Proto.tcp; local_ip = codes "0.0.0.0"; local_port = 22 }

abbrev web : ListenEntry
web = record { proto = Proto.tcp6; local_ip = codes "::"; local_port = 80 }

abbrev history : List (ℕ × Option Scan)
history = (10, none) ∷ (20, some (ssh ∷ web ∷ [], 30)) ∷ (30, some (ssh ∷ [], 40)) ∷ []

ssh_known :
    start (some (ssh ∷ [], 20)) (record { cfg = config; prev_listen = []; prev_total = 0 })
    ≡ some (knows at_least ids config (ssh ∷ [], 20))
unfolding start
ssh_known = refl

poll_news_example :
    (poll at_least ids 40
      (some (web ∷ ssh ∷ [], 120))
      (polls at_least ids config history (knows at_least ids config (ssh ∷ [], 20)))).1
    ≡ new_events config ids 40 (ssh ∷ []) (web ∷ ssh ∷ [])
      ++ (if is_burst at_least config 40 120
          then make_scan_detected_event config ids 40 ∷ []
          else [])
poll_news_example =
    poll_news at_least ids config (ssh ∷ [], 20) history 40 (web ∷ ssh ∷ [], 120)
      (knows at_least ids config (ssh ∷ [], 20)) ssh_known

proc_net :
    scan_listeners
      (File.holds (
        codes "  sl  local_address rem_address   st\n"
        ++ codes "   0: 0100007F:1F90 00000000:0000 0A\n   1: 0100007F:1F90 0200007F:1234 01\n"))
      File.missing
    ≡ some (record { proto = Proto.tcp; local_ip = codes "127.0.0.1"; local_port = 8080 } ∷ [], 2)
unfolding scan_listeners decode_hex hex_value ip_text parse_hex16 hex_from format_ip4
proc_net = refl
