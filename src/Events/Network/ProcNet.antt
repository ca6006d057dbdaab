-- ===== src/Events/Network/ProcNet.antt =====
-- internal/events/network/proc_net.go: the listening sockets in /proc/net/tcp and tcp6. What the
-- files hold is an argument.
pub mod Address
use yomins_agent.Go.Text.{Bytes, codes, cut, equal, is_empty, trim_space}
use yomins_agent.Go.Fields.{fields}
use yomins_agent.Go.Bufio.{scan_lines, scans_whole}
use yomins_agent.Go.Hex.{decode_hex, parse_hex16}
use yomins_agent.Go.Net.{format_ip4, format_ip6}
use yomins_agent.Go.Strconv.Decimal.{format}
use yomins_agent.Events.Network.{ListenEntry, Proto, proto_text}
use yomins_agent.Prelude.{
  ℕ, suc, ◌+◌, ◌-◌, Bool, true, false, not, ◌&&◌, Option, none, some, List, [], ◌∷◌, ◌++◌, leb,
  ◌==◌, if◌then◌else◌, map,
}

-- `key`.
unfoldable pub key : ListenEntry → Bytes
unfolding proto_text
key e = proto_text e.proto ++ b':' ∷ (e.local_ip ++ b':' ∷ format e.local_port)

-- The text of the address that the four bytes of an IPv4 address stand for, or the sixteen of an
-- IPv6 address.
unfoldable pub ip_text : Proto → Bytes → Option Bytes
ip_text Proto.tcp (a ∷ b ∷ c ∷ d ∷ []) = some (format_ip4 d c b a)
ip_text Proto.tcp6
      (a0 ∷ a1 ∷ a2 ∷ a3 ∷ b0 ∷ b1 ∷ b2 ∷ b3 ∷ c0 ∷ c1 ∷ c2 ∷ c3 ∷ d0 ∷ d1 ∷ d2 ∷ d3 ∷ []) =
    some (
      format_ip6
        (a3 ∷ a2 ∷ a1 ∷ a0 ∷ b3 ∷ b2 ∷ b1 ∷ b0 ∷ c3 ∷ c2 ∷ c1 ∷ c0 ∷ d3 ∷ d2 ∷ d1 ∷ d0 ∷ []))
ip_text _ _ = none

abbrev pub decoded_text : Proto → Option Bytes → Option Bytes
decoded_text proto none = none
decoded_text proto (some bs) = ip_text proto bs

abbrev pub with_port : Option Bytes → Option ℕ → Option (Bytes × ℕ)
with_port (some ip) (some port) = some (ip, port)
with_port _ _ = none

abbrev pub parse_parts : Proto → Option (Bytes × Bytes) → Option (Bytes × ℕ)
parse_parts proto none = none
parse_parts proto (some (ip, port)) =
    with_port (decoded_text proto (decode_hex ip)) (parse_hex16 port)

-- `parseAddr`.
unfoldable pub parse_addr : Proto → Bytes → Option (Bytes × ℕ)
parse_addr proto hex_addr = parse_parts proto (cut b':' hex_addr)

-- `strings.ToUpper` of an ASCII text.
unfoldable pub to_upper : Bytes → Bytes
to_upper s = map (λ c. if leb b'a' c && leb c b'z' then c - 32 else c) s

unfoldable pub listen_entry : Proto → Option (Bytes × ℕ) → List ListenEntry
listen_entry proto none = []
listen_entry proto (some (ip, port)) =
    record { proto = proto; local_ip = ip; local_port = port } ∷ []

-- The entry of a line's fields, if it is a socket that listens and parses.
unfoldable pub line_entries : Proto → List Bytes → List ListenEntry
unfolding parse_addr to_upper listen_entry equal cut
line_entries proto (_ ∷ local ∷ _ ∷ state ∷ _) =
    if equal (to_upper state) (codes "0A") then listen_entry proto (parse_addr proto local) else []
line_entries proto _ = []

-- The loop over the lines behind the header: the entries and the number of lines.
unfoldable pub count_lines : Proto → List Bytes → List ListenEntry × ℕ
unfolding line_entries fields trim_space is_empty
count_lines proto [] = ([], 0)
count_lines proto (raw ∷ lines) =
    let line = trim_space raw in
    let (entries, total) = count_lines proto lines in
    if is_empty line
    then (entries, total)
    else (line_entries proto (fields line) ++ entries, suc total)

abbrev behind_header : List Bytes → List Bytes
behind_header [] = []
behind_header (header ∷ lines) = lines

-- `parseProcNetTCP` of a file that can be opened; `none` is an error of the scanner.
unfoldable pub parse_proc_net_tcp : Proto → Bytes → Option (List ListenEntry × ℕ)
unfolding count_lines scan_lines scans_whole
parse_proc_net_tcp proto content =
    if scans_whole content
    then some (count_lines proto (behind_header (scan_lines content)))
    else none

-- What opening one of the files gives.
pub data File : Type 0 where
  missing unreadable : File
  holds : Bytes → File

-- One round of the loop over the files; `none` is an error other than a file that is not there.
unfoldable pub scan_file : Proto → File → Option (List ListenEntry × ℕ)
unfolding parse_proc_net_tcp
scan_file proto missing = some ([], 0)
scan_file proto unreadable = none
scan_file proto (holds content) = parse_proc_net_tcp proto content

abbrev join_scans :
    Option (List ListenEntry × ℕ) → Option (List ListenEntry × ℕ) → Option (List ListenEntry × ℕ)
join_scans (some (l, m)) (some (k, n)) = some (l ++ k, m + n)
join_scans _ _ = none

-- `scanListeners`, from the files tcp and tcp6.
unfoldable pub scan_listeners : File → File → Option (List ListenEntry × ℕ)
unfolding scan_file
scan_listeners file4 file6 = join_scans (scan_file Proto.tcp file4) (scan_file Proto.tcp6 file6)
