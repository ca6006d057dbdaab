-- ===== src/Lib.antt =====
-- yomins-agent: the monitoring agent of a host. It samples metrics on a ticker, watches the host
-- for security events, follows log files, and pushes all three to an ingest server.
--
-- How the parts interact: the event collectors feed a ring buffer (internal/events), which the
-- event transport drains and posts in batches; the metrics, events and logs transports
-- (internal/transport) share one session, which stops them all while the server refuses the agent.
--
-- The files, by the part of the repository that they model:
-- - Prelude: shared names, Boolean tests, lists over native numbers, int64, maps. Go: what the
--   source uses of Go's packages strings and strconv, over the bytes of a text.
-- - Events/Types: internal/events/types.go. Events/Ring: internal/events/buffer.go, with the
--   queue that it refines (Queue), its invariant (Valid), the refinement (Refine, Client) and
--   what a run of pushes keeps (Loss).
-- - Transport/Session: internal/transport/session.go (Paused, reject, accepted), with its
--   back-off (Pause) and its memory (Trace). Transport/Response: rejection, retryAfter.
--   Transport/Attempt: encode, and one POST of http.go (do), events.go (doPost) and post.go
--   (Post). Transport/Flush: events.go (flush, postBatch).
-- - Transport/Retry: the interface of github.com/cenkalti/backoff, with a policy that meets it.
-- - Events/Auth: internal/events/auth/collector.go. Window and Alike: the sliding window and the
--   entries that no later step tells apart; Cleanup: gcBruteforceTracker; Lines:
--   parseAuthLogLine and the reading loop; Origin: checkNewIP and its file.
-- - Upgrade: internal/upgrade. Version: semver.go, with its order (Order) and the texts that it
--   takes (Plain). Upgrade itself: downloader.go and upgrade.go; Staged: what a run can leave
--   behind; Stages: that it does stage a release; Machine: the runs and commits of the agent between
--   the starts that systemd/apply-upgrade.sh prepares. Go/Strconv/Decimal: decimal digits and back.
-- - Logs: internal/logs. Positions: positions.go, with its restart (Restart). Types: entry.go.
--   Tail: the reading of one file in tail.go, with the lines of a text (Split), the bytes of the
--   file (Account) and rounds of reading (Calm, Rounds). Ship: ship.go, with what becomes of its
--   entries (Batches), the size of its batches (Bounds) and the names in an object (Fields).
--   Redact: redact.go, with its check digit (Luhn) and its search for digits (Runs).
-- - Events/Pipeline: internal/events/pipeline.go and counter.go, with what every interleaving of
--   the goroutines keeps (Interleave).
-- - Events/System: internal/events/system. Reboot: checkReboot and its file; Oom: kmsg.go and the
--   watcher's loop; Users: /etc/passwd and pollPasswd, when it falls silent (Quiet) and for whom it
--   does not (Renamed); Files: pollFileState, one pass (Modified) and its life (History).
--   Go/Bufio: the scanner of lines. Go/Hex: `%x`. Go/Strconv/Trim: TrimSpace of digits.
-- - Events/Process: internal/events/process. Snapshot: snapshot.go, with what its windows hold
--   (Rolling); Make, Start and Poll: the events, the defaults and baseline, and poll of
--   collector.go; Lifecycle: its start and stop events; Cooldown: the alerts of a process. A float
--   is a bit pattern and its arithmetic a record of functions.
-- - Procfs: internal/procfs/procfs.go, with the lines that the kernel prints (Stat). Go/Fields:
--   strings.Fields. Go/Strconv/Value: what ParseUint returns beside an error.
-- - Events/Auth/Wtmp: internal/events/auth/wtmp.go, with the layout that login writes (Layout).
--   Events/Auth/Sessions: runWtmp, with one reading (Once), its end (Ends) and its life (Life).
--   Go/Binary: structs in little-endian order. Go/Os: how a write of a file ends.
-- - Events/Network: internal/events/network. ProcNet: proc_net.go, with the addresses that the
--   kernel prints (Address); Poll: collector.go, with the keys of its map (Keys), one poll (News)
--   and its life (Life). Go/Net: net.IP.String. Go/Hex/Upper: upper-case hexadecimal digits.
-- - Metrics: internal/metrics. Types: types.go; Encode: the families of encode.go, as they are
--   grouped (Group) and the names of their labels (Labels). A float is its bit pattern.
--   Registry: internal/collector/collector.go, with the calls that run at one time (Once).
--   SelfMetrics: internal/collector/selfmetrics.go, whose whole floats are natural numbers here.
-- - Agent: internal/agent/agent.go, over any transport, with what its ticks add up to (Account).
-- - Config: internal/config/config.go, with the environment (Load) and the lists (Csv).
-- - Remote: internal/remote/remote.go, with what each mode lets it choose (Trust) and that a valid
--   configuration stays so (Adopt); Fetch: fetch.go and the start of main.go, with its restarts
--   (Settles).
-- - Logs/Allow: internal/logs/allow.go, with what a list of directories covers (Inside).
--   Logs/Follow: the files that tail.go follows, one pass over them (Pass), and which they are
--   (Kept). Go/Path: Clean, Base and Ext, with a cleaned path (Clean). Go/Utf8: runes.
-- - Tests: runs on concrete inputs, and an instance of each theorem.
--
-- State is passed explicitly. A method that holds a mutex is one step. The network is a list of
-- answers, each with the time at which it comes and the events that arrive meanwhile. Times are
-- nanoseconds since Go's zero time, so that 0 is the time for which IsZero holds. uint64 counters
-- wrap at 2 ^ 64 and a duration computed from a header wraps as int64 does. Where a loop takes
-- fuel, the fuel is the length of the list that it consumes, and its theorem says that this is
-- enough.
--
-- Not modelled: logging, the ticker loops, TLS and the HTTP client, JSON and gzip coders
-- (parameters), the host collectors and integrations, which read /proc, sysfs and external tools,
-- the log parsers and sources, the parsing of the command line and the rest of the command.
pub mod Prelude
pub mod Go
pub mod Procfs
pub mod Metrics
pub mod Events
pub mod Transport
pub mod Upgrade
pub mod Logs
pub mod Agent
pub mod Config
pub mod Remote
mod Tests
