-- ===== src/Tests/Logs.antt =====
-- internal/logs: a file that is written in pieces, its positions over a restart, and a shipper
-- whose server is busy once.
use yomins_agent.Go.Text.{Bytes, codes}
use yomins_agent.Prelude.Int.{pos}
use yomins_agent.Prelude.{ℕ, ◌≡◌, refl, true, false, none, some, Option, List, [], ◌∷◌, arith, inl}
use yomins_agent.Logs.Positions.{Position, Positions, load_positions}
use yomins_agent.Logs.Positions.Restart.{Op, sets, saves, sets_journal, forgets, run}
use yomins_agent.Logs.Types.{Entry}
use yomins_agent.Logs.Tail.{TailedFile, read}
use yomins_agent.Go.Bufio.{lines_of}
use yomins_agent.Logs.Tail.Account.{Follows, read-Follows}
use yomins_agent.Logs.Tail.Rounds.{Round, appended}
use yomins_agent.Logs.Ship.{ShipperConfig, Shipper, Signal, entry, timer, run as ship}
use yomins_agent.Logs.Ship.Batches.{held, received, run_keeps}
use yomins_agent.Logs.Ship.Bounds.{IsSmall, run-IsSmall}
use yomins_agent.Transport.Attempt.{delivered, busy}

abbrev access : Bytes
access = codes "/var/log/nginx/access.log"

abbrev here : Position
here = record { inode = 7; offset = 12 }

abbrev ops : List Op
ops = sets access here ∷ saves true ∷ sets_journal (codes "s=1") ∷ forgets (codes "x") ∷ []

abbrev moved : Positions
moved = record (load_positions true none) { dirty = true }

abbrev pub plain : Bytes → Entry
plain msg = record {
  time = 0;
  msg = msg;
  source = [];
  path = [];
  unit = [];
  level = [];
  fields = [];
  ack = none;
}

abbrev tailed : TailedFile
tailed = record {
  path = access;
  source = codes "nginx";
  inode = 7;
  offset = 0;
  partial = [];
  part_at = 0;
  gone = false;
  ctr = [];
  image = [];
  cursor = 0;
}

-- Two lines, the first of them in two pieces.
abbrev pieces : List Round
pieces =
    record { now = 1; more = codes "GE" }
    ∷ record { now = 2; more = codes "T /\nPO" }
    ∷ record { now = 3; more = codes "ST\n" }
    ∷ []

two_lines : lines_of (appended pieces) ≡ (codes "GET /" ∷ codes "POST" ∷ [], [])
unfolding lines_of appended
two_lines = refl

read-Follows_example : Follows (codes "GET /\nPO") (read plain 2 (codes "GET /\nPO") tailed).0
read-Follows_example = read-Follows plain 2 (codes "GET /\nPO") tailed (inl (refl, refl))

abbrev keep : Bytes → Bytes
keep s = s

abbrev pub clock : ℕ → Bytes
clock now = codes "now"

abbrev pub one_line : List (Bytes × Bytes) → Option Bytes
one_line obj = some (codes "{}")

abbrev pub by_two_lines : ShipperConfig
by_two_lines = record { max_batch_lines = 2; max_batch_bytes = 100 }

abbrev fresh_shipper : Shipper
fresh_shipper = record {
  batch = [];
  buf = [];
  pending = false;
  world = record {
    replies =
        record { result = busy 503 (pos 0); slept = true }
        ∷ record { result = delivered; slept = true }
        ∷ [];
    pauses = [];
    posted = [];
    acked = [];
    given_up = [];
    shipped_bytes = 0;
    dropped_encode = 0;
    dropped_refused = 0;
    retries = 0;
  };
}

abbrev signals : List (ℕ × Signal)
signals =
    (1, entry (plain (codes "a")))
    ∷ (2, entry (plain (codes "b")))
    ∷ (3, entry (plain (codes "c")))
    ∷ (4, timer)
    ∷ []

run_keeps_example :
    held (ship keep clock one_line by_two_lines signals fresh_shipper)
    ≡ received keep clock one_line by_two_lines signals fresh_shipper
run_keeps_example =
    run_keeps keep clock one_line by_two_lines (λ obj. (codes "{}", refl)) signals fresh_shipper
      (inl refl)

run-IsSmall_example :
    IsSmall by_two_lines (ship keep clock one_line by_two_lines signals fresh_shipper)
run-IsSmall_example =
    run-IsSmall by_two_lines keep clock one_line signals fresh_shipper (omega arith)
      (omega arith, inl (omega arith), tt)
