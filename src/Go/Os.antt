-- ===== src/Go/Os.antt =====
-- Go's os.WriteFile, which truncates the file before it writes.
use yomins_agent.Go.Text.{Bytes}
use yomins_agent.Prelude.{Option, some}

-- How a write of a file ends; a failed one may leave anything behind.
pub data Write : Type 0 where
  done : Write
  failed : Option Bytes → Write

-- What the path holds after a write of `s`.
abbrev pub written : Write → Bytes → Option Bytes
written done s = some s
written (failed left) s = left
