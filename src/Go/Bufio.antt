-- ===== src/Go/Bufio.antt =====
-- Go's bufio.Scanner with `ScanLines`, over a text that can be read whole.
use yomins_agent.Go.Text.{Bytes}
use yomins_agent.Prelude.{
  Bool, true, ◌&&◌, ℕ, List, [], ◌∷◌, ◌++◌, ltb, ◌==◌, length, if◌then◌else◌, map,
}

-- One more byte in front of lines and the rest behind them, where it is no newline.
abbrev pub in_front : ℕ → List Bytes × Bytes → List Bytes × Bytes
in_front c ([], rest) = ([], c ∷ rest)
in_front c (l ∷ ls, rest) = ((c ∷ l) ∷ ls, rest)

abbrev pub with_byte : ℕ → List Bytes × Bytes → List Bytes × Bytes
with_byte c r = if c == b'\n' then ([] ∷ r.0, r.1) else in_front c r

-- The complete lines, without their newlines, and the bytes behind the last newline.
unfoldable pub lines_of : Bytes → List Bytes × Bytes
lines_of [] = ([], [])
lines_of (c ∷ s) = with_byte c (lines_of s)

-- `dropCR`.
unfoldable pub drop_cr : Bytes → Bytes
drop_cr [] = []
drop_cr (c ∷ []) = if c == b'\r' then [] else c ∷ []
drop_cr (c ∷ d ∷ s) = c ∷ drop_cr (d ∷ s)

-- A line of 65,536 bytes fills the buffer, which ends the scan.
unfoldable pub up_to_long : List Bytes → List Bytes
up_to_long [] = []
up_to_long (l ∷ ls) = let more = up_to_long ls in if ltb (length l) 65_536 then l ∷ more else []

-- A last line needs no newline, if it has a byte.
abbrev pub last_line : Bytes → List Bytes
last_line [] = []
last_line (c ∷ s) = (c ∷ s) ∷ []

-- What `Text` returns as long as `Scan` is true.
unfoldable pub scan_lines : Bytes → List Bytes
unfolding lines_of drop_cr up_to_long
scan_lines s = map drop_cr (up_to_long ((lines_of s).0 ++ last_line (lines_of s).1))

unfoldable pub all_short : List Bytes → Bool
all_short [] = true
all_short (l ∷ ls) = ltb (length l) 65_536 && all_short ls

-- `Err` behind the last `Scan` is nil.
unfoldable pub scans_whole : Bytes → Bool
unfolding lines_of all_short
scans_whole s = all_short ((lines_of s).0 ++ last_line (lines_of s).1)
