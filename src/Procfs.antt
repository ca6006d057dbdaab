-- ===== src/Procfs.antt =====
-- internal/procfs/procfs.go: the samples of processes from the text of /proc. What a path holds is
-- an argument.
pub mod Stat
use yomins_agent.Go.Text.{Bytes, codes, has_prefix, is_digit, is_space, trim_space, is_empty}
use yomins_agent.Go.Bufio.{scan_lines}
use yomins_agent.Go.Strconv.{atoi, uint_value}
use yomins_agent.Go.Fields.{fields}
use yomins_agent.Prelude.Int.{ℤ, pos, negsuc, wrap_int32}
use yomins_agent.Prelude.{
  ℕ, zero, suc, ◌+◌, ◌-◌, ◌*◌, ◌%◌, ◌^◌, Bool, Option, none, some, List, [], ◌∷◌, ltb, ◌==◌,
  if◌then◌else◌, get_elem?, get_or, length, map,
}

-- `Sample`.
pub record Sample : Type 0 where
  pub pid : ℤ
  pub ppid : ℤ
  pub name : Bytes
  pub state : ℕ
  pub start : ℕ
  pub cpu : ℕ
  pub rss : ℕ

-- The bytes behind the first `b`, as `IndexByte` finds it.
unfoldable pub behind_first : ℕ → Bytes → Option Bytes
behind_first b [] = none
behind_first b (c ∷ s) = let rest = behind_first b s in if c == b then some s else rest

abbrev pub in_front : ℕ → ℕ → Bytes → Option (Bytes × Bytes) → Option (Bytes × Bytes)
in_front b c s none = if c == b then some ([], s) else none
in_front b c s (some (before, after)) = some (c ∷ before, after)

-- The bytes before and behind the last `b`, as `LastIndexByte` finds it.
unfoldable pub around_last : ℕ → Bytes → Option (Bytes × Bytes)
around_last b [] = none
around_last b (c ∷ s) = in_front b c s (around_last b s)

abbrev pub head_byte : Bytes → ℕ
head_byte [] = 0
head_byte (c ∷ s) = c

-- The field of proc(5) with the number `n`, a number.
unfoldable pub number_at : ℕ → List Bytes → ℕ
number_at n words = uint_value (get_or words (n - 3) [])

unfoldable pub stat_fields : ℕ → Bytes → List Bytes → Option Sample
stat_fields page_size name words =
    if ltb (length words) 22
    then none
    else some (record {
      pid = pos 0;
      ppid = wrap_int32 (number_at 4 words);
      name = name;
      state = head_byte (get_or words 0 []);
      start = number_at 22 words;
      cpu = (number_at 14 words + number_at 15 words) % 2 ^ 64;
      rss = number_at 24 words * page_size % 2 ^ 64;
    })

abbrev pub stat_name : ℕ → Option (Bytes × Bytes) → Option Sample
stat_name page_size none = none
stat_name page_size (some (name, after)) = stat_fields page_size name (fields after)

abbrev pub stat_behind : ℕ → Option Bytes → Option Sample
stat_behind page_size none = none
stat_behind page_size (some rest) = stat_name page_size (around_last b')' rest)

-- `ParseStat`; a last closing parenthesis that stands before the first opening one leaves none
-- behind it.
unfoldable pub parse_stat : ℕ → Bytes → Option Sample
parse_stat page_size b = stat_behind page_size (behind_first b'(' b)

-- `ParseInt(n, 10, 32)` of the name of a directory.
unfoldable pub parse_int32 : Bytes → Option ℤ
parse_int32 n = elim (atoi n) [
  | none ↦ none
  | some (pos v) ↦ if ltb v (2 ^ 31) then some (pos v) else none
  | some (negsuc v) ↦ if ltb v (2 ^ 31) then some (negsuc v) else none
]

abbrev with_pid : Option ℤ → Option Sample → List Sample → List Sample
with_pid (some pid) (some s) out = record s { pid = pid } ∷ out
with_pid _ _ out = out

abbrev stat_of : ℕ → Option Bytes → Option Sample
stat_of page_size none = none
stat_of page_size (some b) = parse_stat page_size b

-- The loop of `List` over the names of /proc; `stat` gives what the file stat of one holds.
unfoldable pub list : ℕ → (Bytes → Option Bytes) → List Bytes → List Sample
unfolding parse_int32 parse_stat
list page_size stat [] = []
list page_size stat (n ∷ names) =
    with_pid (parse_int32 n) (stat_of page_size (stat n)) (list page_size stat names)

-- The command line of `Details`: its NUL bytes become spaces.
unfoldable pub command_line : Bytes → Bytes
unfolding trim_space
command_line raw = trim_space (map (λ c. if c == 0 then b' ' else c) raw)

abbrev kilobytes : List Bytes → ℕ
kilobytes (_ ∷ kb ∷ _) = uint_value kb * 1024 % 2 ^ 64
kilobytes _ = 0

-- The loop of `MemTotal` over the lines of meminfo.
unfoldable pub mem_total_lines : List Bytes → ℕ
unfolding has_prefix fields uint_value
mem_total_lines [] = 0
mem_total_lines (line ∷ lines) =
    let rest = mem_total_lines lines in
    if has_prefix line (codes "MemTotal:") then kilobytes (fields line) else rest

-- `MemTotal`, from what meminfo holds, if it can be opened.
unfoldable pub mem_total : Option Bytes → ℕ
unfolding mem_total_lines scan_lines
mem_total none = 0
mem_total (some content) = mem_total_lines (scan_lines content)
