-- ===== src/Events/Auth/Wtmp.antt =====
-- internal/events/auth/wtmp.go: the records of wtmp.
pub mod Layout
use yomins_agent.Go.Text.{Bytes}
use yomins_agent.Go.Binary.{little_endian, cut_fields}
use yomins_agent.Prelude.Int.{ℤ, pos, negsuc, wrap_int16, wrap_int32}
use yomins_agent.Prelude.{
  ℕ, ◌+◌, ◌-◌, ◌*◌, Bool, Option, none, some, List, [], ◌∷◌, leb, ◌==◌, if◌then◌else◌, length,
}

abbrev pub utmp_record_size : ℕ
utmp_record_size = 384

-- The sizes of the fields of `utmpRecord`.
abbrev pub utmp_sizes : List ℕ
utmp_sizes = 2 ∷ 2 ∷ 4 ∷ 32 ∷ 4 ∷ 32 ∷ 256 ∷ 4 ∷ 4 ∷ 4 ∷ 4 ∷ 16 ∷ 20 ∷ []

-- `parsedRecord`.
pub record ParsedRecord : Type 0 where
  pub type : ℤ
  pub pid : ℤ
  pub tty : Bytes
  pub user : Bytes
  pub host : Bytes
  pub timestamp : ℕ

-- `minValidSec`.
abbrev pub min_valid_sec : ℕ
min_valid_sec = 1_577_836_800

-- `nullTerminated`.
unfoldable pub null_terminated : Bytes → Bytes
null_terminated [] = []
null_terminated (b ∷ bs) = let rest = null_terminated bs in if b == 0 then [] else b ∷ rest

-- `time.Unix(sec, usec*1000)` in nanoseconds since Go's zero time.
unfoldable pub unix_micro : ℕ → ℤ → ℕ
unix_micro sec (pos usec) = (62_135_596_800 + sec) * 1_000_000_000 + usec * 1_000
unix_micro sec (negsuc usec) = (62_135_596_800 + sec) * 1_000_000_000 - (usec + 1) * 1_000

-- The time of a record, or that of the reading where the record's is implausible.
unfoldable pub record_time : ℕ → ℤ → ℤ → ℕ
record_time now (negsuc sec) usec = now
record_time now (pos sec) usec = if leb min_valid_sec sec then unix_micro sec usec else now

-- What `parseRecord` makes of the fields.
unfoldable pub record_of : ℕ → List Bytes → Option ParsedRecord
record_of now (type ∷ _ ∷ pid ∷ line ∷ _ ∷ user ∷ host ∷ _ ∷ _ ∷ sec ∷ usec ∷ _) = some (record {
  type = wrap_int16 (little_endian type);
  pid = wrap_int32 (little_endian pid);
  tty = null_terminated line;
  user = null_terminated user;
  host = null_terminated host;
  timestamp = record_time now (wrap_int32 (little_endian sec)) (wrap_int32 (little_endian usec));
})
record_of now _ = none

-- `parseRecord`, at the time `now`.
unfoldable pub parse_record : ℕ → Bytes → Option ParsedRecord
parse_record now bytes =
    if length bytes == utmp_record_size then record_of now (cut_fields utmp_sizes bytes) else none
