-- ===== src/Events/Auth/Wtmp/Layout.antt =====
-- A record as login writes it, and what parse_record makes of it.
use yomins_agent.Go.Text.{Bytes}
use yomins_agent.Go.Strconv.Decimal.{All}
use yomins_agent.Go.Binary.{
  little_endian, le_bytes, little_endian-le_bytes, length-le_bytes, cut_fields, packed,
  cut_fields-packed,
}
use yomins_agent.Events.Auth.Wtmp.{
  utmp_sizes, min_valid_sec, null_terminated, unix_micro, record_time, record_of, parse_record,
}
use yomins_agent.Prelude.Int.{pos, wrap_int16, wrap_int32}
use yomins_agent.Prelude.{
  ℕ, zero, suc, ◌+◌, ◌-◌, ◌^◌, ◌≤◌, ◌<◌, Bool, not, some, List, [], ◌∷◌, ◌++◌, leb, ◌==◌,
  if◌then◌else◌, length, replicate, map, ◌≡◌, refl, ap, sym, ◌∙◌, arith, length-append,
  length-replicate,
}

-- A text in a field of `n` bytes, with NUL bytes behind it.
unfoldable pub padded : ℕ → Bytes → Bytes
padded n s = s ++ replicate (n - length s) 0

abbrev pub not_null : ℕ → Bool
not_null b = not (b == 0)

null_terminated-zeros : (n : ℕ) → null_terminated (replicate n 0) ≡ []
unfolding null_terminated
null_terminated-zeros zero = refl
null_terminated-zeros (suc n) = refl

null_terminated-append :
    (n : ℕ) (s : Bytes) → All not_null s → null_terminated (s ++ replicate n 0) ≡ s
unfolding null_terminated
null_terminated-append n [] h = null_terminated-zeros n
null_terminated-append n (b ∷ s) (h, hs) = ground (arith, null_terminated-append n s hs)

null_terminated-padded : (n : ℕ) (s : Bytes) → All not_null s → null_terminated (padded n s) ≡ s
unfolding padded
null_terminated-padded n s h = null_terminated-append (n - length s) s h

length-padded : (n : ℕ) (s : Bytes) → length s ≤ n → length (padded n s) ≡ n
unfolding padded
length-padded n s h = omega (
  arith,
  length-append s (replicate (n - length s) 0),
  length-replicate {0} {A = ℕ} (n - length s) 0,
)

-- What is written; the fields that the agent does not read are bytes.
pub record Utmp : Type 0 where
  pub type : ℕ
  pub padding : Bytes
  pub pid : ℕ
  pub line : Bytes
  pub id : Bytes
  pub user : Bytes
  pub host : Bytes
  pub exit : Bytes
  pub session : Bytes
  pub sec : ℕ
  pub usec : ℕ
  pub addr : Bytes
  pub unused : Bytes

unfoldable pub utmp_fields : Utmp → List Bytes
utmp_fields u =
    le_bytes 2 u.type
    ∷ u.padding
    ∷ le_bytes 4 u.pid
    ∷ padded 32 u.line
    ∷ u.id
    ∷ padded 32 u.user
    ∷ padded 256 u.host
    ∷ u.exit
    ∷ u.session
    ∷ le_bytes 4 u.sec
    ∷ le_bytes 4 u.usec
    ∷ u.addr
    ∷ u.unused
    ∷ []

-- The numbers are not negative and the texts fit and hold no NUL.
pub record IsUtmp (u : Utmp) : Type 0 where
  pub type : u.type < 2 ^ 15
  pub padding : length u.padding ≡ 2
  pub pid : u.pid < 2 ^ 31
  pub line_length : length u.line ≤ 32
  pub line : All not_null u.line
  pub id : length u.id ≡ 4
  pub user_length : length u.user ≤ 32
  pub user : All not_null u.user
  pub host_length : length u.host ≤ 256
  pub host : All not_null u.host
  pub exit : length u.exit ≡ 4
  pub session : length u.session ≡ 4
  pub sec : u.sec < 2 ^ 31
  pub usec : u.usec < 2 ^ 31
  pub addr : length u.addr ≡ 16
  pub unused : length u.unused ≡ 20

wrap_int16-small : (n : ℕ) → n < 2 ^ 15 → wrap_int16 n ≡ pos n
unfolding wrap_int16
wrap_int16-small n h = ground arith

wrap_int32-small : (n : ℕ) → n < 2 ^ 31 → wrap_int32 n ≡ pos n
unfolding wrap_int32
wrap_int32-small n h = ground arith

int16-le_bytes : (n : ℕ) → n < 2 ^ 15 → wrap_int16 (little_endian (le_bytes 2 n)) ≡ pos n
int16-le_bytes n h = ap wrap_int16 (little_endian-le_bytes 2 n (omega arith)) ∙ wrap_int16-small n h

int32-le_bytes : (n : ℕ) → n < 2 ^ 31 → wrap_int32 (little_endian (le_bytes 4 n)) ≡ pos n
int32-le_bytes n h = ap wrap_int32 (little_endian-le_bytes 4 n (omega arith)) ∙ wrap_int32-small n h

utmp-sizes : (u : Utmp) → IsUtmp u → map length (utmp_fields u) ≡ utmp_sizes
unfolding utmp_fields
utmp-sizes u h =
    rw
      (
        length-le_bytes 2 u.type,
        length-le_bytes 4 u.pid,
        length-le_bytes 4 u.sec,
        length-le_bytes 4 u.usec,
        length-padded 32 u.line h.line_length,
        length-padded 32 u.user h.user_length,
        length-padded 256 u.host h.host_length,
        h.padding,
        h.id,
        h.exit,
        h.session,
        h.addr,
        h.unused,
      )
      refl

-- The length of a struct is the sum of its sizes.
abbrev total : List ℕ → ℕ
total [] = 0
total (n ∷ ns) = n + total ns

length-packed : (fs : List Bytes) → length (packed fs) ≡ total (map length fs)
length-packed [] = refl
length-packed (f ∷ fs) = omega (arith, length-append f (packed fs), length-packed fs)

record_of-utmp :
    (now : ℕ) (u : Utmp)
    → IsUtmp u
    → record_of now (utmp_fields u)
      ≡ some (record {
        type = pos u.type;
        pid = pos u.pid;
        tty = u.line;
        user = u.user;
        host = u.host;
        timestamp = if leb min_valid_sec u.sec then unix_micro u.sec (pos u.usec) else now;
      })
unfolding record_of utmp_fields record_time
record_of-utmp now u h =
    rw
      (
        int16-le_bytes u.type h.type,
        int32-le_bytes u.pid h.pid,
        int32-le_bytes u.sec h.sec,
        int32-le_bytes u.usec h.usec,
        null_terminated-padded 32 u.line h.line,
        null_terminated-padded 32 u.user h.user,
        null_terminated-padded 256 u.host h.host,
      )
      refl

-- A record of that layout gives back the type, the process, the texts and, if its time is not
-- before 2020, the time; a record with an earlier time gets the time of the reading.
pub parse_record-utmp :
    (now : ℕ) (u : Utmp)
    → IsUtmp u
    → parse_record now (packed (utmp_fields u))
      ≡ some (record {
        type = pos u.type;
        pid = pos u.pid;
        tty = u.line;
        user = u.user;
        host = u.host;
        timestamp = if leb min_valid_sec u.sec then unix_micro u.sec (pos u.usec) else now;
      })
unfolding parse_record
parse_record-utmp now u h =
    let sizes = utmp-sizes u h in
    let size : length (packed (utmp_fields u)) ≡ 384 =
      length-packed (utmp_fields u) ∙ ap total sizes in
    let fields : cut_fields utmp_sizes (packed (utmp_fields u)) ≡ utmp_fields u =
      ap (λ ns. cut_fields ns (packed (utmp_fields u))) (sym sizes)
      ∙ cut_fields-packed (utmp_fields u) in
    rw (size, fields) (record_of-utmp now u h)
