-- ===== src/Transport/Session.antt =====
-- internal/transport/session.go: what the transports share about the server, namely whether it
-- rejects this agent now and whether it takes gzip bodies. A time is the nanoseconds since Go's
-- zero time, so 0 is the time for which `IsZero` holds; a `time.Duration` is an int64 of
-- nanoseconds. Every method holds the mutex, so it is one step.
pub mod Pause
pub mod Trace
use yomins_agent.Go.Text.{Bytes}
use yomins_agent.Prelude.Int.{ℤ, pos, negsuc, wrap_int64}
use yomins_agent.Prelude.{
  ℕ, suc, ◌+◌, ◌*◌, Bool, [], ◌<◌, true, false, Option, none, some, min, max, ltb, if◌then◌else◌,
}

abbrev pub second : ℕ
second = 1_000_000_000

abbrev pub minute : ℕ
minute = 60_000_000_000

abbrev pub min_pause : ℕ
min_pause = 60_000_000_000

abbrev pub max_pause : ℕ
max_pause = 1_800_000_000_000

-- `RejectedError`, a 401 or 403.
pub record RejectedError : Type 0 where
  pub status : ℕ
  pub reason : Bytes
  pub retry_after : ℤ

-- `pause` is 0 or positive, for `reject` stores no other.
pub record Session : Type 0 where
  pub until : ℕ
  pub pause : ℕ
  pub reason : Bytes
  pub gzip_ok : Bool

abbrev pub new_session : Session
new_session = record { until = 0; pause = 0; reason = []; gzip_ok = false }

-- `Paused`, at the time that `s.now` returns.
unfoldable pub is_paused : ℕ → Session → Bool
is_paused now s = ltb now s.until

-- `max(d, minPause)` on int64.
unfoldable pub at_least_min_pause : ℤ → ℕ
at_least_min_pause (pos n) = max n min_pause
at_least_min_pause (negsuc n) = min_pause

-- The pause that follows a rejection: the server's if it is positive, else the last one doubled
-- and kept between the two bounds. The doubling is int64 arithmetic.
unfoldable pub next_pause : ℕ → ℤ → ℕ
unfolding at_least_min_pause wrap_int64
next_pause last (pos (suc n)) = suc n
next_pause last retry_after = min (at_least_min_pause (wrap_int64 (last * 2))) max_pause

-- `reject`.
unfoldable pub reject : ℕ → RejectedError → Session → Session
reject now e s =
    let pause = next_pause s.pause e.retry_after in
    record s { pause = pause; until = now + pause; reason = e.reason }

-- `accepted`; `takes_gzip` says that the response's X-Yomins-Accept-Encoding header names gzip.
unfoldable pub accepted : Bool → Session → Session
accepted takes_gzip s = record s {
  until = 0;
  pause = 0;
  reason = [];
  gzip_ok = if takes_gzip then true else s.gzip_ok;
}
