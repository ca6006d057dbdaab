-- ===== src/Transport/Response.antt =====
-- What the transports read out of an HTTP response: `rejection` and `retryAfter` of
-- internal/transport/session.go, and the classes of status codes.
use yomins_agent.Go.Text.{Bytes, codes, is_empty, trim_space, contains}
use yomins_agent.Go.Strconv.{atoi}
use yomins_agent.Prelude.Int.{ℤ, pos, negsuc, wrap_int64}
use yomins_agent.Prelude.{
  ℕ, suc, zero, ◌*◌, Bool, ◌&&◌, ◌||◌, none, some, ltb, leb, ◌==◌, if◌then◌else◌, take, not,
}
use yomins_agent.Transport.Session.{RejectedError, second}

-- The parts of a `http.Response` that are read: the status, three headers (`Header.Get` of an
-- absent one is empty) and the body.
pub record Response : Type 0 where
  pub status : ℕ
  pub reason_header : Bytes
  pub retry_after_header : Bytes
  pub accept_encoding_header : Bytes
  pub body : Bytes

-- `http.StatusText` at the two codes for which it is called.
unfoldable pub status_text : ℕ → Bytes
status_text status = if status == 401 then codes "Unauthorized" else codes "Forbidden"

-- `time.Duration(n) * time.Second` for `n` from `Atoi`, which wraps as int64 does.
unfoldable pub seconds_of : ℤ → ℤ
unfolding wrap_int64
seconds_of (pos zero) = pos 0
seconds_of (pos (suc n)) = wrap_int64 (suc n * second)
seconds_of (negsuc n) = pos 0

-- `retryAfter`.
unfoldable pub retry_after : Response → ℤ
unfolding trim_space is_empty atoi seconds_of
retry_after resp =
    let v = trim_space resp.retry_after_header in
    if is_empty v then pos 0 else elim (atoi v) [ none ↦ pos 0 | some n ↦ seconds_of n ]

-- The first of three texts that is not empty.
unfoldable pub first_text : Bytes → Bytes → Bytes → Bytes
unfolding is_empty
first_text a b c = if is_empty a then (if is_empty b then c else b) else a

-- `rejection`.
unfoldable pub rejection : Response → RejectedError
unfolding first_text retry_after status_text trim_space
rejection resp = record {
  status = resp.status;
  reason =
      first_text resp.reason_header (trim_space (take 256 resp.body)) (status_text resp.status);
  retry_after = retry_after resp;
}

-- The test of `accepted` on the response.
unfoldable pub takes_gzip : Response → Bool
unfolding contains
takes_gzip resp = contains resp.accept_encoding_header (codes "gzip")

abbrev pub is_success : ℕ → Bool
is_success s = leb 200 s && ltb s 300

abbrev pub is_refusal : ℕ → Bool
is_refusal s = s == 401 || s == 403

-- A 4xx other than 429, where the test for 401 and 403 has gone before.
abbrev pub is_permanent : ℕ → Bool
is_permanent s = leb 400 s && (ltb s 500 && not (s == 429))
