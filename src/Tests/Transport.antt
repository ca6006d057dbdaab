-- ===== src/Tests/Transport.antt =====
-- internal/transport on small scenes.
use yomins_agent.Go.Text.{Bytes, codes}
use yomins_agent.Prelude.Int.{pos}
use yomins_agent.Prelude.{ℕ, ◌≡◌, refl, List, [], ◌∷◌, Option, none, true, false}
use yomins_agent.Transport.Session.{RejectedError, new_session}
use yomins_agent.Transport.Session.Pause.{reject_all}
use yomins_agent.Transport.Session.Trace.{Verdict, takes, rejects, tell_all, tell_all_remembers}
use yomins_agent.Transport.Attempt.{Endpoint, Wire, build_request}
use yomins_agent.Transport.Response.{Response, retry_after, rejection}

abbrev pub reply : ℕ → Response
reply status = record {
  status = status;
  reason_header = [];
  retry_after_header = [];
  accept_encoding_header = codes "gzip";
  body = [];
}

abbrev wait_reply : Response
wait_reply = record (reply 403) { retry_after_header = codes " 120 " }

retry_after_seconds : retry_after wait_reply ≡ pos 120_000_000_000
unfolding retry_after
retry_after_seconds = refl

-- A Retry-After of 18446744074 seconds wraps to less than a third of one second.
retry_after_wraps :
    retry_after (record wait_reply { retry_after_header = codes "18446744074" }) ≡ pos 290_448_384
unfolding retry_after
retry_after_wraps = refl

rejection_reason : (rejection (reply 401)).reason ≡ codes "Unauthorized"
unfolding rejection
rejection_reason = refl

abbrev blocked : RejectedError
blocked = record { status = 403; reason = codes "service_blocked"; retry_after = pos 0 }

abbrev some_rejections : List (ℕ × RejectedError)
some_rejections = (100, blocked) ∷ (200, blocked) ∷ []

abbrev told : List Verdict
told = rejects 10 blocked ∷ takes true ∷ rejects 20 blocked ∷ []

tell_all_remembers_example :
    tell_all told new_session
    ≡ record (reject_all ((20, blocked) ∷ []) new_session) { gzip_ok = true }
tell_all_remembers_example = tell_all_remembers told

-- No coder: the bodies go out as they are.
abbrev pub no_gzip : Bytes → Option Bytes
no_gzip body = none

abbrev pub server : Endpoint
server = record { server = codes "https://ingest"; token = codes "t" }

abbrev pub idle : Wire
idle = record { session = new_session; sent = [] }

-- Two minutes on the server's word, counted from 5.
abbrev blocked_wire : Wire
blocked_wire = record {
  session = record {
    until = 120_000_000_005;
    pause = 120_000_000_000;
    reason = codes "Forbidden";
    gzip_ok = false;
  };
  sent = build_request no_gzip server (codes "/logs") [] [] new_session [] ∷ [];
}
