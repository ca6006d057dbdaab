-- ===== src/Transport/Attempt.antt =====
-- One HTTP POST of each transport: `encode` of internal/transport/session.go, `do` of http.go,
-- `doPost` of events.go and `Post` of post.go. The network is the answer that the attempt gets,
-- an argument; what is sent is logged. The deflate coder of compress/gzip is the parameter `gzip`,
-- `none` for its write or close error.
pub mod Agree
use yomins_agent.Go.Text.{Bytes, codes, is_empty}
use yomins_agent.Prelude.Int.{ℤ}
use yomins_agent.Prelude.{
  ℕ, Bool, true, false, not, ◌&&◌, ◌||◌, Option, none, some, List, [], ◌∷◌, ◌++◌, leb, ltb, ◌==◌,
  if◌then◌else◌, length,
}
use yomins_agent.Transport.Session.{Session, RejectedError, is_paused, reject, accepted}
use yomins_agent.Transport.Response.{
  Response, rejection, retry_after, takes_gzip, is_success, is_refusal, is_permanent,
}

-- How the world answers an attempt: no request can be built, the round trip fails, or a response.
pub data Answer : Type 0 where
  no_request no_response : Answer
  responds : Response → Answer

pub record Request : Type 0 where
  pub url : Bytes
  pub content_type : Bytes
  pub authorization : Bytes
  pub content_encoding : Bytes
  pub headers : List (Bytes × Bytes)
  pub body : Bytes

-- `cfg.Server` and `cfg.Token` of the three transports.
pub record Endpoint : Type 0 where
  pub server : Bytes
  pub token : Bytes

-- The shared session, and the requests sent so far, the last one first.
pub record Wire : Type 0 where
  pub session : Session
  pub sent : List Request

-- What an operation tells `backoff.RetryNotify`: success, or an error with `backoff.Permanent`
-- round it or not.
pub data Attempt {ℓ} (E : Type ℓ) : Type ℓ where
  success : Attempt E
  permanent transient : E → Attempt E

-- The errors of the retrying transports; `bad_batch` is `badBatchError`, `permanent_status` its
-- counterpart in http.go.
pub data SendError : Type 0 where
  marshal create_request network : SendError
  rejected : RejectedError → SendError
  bad_batch permanent_status server_status : ℕ → SendError

-- The result of `Poster.Post`.
pub data PostResult : Type 0 where
  delivered paused network : PostResult
  rejected : RejectedError → PostResult
  refused : ℕ → PostResult
  busy : ℕ → ℤ → PostResult

-- What `do`, `doPost` and `Post` make of a response.
metrics_response : ℕ → Response → Wire → Wire × Attempt SendError
metrics_response now resp w =
    if is_success resp.status
    then (record w { session = accepted (takes_gzip resp) w.session }, success)
    else if is_refusal resp.status
    then (
      record w { session = reject now (rejection resp) w.session },
      permanent (rejected (rejection resp)),
    )
    else if is_permanent resp.status
    then (w, permanent (permanent_status resp.status))
    else (w, transient (server_status resp.status))

events_response : ℕ → Response → Wire → Wire × Attempt SendError
events_response now resp w =
    if is_success resp.status
    then (record w { session = accepted (takes_gzip resp) w.session }, success)
    else if is_refusal resp.status
    then (
      record w { session = reject now (rejection resp) w.session },
      permanent (rejected (rejection resp)),
    )
    else if is_permanent resp.status
    then (w, permanent (bad_batch resp.status))
    else (w, transient (server_status resp.status))

poster_response : ℕ → Response → Wire → Wire × PostResult
poster_response now resp w =
    if is_success resp.status
    then (record w { session = accepted (takes_gzip resp) w.session }, delivered)
    else if is_refusal resp.status
    then (record w { session = reject now (rejection resp) w.session }, rejected (rejection resp))
    else if resp.status == 429 || leb 500 resp.status
    then (w, busy resp.status (retry_after resp))
    else (w, refused resp.status)

abbrev send : Request → Wire → Wire
send request w = record w { sent = request ∷ w.sent }

poster_answer : ℕ → Answer → Request → Wire → Wire × PostResult
unfolding poster_response
poster_answer now no_request request w = (w, refused 0)
poster_answer now no_response request w = (send request w, network)
poster_answer now (responds resp) request w = poster_response now resp (send request w)

module _ (gzip : Bytes → Option Bytes) where
  -- `encode`: the body to send and its Content-Encoding.
  unfoldable pub encode : Session → Bytes → Bytes × Bytes
  encode s payload =
      if not s.gzip_ok || ltb (length payload) 1024
      then (payload, [])
      else elim (gzip payload) [ none ↦ (payload, []) | some z ↦ (z, codes "gzip") ]

  -- The request of all three; an empty `content_encoding` is no header.
  unfoldable pub build_request :
      Endpoint → Bytes → Bytes → List (Bytes × Bytes) → Session → Bytes → Request
  unfolding encode
  build_request ep path content_type headers s payload =
      let (body, encoding) = encode s payload in
      record {
        url = ep.server ++ path;
        content_type = content_type;
        authorization = codes "Bearer " ++ ep.token;
        content_encoding = encoding;
        headers = headers;
        body = body;
      }

  abbrev pub metrics_request : Endpoint → Bytes → Wire → Request
  metrics_request ep payload w =
      build_request ep (codes "/metrics") (codes "text/plain; version=0.0.4; charset=utf-8") []
        w.session payload

  abbrev pub events_request : Endpoint → Bytes → Wire → Request
  events_request ep payload w =
      build_request ep (codes "/events") (codes "application/json") [] w.session payload

  -- `do` of http.go. `now` is the time that `reject` reads.
  unfoldable pub do_metrics : Endpoint → ℕ → Answer → Bytes → Wire → Wire × Attempt SendError
  unfolding metrics_response
  do_metrics ep now no_request payload w = (w, permanent create_request)
  do_metrics ep now no_response payload w =
      (send (metrics_request ep payload w) w, transient network)
  do_metrics ep now (responds resp) payload w =
      metrics_response now resp (send (metrics_request ep payload w) w)

  -- `doPost` of events.go.
  unfoldable pub do_post : Endpoint → ℕ → Answer → Bytes → Wire → Wire × Attempt SendError
  unfolding events_response
  do_post ep now no_request payload w = (w, permanent create_request)
  do_post ep now no_response payload w = (send (events_request ep payload w) w, transient network)
  do_post ep now (responds resp) payload w =
      events_response now resp (send (events_request ep payload w) w)

  -- `Post` of post.go; `check` is the time that its `Paused` reads.
  unfoldable pub post :
      Endpoint
      → ℕ
      → ℕ
      → Answer
      → Bytes
      → Bytes
      → List (Bytes × Bytes)
      → Bytes
      → Wire
      → Wire × PostResult
  unfolding poster_answer
  post ep check now answer path content_type headers payload w =
      if is_paused check w.session
      then (w, paused)
      else poster_answer now answer (build_request ep path content_type headers w.session payload) w
