-- ===== src/Transport/Flush/Delivered.antt =====
-- When the transport takes a batch for delivered.
use yomins_agent.Go.Text.{Bytes}
use yomins_agent.Prelude.{◌≡◌, true, Option, List, ◌∷◌}
use yomins_agent.Transport.Response.{Response, is_success}
use yomins_agent.Transport.Attempt.{SendError, responds, Attempt, events_request}
use yomins_agent.Transport.Retry.{Retry}
use yomins_agent.Transport.Flush.{FlushConfig, World, Moment}

module _ {Event : Type 0} (z : Event) (marshal_events : List Event → Option Bytes)
    (gzip : Bytes → Option Bytes) (backoff : Retry (World Event) SendError)
    (cfg : FlushConfig) where
  -- The world `t` is reached by an attempt in the world `u`, whose request carried `body` and was
  -- answered with a status from 200 to 299.
  pub record Answered (body : Bytes) (t : World Event) : Type 0 where
    pub u : World Event
    pub moment : Moment Event
    pub later : List (Moment Event)
    pub resp : Response
    pub happens : u.moments ≡ moment ∷ later
    pub answer : moment.answer ≡ responds resp
    pub accepted : is_success resp.status ≡ true
    pub carried : t.wire.sent ≡ events_request gzip cfg.endpoint body u.wire ∷ u.wire.sent
