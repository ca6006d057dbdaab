-- ===== src/Transport/Flush/Requeue.antt =====
-- What the buffer holds after a flush.
use yomins_agent.Go.Text.{Bytes}
use yomins_agent.Events.Ring.{RingBuffer}
use yomins_agent.Prelude.{◌≡◌, Option, List, [], ◌∷◌}
use yomins_agent.Transport.Attempt.{SendError}
use yomins_agent.Transport.Retry.{Outcome, Retry}
use yomins_agent.Transport.Flush.{FlushConfig, World, Moment, post_batch}

module _ {Event : Type 0} where
  -- The pipeline pushes nothing while the flush runs.
  abbrev pub NoArrivals : List (Moment Event) → Type 0
  NoArrivals [] = Unit
  NoArrivals (m ∷ ms) = (m.arrivals ≡ []) × NoArrivals ms

module _ {Event : Type 0} (z : Event) (marshal_events : List Event → Option Bytes)
    (gzip : Bytes → Option Bytes) (backoff : Retry (World Event) SendError)
    (cfg : FlushConfig) where
  abbrev Quiet : RingBuffer Event → World Event → Type 0
  Quiet b w = (w.buf ≡ b) × NoArrivals w.moments

  abbrev send_batch : List Event → World Event → World Event × Outcome SendError
  send_batch = post_batch z marshal_events gzip backoff cfg
