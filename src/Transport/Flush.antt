-- ===== src/Transport/Flush.antt =====
-- internal/transport/events.go: `EventHTTPTransport`, which drains the ring buffer and posts the
-- events in batches. While a batch is on its way the pipeline may push events: those of each
-- attempt come with the world's answer to it. `json.Marshal` of a batch is the parameter
-- `marshal`, `none` for its error.

pub mod Conserve
pub mod Delivered
pub mod Requeue
use yomins_agent.Go.Text.{Bytes}
use yomins_agent.Events.Ring.{RingBuffer, push_all, drain}
use yomins_agent.Prelude.{
  ℕ, zero, suc, Bool, true, false, Option, none, some, List, [], ◌∷◌, if◌then◌else◌, length, take,
  drop, ◌==◌,
}
use yomins_agent.Transport.Session.{is_paused}
use yomins_agent.Transport.Attempt.{
  Answer, Endpoint, Wire, Attempt, transient, SendError, marshal, network, bad_batch, do_post,
}
use yomins_agent.Transport.Retry.{Outcome, finished, cancelled, failed, Retry}

-- `EventFlushConfig` behind `NewEventHTTPTransport`, less the interval, which only times `Run`.
pub record FlushConfig : Type 0 where
  pub endpoint : Endpoint
  pub batch_size : ℕ

-- The default of `NewEventHTTPTransport`.
unfoldable pub new_flush_config : Endpoint → ℕ → FlushConfig
new_flush_config ep size = record { endpoint = ep; batch_size = if size == 0 then 200 else size }

module _ (Event : Type 0) where
  -- One attempt as the world sees it: the time, the answer, and the events pushed meanwhile.
  pub record Moment : Type 0 where
    pub now : ℕ
    pub answer : Answer
    pub arrivals : List Event

  pub record World : Type 0 where
    pub buf : RingBuffer Event
    pub wire : Wire
    pub moments : List Moment

-- The batch is done with: taken by the server, or a `badBatchError` and dropped.
unfoldable pub is_settled : Outcome SendError → Bool
is_settled finished = true
is_settled cancelled = false
is_settled (failed (bad_batch n)) = true
is_settled (failed e) = false

module _ {Event : Type 0} (z : Event) (marshal_events : List Event → Option Bytes)
    (gzip : Bytes → Option Bytes) (backoff : Retry (World Event) SendError)
    (cfg : FlushConfig) where
  attempt_at : Bytes → World Event → List (Moment Event) → World Event × Attempt SendError
  attempt_at body w [] = (w, transient network)
  attempt_at body w (m ∷ ms) =
      let (wire', result) = do_post gzip cfg.endpoint m.now m.answer body w.wire in
      (record { buf = push_all m.arrivals w.buf; wire = wire'; moments = ms }, result)

  -- The `op` of `postBatch`. When no moment is left the network is gone.
  unfoldable pub attempt : Bytes → World Event → World Event × Attempt SendError
  unfolding attempt_at
  attempt body w = attempt_at body w w.moments

  -- `postBatch`.
  unfoldable pub post_batch : List Event → World Event → World Event × Outcome SendError
  unfolding attempt
  post_batch batch w = elim (marshal_events batch) [
    | none ↦ (w, failed marshal)
    | some body ↦ backoff.retry (attempt body) w
  ]

  -- The loop of `flush` over the events not yet posted, `all[i:]`; `none` is the nil error.
  unfoldable pub flush_from :
      ℕ → List Event → World Event → World Event × Option (Outcome SendError)
  flush_from zero rest w = (w, none)
  flush_from (suc fuel) [] w = (w, none)
  flush_from (suc fuel) (e ∷ es) w =
      let (w', o) = post_batch (take cfg.batch_size (e ∷ es)) w in
      let next = flush_from fuel (drop cfg.batch_size (e ∷ es)) w' in
      let requeued = record w' { buf = push_all (e ∷ es) w'.buf } in
      elim (is_settled o) [ true ↦ next | false ↦ (requeued, some o) ]

  -- `flush`; `check` is the time that its `Paused` reads. A round takes an event at least, so the
  -- number of events is fuel enough.
  unfoldable pub flush : ℕ → World Event → World Event × Option (Outcome SendError)
  unfolding flush_from post_batch
  flush check w =
      let (all, buf') = drain z w.buf in
      if is_paused check w.wire.session
      then (w, none)
      else flush_from (length all) all (record w { buf = buf' })
