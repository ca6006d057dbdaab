-- ===== src/Tests/Flush.antt =====
-- The flush of internal/transport/events.go in two scenes: a server that refuses one batch and
-- then goes away, and a server that goes away while events arrive. An event is a number here.
use yomins_agent.Go.Text.{Bytes}
use yomins_agent.Prelude.{ℕ, ◌≡◌, refl, List, [], ◌∷◌, Option, some, none, arith, true, false}
use yomins_agent.Events.Ring.{RingBuffer, push, push_all, drain}
use yomins_agent.Events.Ring.Refine.{contents}
use yomins_agent.Transport.Session.{is_paused}
use yomins_agent.Transport.Attempt.{no_response, responds, SendError, network, do_post}
use yomins_agent.Transport.Retry.{failed, Retry, bounded, attempts}
use yomins_agent.Transport.Flush.{FlushConfig, World, is_settled, attempt, flush}
use yomins_agent.Transport.Flush.Conserve.{Flushed, flush_conserves}
use yomins_agent.Tests.Transport.{reply, server, idle, no_gzip}

abbrev marshal_numbers : List ℕ → Option Bytes
marshal_numbers es = some es

abbrev once_more : Retry (World ℕ) SendError
once_more = bounded 1

abbrev by_two : FlushConfig
by_two = record { endpoint = server; batch_size = 2 }

abbrev held : RingBuffer ℕ
held = record { buf = 3 ∷ 1 ∷ 2 ∷ []; head = 1; tail = 1; size = 3; cap = 3; dropped = 0 }

abbrev quiet_world : World ℕ
quiet_world = record {
  buf = held;
  wire = idle;
  moments =
      record { now = 5; answer = responds (reply 500); arrivals = [] }
      ∷ record { now = 6; answer = responds (reply 413); arrivals = [] }
      ∷ record { now = 7; answer = no_response; arrivals = [] }
      ∷ [];
}

-- Events 8 and 9 arrive while the first batch fails.
abbrev busy_world : World ℕ
busy_world = record quiet_world {
  moments =
      record { now = 5; answer = no_response; arrivals = 8 ∷ 9 ∷ [] }
      ∷ record { now = 6; answer = no_response; arrivals = [] }
      ∷ [];
}

flush-quiet_world :
    let (w, e) = flush 0 marshal_numbers no_gzip once_more by_two 1 quiet_world in
    (contents 0 w.buf ≡ 3 ∷ []) × (e ≡ some (failed network))
unfolding flush attempts attempt do_post is_settled is_paused drain push_all push
flush-quiet_world = (refl, refl)

-- The events that arrived last are those lost.
flush-busy_world :
    let (w, e) = flush 0 marshal_numbers no_gzip once_more by_two 1 busy_world in
    (contents 0 w.buf ≡ 1 ∷ 2 ∷ 3 ∷ []) × (w.buf.dropped ≡ 2)
unfolding flush attempts attempt do_post is_settled is_paused drain push_all push
flush-busy_world = (refl, refl)

flush_conserves_example :
    (is_paused 1 quiet_world.wire.session ≡ false
      → Flushed 0 marshal_numbers no_gzip once_more by_two
          (record quiet_world { buf = (drain 0 held).1 })
          (contents 0 held)
          (flush 0 marshal_numbers no_gzip once_more by_two 1 quiet_world))
    × (is_paused 1 quiet_world.wire.session ≡ true
        → flush 0 marshal_numbers no_gzip once_more by_two 1 quiet_world ≡ (quiet_world, none))
flush_conserves_example =
    flush_conserves 0 marshal_numbers no_gzip once_more by_two 1 quiet_world (omega arith)

abbrev good_world : World ℕ
good_world = record quiet_world {
  moments =
      record { now = 5; answer = responds (reply 503); arrivals = [] }
      ∷ record { now = 6; answer = responds (reply 204); arrivals = [] }
      ∷ [];
}
