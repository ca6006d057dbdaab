-- ===== src/Tests/Pipeline.antt =====
-- internal/events/pipeline.go: a channel of depth one, which is full once.
use yomins_agent.Go.Text.{Bytes, codes, equal}
use yomins_agent.Prelude.{◌≡◌, refl, some, List, [], ◌∷◌, ◌++◌}
use yomins_agent.Events.Types.{Event, event_type_text}
use yomins_agent.Events.Auth.Lines.{sudo_event}
use yomins_agent.Events.Ring.{push_all}
use yomins_agent.Events.Pipeline.{move, Pipeline, Move, sends, receives, new_counter, run_moves}
use yomins_agent.Events.Pipeline.Interleave.{sent, received, add_all, occurrences, run_moves_order}
use yomins_agent.Tests.Auth.{twice, eve}

abbrev event : Bytes → Event
event id = sudo_event twice id 1 eve (codes "ls")

abbrev pipeline : Pipeline
pipeline = record {
  depth = 1;
  fan_in = [];
  buf = record {
    buf = event [] ∷ event [] ∷ [];
    head = 0;
    tail = 0;
    size = 0;
    cap = 2;
    dropped = 0;
  };
  counter = some new_counter;
}

abbrev moves : List Move
moves =
    sends (event (codes "a"))
    ∷ sends (event (codes "b"))
    ∷ receives
    ∷ sends (event (codes "b"))
    ∷ receives
    ∷ receives
    ∷ sends (event (codes "c"))
    ∷ []

received-two : occurrences (codes "auth.sudo") (received moves pipeline) ≡ 2
unfolding occurrences received event_type_text equal sudo_event move
received-two = refl

run_moves_order_example :
    ([] ++ sent moves pipeline ≡ received moves pipeline ++ (run_moves moves pipeline).fan_in)
    × ((run_moves moves pipeline).buf ≡ push_all (received moves pipeline) pipeline.buf)
    × ((run_moves moves pipeline).counter ≡ add_all (received moves pipeline) (some new_counter))
run_moves_order_example = run_moves_order moves pipeline
