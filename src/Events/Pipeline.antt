-- ===== src/Events/Pipeline.antt =====
-- internal/events/pipeline.go and counter.go: the collectors send into one channel, and the
-- fan-in loop takes from it, pushes into the ring buffer and counts. Which of them moves next is
-- up to the scheduler, so a run is a list of moves. The counts are numbers instead of floats,
-- under the texts of the types, which are strings in Go.
pub mod Interleave
use yomins_agent.Go.Text.{Bytes, equal, bytes_eq}
use yomins_agent.Events.Types.{
  Event, EventType, auth_login_success, auth_login_failed, auth_logout, auth_sudo,
  auth_bruteforce_detected, auth_login_new_ip, process_start, process_stop, process_high_cpu,
  process_high_memory, process_suspicious, process_exec_tmp, process_reverse_shell,
  network_connection_open, network_scan_detected, network_suspicious_port, system_reboot,
  system_oom_killer, system_user_created, system_user_deleted, system_config_modified,
  event_type_text,
}
use yomins_agent.Events.Ring.{RingBuffer, new_ring_buffer, push}
use yomins_agent.Prelude.Map.{lookup, insert}
use yomins_agent.Prelude.{
  ℕ, ◌+◌, Bool, true, false, Option, none, some, List, [], ◌∷◌, ◌++◌, ◌==◌, ltb, length,
  if◌then◌else◌,
}

-- `AllTypes`.
abbrev pub all_types : List EventType
all_types =
    auth_login_success ∷ auth_login_failed ∷ auth_logout ∷ auth_sudo ∷ auth_bruteforce_detected
    ∷ auth_login_new_ip ∷ process_start ∷ process_stop ∷ process_high_cpu ∷ process_high_memory
    ∷ process_suspicious ∷ process_exec_tmp ∷ process_reverse_shell ∷ network_connection_open
    ∷ network_scan_detected ∷ network_suspicious_port ∷ system_reboot ∷ system_oom_killer
    ∷ system_user_created ∷ system_user_deleted ∷ system_config_modified ∷ []

-- `Counter`.
abbrev pub Counter : Type 0
Counter = List (Bytes × ℕ)

-- The loop of `NewCounter`.
unfoldable pub zero_all : List EventType → Counter → Counter
unfolding event_type_text insert
zero_all [] c = c
zero_all (t ∷ ts) c = zero_all ts (insert (event_type_text t) 0 c)

-- `NewCounter`.
unfoldable pub new_counter : Counter
unfolding zero_all
new_counter = zero_all all_types []

-- Go's map read without the comma-ok form.
abbrev pub count_or_zero : Option ℕ → ℕ
count_or_zero none = 0
count_or_zero (some n) = n

-- `Add`.
unfoldable pub add : Event → Counter → Counter
unfolding event_type_text insert lookup
add ev c = let type = event_type_text ev.type in insert type (count_or_zero (lookup type c) + 1) c

-- `PipelineConfig` behind its defaults.
unfoldable pub buffer_size : ℕ → ℕ
buffer_size n = if n == 0 then 10_000 else n

unfoldable pub fan_in_depth : ℕ → ℕ
fan_in_depth n = if n == 0 then 256 else n

-- `Pipeline`, with what its channel holds.
pub record Pipeline : Type 0 where
  pub depth : ℕ
  pub fan_in : List Event
  pub buf : RingBuffer Event
  pub counter : Option Counter

-- `NewPipeline`; `z` is the zero event and `none` the panic of `NewRingBuffer`.
unfoldable pub new_pipeline : Event → ℕ → ℕ → Option Counter → Option Pipeline
unfolding buffer_size fan_in_depth new_ring_buffer
new_pipeline z size depth counter = elim (new_ring_buffer z (buffer_size size)) [
  | none ↦ none
  | some buf ↦
      some (record { depth = fan_in_depth depth; fan_in = []; buf = buf; counter = counter })
]

abbrev pub add_if : Event → Option Counter → Option Counter
add_if ev none = none
add_if ev (some c) = some (add ev c)

-- The body of the fan-in loop.
unfoldable pub take_event : Event → Pipeline → Pipeline
unfolding push add
take_event ev p = record p { buf = push ev p.buf; counter = add_if ev p.counter }

-- The next move: a collector sends an event, or the fan-in loop receives one.
pub data Move : Type 0 where
  sends : Event → Move
  receives : Move

-- The loop's receive from a channel that holds these events; from an empty one it waits.
unfoldable pub receive_from : List Event → Pipeline → Pipeline
unfolding take_event
receive_from [] p = p
receive_from (ev ∷ rest) p = record (take_event ev p) { fan_in = rest }

abbrev pub enqueued : Event → Pipeline → Pipeline
enqueued ev p = record p { fan_in = p.fan_in ++ ev ∷ [] }

-- One move; a send to a full channel waits.
unfoldable pub move : Move → Pipeline → Pipeline
unfolding receive_from
move (sends ev) p = if ltb (length p.fan_in) p.depth then enqueued ev p else p
move receives p = receive_from p.fan_in p

unfoldable pub run_moves : List Move → Pipeline → Pipeline
run_moves [] p = p
run_moves (x ∷ xs) p = run_moves xs (move x p)
