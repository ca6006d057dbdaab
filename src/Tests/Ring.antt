-- ===== src/Tests/Ring.antt =====
-- internal/events/buffer.go on small buffers.
use yomins_agent.Prelude.{ℕ, ◌%◌, ◌^◌, ◌≡◌, refl, List, [], ◌∷◌, ◌++◌, some, arith, drop}
use yomins_agent.Events.Ring.{
  RingBuffer, new_ring_buffer, push, push_all, drain, buffered, dropped_total,
}
use yomins_agent.Events.Ring.Queue.{put}
use yomins_agent.Events.Ring.Valid.{IsValid}
use yomins_agent.Events.Ring.Refine.{contents, view, push_refines}
use yomins_agent.Events.Ring.Loss.{push_all_keeps_newest}
use yomins_agent.Events.Ring.Client.{
  Op, do_push, do_drain, do_len, do_dropped, nothing, events, count, run, run_queue,
  new_ring_buffer_refines,
}

abbrev fresh : RingBuffer ℕ
fresh = record { buf = 0 ∷ 0 ∷ 0 ∷ []; head = 0; tail = 0; size = 0; cap = 3; dropped = 0 }

-- 2, 3 and 4, round the end of the storage.
abbrev wrapped : RingBuffer ℕ
wrapped = record { buf = 4 ∷ 2 ∷ 3 ∷ []; head = 1; tail = 1; size = 3; cap = 3; dropped = 1 }

abbrev script : List (Op ℕ)
script = do_push 1 ∷ do_push 2 ∷ do_push 3 ∷ do_push 4 ∷ do_len ∷ do_drain ∷ do_dropped ∷ []

fresh_made : new_ring_buffer 0 3 ≡ some fresh
unfolding new_ring_buffer
fresh_made = refl

run-script :
    run 0 fresh script
    ≡ nothing ∷ nothing ∷ nothing ∷ nothing ∷ count 3 ∷ events (2 ∷ 3 ∷ 4 ∷ []) ∷ count 1 ∷ []
unfolding run push drain buffered dropped_total
run-script = refl

push_all-wraps : push_all (1 ∷ 2 ∷ 3 ∷ 4 ∷ []) fresh ≡ wrapped
unfolding push_all push
push_all-wraps = refl

wrapped-IsValid : IsValid wrapped
wrapped-IsValid = omega arith

push_refines_example : view 0 (push 5 wrapped) ≡ put 3 5 (view 0 wrapped)
push_refines_example = push_refines 0 5 wrapped wrapped-IsValid

push_all_keeps_newest_example :
    (contents 0 (push_all (5 ∷ 6 ∷ []) wrapped) ≡ drop 2 (contents 0 wrapped ++ 5 ∷ 6 ∷ []))
    × ((push_all (5 ∷ 6 ∷ []) wrapped).dropped % 2 ^ 64 ≡ 3)
push_all_keeps_newest_example = push_all_keeps_newest 0 (5 ∷ 6 ∷ []) wrapped wrapped-IsValid

new_ring_buffer_refines_example :
    run 0 fresh script ≡ run_queue 3 (record { items = []; lost = 0 }) script
new_ring_buffer_refines_example = new_ring_buffer_refines 0 3 script fresh_made
