-- ===== src/Events/Ring/Client.antt =====
-- A client's view of `RingBuffer`: the calls in the order in which they take the mutex, and what
-- each returns, from the ring and from the queue.
use yomins_agent.Prelude.{arith, ℕ, ◌≡◌, refl, sym, ap, ap₂, ◌∙◌, List, [], ◌∷◌, length, some}
use yomins_agent.Events.Ring.{
  RingBuffer, new_ring_buffer, push, drain, read_out, buffered, dropped_total,
}
use yomins_agent.Events.Ring.Queue.{Queue, put}
use yomins_agent.Events.Ring.Valid.{
  IsValid, new_ring_buffer-IsValid, push-IsValid, drain-IsValid, cap-push, cap-drain,
}
use yomins_agent.Events.Ring.Refine.{view, length-contents, push_refines, drain_refines}

module _ {ℓ} (A : Type ℓ) where
  pub data Op : Type ℓ where
    do_push : A → Op
    do_drain do_len do_dropped : Op

  pub data Reply : Type ℓ where
    nothing : Reply
    events : List A → Reply
    count : ℕ → Reply

module _ {ℓ} {A : Type ℓ} where
  unfoldable pub run : A → RingBuffer A → List (Op A) → List (Reply A)
  run z r [] = []
  run z r (do_push e ∷ ops) = nothing ∷ run z (push e r) ops
  run z r (do_drain ∷ ops) = let (out, r') = drain z r in events out ∷ run z r' ops
  run z r (do_len ∷ ops) = count (buffered r) ∷ run z r ops
  run z r (do_dropped ∷ ops) = count (dropped_total r) ∷ run z r ops

  unfoldable pub run_queue : ℕ → Queue A → List (Op A) → List (Reply A)
  run_queue cap q [] = []
  run_queue cap q (do_push e ∷ ops) = nothing ∷ run_queue cap (put cap e q) ops
  run_queue cap q (do_drain ∷ ops) = events q.items ∷ run_queue cap (record q { items = [] }) ops
  run_queue cap q (do_len ∷ ops) = count (length q.items) ∷ run_queue cap q ops
  run_queue cap q (do_dropped ∷ ops) = count q.lost ∷ run_queue cap q ops

  -- No sequence of calls tells a valid buffer from the bounded queue of its contents.
  pub run_refines :
      (z : A) (ops : List (Op A)) (r : RingBuffer A)
      → IsValid r
      → run z r ops ≡ run_queue r.cap (view z r) ops
  unfolding run run_queue buffered dropped_total
  run_refines z [] r v = refl
  run_refines z (do_push e ∷ ops) r v = ap (◌∷◌ nothing) (
      run_refines z ops (push e r) (push-IsValid e v)
      ∙ ap₂ (λ k q. run_queue k q ops) (cap-push e r) (push_refines z e r v))
  run_refines z (do_drain ∷ ops) r v =
      let (all, empty, lost) = drain_refines z r in
      ap₂ ◌∷◌ (ap events all) (
        run_refines z ops (drain z r).1 (drain-IsValid z v)
        ∙ ap₂ (λ k q. run_queue k q ops) (cap-drain z r)
            (ap₂ (λ xs n. record { items = xs; lost = n }) empty lost))
  run_refines z (do_len ∷ ops) r v =
      ap₂ ◌∷◌ (ap count (sym (length-contents z r))) (run_refines z ops r v)
  run_refines z (do_dropped ∷ ops) r v = ap (◌∷◌ (count r.dropped)) (run_refines z ops r v)

  new_ring_buffer_lem :
      (z : A) (n : ℕ) {r : RingBuffer A}
      → new_ring_buffer z n ≡ some r
      → (r.cap ≡ n) × (view z r ≡ record { items = []; lost = 0 })
  unfolding new_ring_buffer read_out
  new_ring_buffer_lem z n {r} e =
      let p : (r.cap ≡ n) × (r.size ≡ 0) × (r.dropped ≡ 0) = ground arith in
      (p.0, ap₂ (λ k d. record { items = read_out z r.buf r.cap r.head 0 k; lost = d }) p.1 p.2)

  -- What `NewRingBuffer` returns answers every sequence of calls as the empty queue of that
  -- capacity does: events come out once and in order, and only the oldest of a full buffer go.
  pub new_ring_buffer_refines :
      (z : A) (n : ℕ) (ops : List (Op A)) {r : RingBuffer A}
      → new_ring_buffer z n ≡ some r
      → run z r ops ≡ run_queue n (record { items = []; lost = 0 }) ops
  new_ring_buffer_refines z n ops {r} e =
      let (c, empty) = new_ring_buffer_lem z n e in
      run_refines z ops r (new_ring_buffer-IsValid z n e) ∙ ap₂ (λ k q. run_queue k q ops) c empty
