-- ===== src/Events/Pipeline/Interleave.antt =====
-- What every interleaving of the collectors and the fan-in loop keeps.
use yomins_agent.Go.Text.{Bytes, equal, equal_iff, bytes_eq}
use yomins_agent.Events.Types.{Event, EventType, event_type_text}
use yomins_agent.Events.Ring.{push_all}
use yomins_agent.Prelude.Map.{lookup, insert, lookup-insert}
use yomins_agent.Prelude.{
  ℕ, ◌+◌, true, false, Option, none, some, List, [], ◌∷◌, ◌++◌, ltb, length, if◌then◌else◌, ◌≡◌,
  refl, sym, ap, ◌∙◌, arith, inl, inr, Bool-cases, append_assoc, append-nil,
}
use yomins_agent.Events.Pipeline.{
  zero_all, new_counter, all_types, Counter, Pipeline, Move, sends, receives, add, add_if,
  count_or_zero, take_event, receive_from, enqueued, move, run_moves,
}

-- The events that the channel takes, and those that the loop receives from it.
unfoldable pub sent : List Move → Pipeline → List Event
sent [] p = []
sent (receives ∷ xs) p = sent xs (move receives p)
sent (sends ev ∷ xs) p =
    let rest = sent xs (move (sends ev) p) in
    if ltb (length p.fan_in) p.depth then ev ∷ rest else rest

abbrev pub first_of : List Event → List Event → List Event
first_of [] rest = rest
first_of (ev ∷ more) rest = ev ∷ rest

unfoldable pub received : List Move → Pipeline → List Event
received [] p = []
received (sends ev ∷ xs) p = received xs (move (sends ev) p)
received (receives ∷ xs) p = first_of p.fan_in (received xs (move receives p))

-- How many of these events have a type with this text.
unfoldable pub occurrences : Bytes → List Event → ℕ
occurrences t [] = 0
occurrences t (ev ∷ es) =
    let rest = occurrences t es in if equal (event_type_text ev.type) t then rest + 1 else rest

-- The counts behind a run of events.
unfoldable pub add_all : List Event → Option Counter → Option Counter
add_all [] c = c
add_all (ev ∷ es) c = add_all es (add_if ev c)

-- What a receive does to the channel, the buffer and the counter, whatever comes behind it.
receive_from-first_of :
    (f rest : List Event) (p : Pipeline)
    → (push_all rest (receive_from f p).buf ≡ push_all (first_of f rest) p.buf)
      × (add_all rest (receive_from f p).counter ≡ add_all (first_of f rest) p.counter)
unfolding receive_from take_event push_all add_all
receive_from-first_of [] rest p = (refl, refl)
receive_from-first_of (ev ∷ more) rest p = (refl, refl)

receive_from-fan_in :
    (f s r more : List Event) (p : Pipeline)
    → p.fan_in ≡ f
    → (receive_from f p).fan_in ++ s ≡ r ++ more
    → f ++ s ≡ first_of f r ++ more
unfolding receive_from take_event
receive_from-fan_in [] s r more p e h = ap (λ xs. xs ++ s) (sym e) ∙ h
receive_from-fan_in (ev ∷ f) s r more p e h = ap (λ xs. ev ∷ xs) h

sends-room :
    (ev : Event) (p : Pipeline)
    → ltb (length p.fan_in) p.depth ≡ true
    → move (sends ev) p ≡ enqueued ev p
unfolding move
sends-room ev p room = rw room refl

sends-full :
    (ev : Event) (p : Pipeline) → ltb (length p.fan_in) p.depth ≡ false → move (sends ev) p ≡ p
unfolding move
sends-full ev p full = rw full refl

-- However the collectors and the loop take turns, the events that the channel took leave it in
-- the order in which they were sent, and the ring buffer and the counter are those that the
-- events received so far give one after another; the others still wait in the channel.
pub run_moves_order :
    (xs : List Move) (p : Pipeline)
    → (p.fan_in ++ sent xs p ≡ received xs p ++ (run_moves xs p).fan_in)
      × ((run_moves xs p).buf ≡ push_all (received xs p) p.buf)
      × ((run_moves xs p).counter ≡ add_all (received xs p) p.counter)
unfolding run_moves sent received push_all add_all move
run_moves_order [] p = (append-nil p.fan_in, refl, refl)
run_moves_order (sends ev ∷ xs) p =
    let q = move (sends ev) p in
    let (order, buf, counter) = run_moves_order xs q in
    elim (Bool-cases (ltb (length p.fan_in) p.depth)) [
      | inl room ↦
          let same : q ≡ enqueued ev p = sends-room ev p room in
          (
            ap (λ b. p.fan_in ++ (if b then ev ∷ sent xs q else sent xs q)) room
                ∙ sym (append_assoc p.fan_in (ev ∷ []) (sent xs q))
                ∙ ap (λ r. r.fan_in ++ sent xs q) (sym same)
                ∙ order,
            buf ∙ ap (λ r. push_all (received xs q) r.buf) same,
            counter ∙ ap (λ r. add_all (received xs q) r.counter) same,
          )
      | inr full ↦
          let same : q ≡ p = sends-full ev p full in
          (
            ap (λ b. p.fan_in ++ (if b then ev ∷ sent xs q else sent xs q)) full
                ∙ ap (λ r. r.fan_in ++ sent xs q) (sym same)
                ∙ order,
            buf ∙ ap (λ r. push_all (received xs q) r.buf) same,
            counter ∙ ap (λ r. add_all (received xs q) r.counter) same,
          )
    ]
run_moves_order (receives ∷ xs) p =
    let q = receive_from p.fan_in p in
    let (order, buf, counter) = run_moves_order xs q in
    let (pushed, added) = receive_from-first_of p.fan_in (received xs q) p in
    (
      receive_from-fan_in p.fan_in (sent xs q) (received xs q) (run_moves xs q).fan_in p refl order,
      buf ∙ pushed,
      counter ∙ added,
    )

lookup-add :
    (t : Bytes) (ev : Event) (c : Counter)
    → count_or_zero (lookup t (add ev c)) ≡ (
        if equal (event_type_text ev.type) t
        then count_or_zero (lookup t c) + 1
        else count_or_zero (lookup t c))
unfolding add
lookup-add t ev c = ground (
  arith,
  lookup-insert (event_type_text ev.type) t (count_or_zero (lookup (event_type_text ev.type) c) + 1)
      c,
  equal_iff (event_type_text ev.type) t,
)

abbrev pub counted : Bytes → Option Counter → ℕ
counted t none = 0
counted t (some c) = count_or_zero (lookup t c)

counted-add_all :
    (t : Bytes) (es : List Event) (c : Counter)
    → counted t (add_all es (some c)) ≡ occurrences t es + count_or_zero (lookup t c)
unfolding add_all occurrences
counted-add_all t [] c = omega arith
counted-add_all t (ev ∷ es) c = ground (arith, counted-add_all t es (add ev c), lookup-add t ev c)

zero_all-zero :
    (t : Bytes) (ts : List EventType) (c : Counter)
    → count_or_zero (lookup t c) ≡ 0
    → count_or_zero (lookup t (zero_all ts c)) ≡ 0
unfolding zero_all
zero_all-zero t [] c h = h
zero_all-zero t (x ∷ ts) c h =
    zero_all-zero t ts (insert (event_type_text x) 0 c)
      (ground (arith, h, lookup-insert (event_type_text x) t 0 c))

new_counter-zero : (t : Bytes) → count_or_zero (lookup t new_counter) ≡ 0
unfolding new_counter lookup
new_counter-zero t = zero_all-zero t all_types [] refl

-- In a pipeline that starts with a new counter, the count of every type is the number of the
-- events of that type that the loop received, however the collectors and the loop take turns.
pub run_moves_counts :
    (xs : List Move) (p : Pipeline) (t : Bytes)
    → p.counter ≡ some new_counter
    → counted t (run_moves xs p).counter ≡ occurrences t (received xs p)
run_moves_counts xs p t fresh =
    let (order, buf, counter) = run_moves_order xs p in
    let total = counted-add_all t (received xs p) new_counter in
    let zero = new_counter-zero t in
    let here = ap (counted t) (counter ∙ ap (add_all (received xs p)) fresh) in
    omega (arith, here, total, zero)
