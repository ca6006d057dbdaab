-- ===== src/Transport/Flush/Conserve.antt =====
-- No event is lost between the buffer and the server.
use yomins_agent.Go.Text.{Bytes}
use yomins_agent.Events.Ring.{push_all, drain}
use yomins_agent.Events.Ring.Refine.{contents, drain_refines}
use yomins_agent.Prelude.{
  ℕ, zero, suc, ◌≤◌, ◌<◌, ◌≡◌, ◌≢◌, refl, sym, ap, ◌∙◌, true, false, Option, none, some, List, [],
  ◌∷◌, ◌++◌, append_assoc, arith, length, length-take, length-drop, take, drop, take-append-drop,
  Bool-cases, inl, inr,
}
use yomins_agent.Transport.Session.{is_paused}
use yomins_agent.Transport.Attempt.{SendError}
use yomins_agent.Transport.Retry.{Outcome, Retry}
use yomins_agent.Transport.Flush.{FlushConfig, World, is_settled, post_batch, flush_from, flush}

module _ {Event : Type 0} (z : Event) (marshal_events : List Event → Option Bytes)
    (gzip : Bytes → Option Bytes) (backoff : Retry (World Event) SendError)
    (cfg : FlushConfig) where
  abbrev send_batch : List Event → World Event → World Event × Outcome SendError
  send_batch = post_batch z marshal_events gzip backoff cfg

  -- These events were posted from the one world to the other, in order, in batches that are each
  -- settled, not empty and within the batch size.
  pub data Shipped : World Event → List Event → World Event → Type 0 where
    none_left : {w : World Event} → Shipped w [] w
    batch :
        {w w' u : World Event} {o : Outcome SendError} {es : List Event} (b : List Event)
        → send_batch b w ≡ (w', o)
        → is_settled o ≡ true
        → 0 < length b
        → length b ≤ cfg.batch_size
        → Shipped w' es u
        → Shipped w (b ++ es) u

  -- How a flush ends with the events `kept` left: with none, and the nil error; or with the batch
  -- at their head not settled, all of them pushed back in order, and that batch's error.
  pub data Ends (kept : List Event) (last : World Event)
      (r : World Event × Option (Outcome SendError)) : Type 0 where
    all_settled : kept ≡ [] → r ≡ (last, none) → Ends kept last r
    gave_back :
        (w : World Event) (o : Outcome SendError)
        → kept ≢ []
        → send_batch (take cfg.batch_size kept) last ≡ (w, o)
        → is_settled o ≡ false
        → r ≡ (record w { buf = push_all kept w.buf }, some o)
        → Ends kept last r

  -- What a flush does with the events `rest`: it ships the first of them and keeps the others.
  pub record Flushed (w : World Event) (rest : List Event)
      (r : World Event × Option (Outcome SendError)) : Type 0 where
    pub handled : List Event
    pub kept : List Event
    pub last : World Event
    pub splits : rest ≡ handled ++ kept
    pub shipped : Shipped w handled last
    pub ends : Ends kept last r

  Flushed-nothing : (w : World Event) → Flushed w [] (w, none)
  Flushed-nothing w = record {
    handled = [];
    kept = [];
    last = w;
    splits = refl;
    shipped = none_left;
    ends = all_settled refl refl;
  }

  Flushed-batch :
      (w w' : World Event) (o : Outcome SendError) (rest : List Event)
      (r : World Event × Option (Outcome SendError))
      → 0 < length (take cfg.batch_size rest)
      → send_batch (take cfg.batch_size rest) w ≡ (w', o)
      → is_settled o ≡ true
      → Flushed w' (drop cfg.batch_size rest) r
      → Flushed w rest r
  Flushed-batch w w' o rest r pos e settled f = record {
    handled = take cfg.batch_size rest ++ f.handled;
    kept = f.kept;
    last = f.last;
    splits =
        sym (take-append-drop cfg.batch_size rest)
        ∙ ap (◌++◌ (take cfg.batch_size rest)) f.splits
        ∙ sym (append_assoc (take cfg.batch_size rest) f.handled f.kept);
    shipped =
        batch (take cfg.batch_size rest) e settled pos
          (omega (arith, length-take cfg.batch_size rest)) f.shipped;
    ends = f.ends;
  }

  flush_from-Flushed :
      (fuel : ℕ) (rest : List Event) (w : World Event)
      → 0 < cfg.batch_size
      → length rest ≤ fuel
      → Flushed w rest (flush_from z marshal_events gzip backoff cfg fuel rest w)
  unfolding flush_from
  flush_from-Flushed zero [] w pos enough = Flushed-nothing w
  flush_from-Flushed zero (e ∷ es) w pos enough = absurd (omega arith)
  flush_from-Flushed (suc fuel) [] w pos enough = Flushed-nothing w
  flush_from-Flushed (suc fuel) (e ∷ es) w pos enough =
      let r = send_batch (take cfg.batch_size (e ∷ es)) w in
      elim (Bool-cases (is_settled r.1)) [
        | inl settled ↦
            rw (settled, flush_from)
              (Flushed-batch w r.0 r.1 (e ∷ es) _
                (omega (arith, length-take cfg.batch_size (e ∷ es))) refl settled
                (flush_from-Flushed fuel (drop cfg.batch_size (e ∷ es)) r.0 pos
                  (omega (arith, length-drop cfg.batch_size (e ∷ es)))))
        | inr not_settled ↦
            rw (not_settled, flush_from)
              (record {
                handled = [];
                kept = e ∷ es;
                last = w;
                splits = refl;
                shipped = none_left;
                ends = gave_back r.0 r.1 (λ eq. cc) refl not_settled refl;
              })
      ]

  -- A flush that is not paused takes all that the buffer holds, ships the first of those events
  -- in order, in settled batches of at most the batch size, and pushes every other one back in
  -- order, after an error; with the nil error there are no others. One that is paused leaves the
  -- world as it is. There is fuel enough for this.
  pub flush_conserves :
      (check : ℕ) (w : World Event)
      → 0 < cfg.batch_size
      → (is_paused check w.wire.session ≡ false
          → Flushed
              (record w { buf = (drain z w.buf).1 })
              (contents z w.buf)
              (flush z marshal_events gzip backoff cfg check w))
        × (is_paused check w.wire.session ≡ true
            → flush z marshal_events gzip backoff cfg check w ≡ (w, none))
  unfolding flush
  flush_conserves check w pos = (
    (λ runs.
        rw (runs, flush)
          (rw ((drain_refines z w.buf).0) (
            flush_from-Flushed (length (contents z w.buf)) (contents z w.buf) _ pos
              (omega arith)))),
    (λ stopped. rw (stopped, flush)),
  )
