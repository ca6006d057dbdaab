-- ===== src/Logs/Ship/Bounds.antt =====
-- How large the batches are that the shipper posts.
use yomins_agent.Go.Text.{Bytes}
use yomins_agent.Prelude.{
  ℕ, ◌+◌, ◌*◌, min, ◌≤◌, ◌<◌, Bool, true, Option, none, some, List, [], ◌∷◌, ◌++◌, ◌==◌, length,
  if◌then◌else◌, arith, inl, inr, ◌⊎◌, Bool-cases, length-append, not, ◌&&◌, ltb, leb,
}
use yomins_agent.Logs.Types.{Entry}
use yomins_agent.Logs.Ship.{
  ShipperConfig, Reply, World, Shipper, Signal, entry, timer, pause_of, ack, deliver_from, deliver,
  delivered_batch, flush, has_ended, encode, append_line, receive, step, run, post_batch,
  count_retry, second,
}
use yomins_agent.Logs.Ship.Batches.{after_reply_all, if_all}

module _ (cfg : ShipperConfig) where
  -- The bounds for a batch and its bytes: a line that is too long by itself goes out alone.
  abbrev pub Fits : List Entry × Bytes → Type 0
  Fits (batch, payload) =
      (length batch ≤ cfg.max_batch_lines)
      × ((length payload ≤ cfg.max_batch_bytes) ⊎ (length batch ≤ 1))

  abbrev pub AllFit : List (List Entry × Bytes) → Type 0
  AllFit [] = Unit
  AllFit (p ∷ ps) = Fits p × AllFit ps

  deliver_from-AllFit :
      (rs : List Reply) (wait : ℕ) (batch : List Entry) (payload : Bytes) (w : World)
      → Fits (batch, payload)
      → AllFit w.posted
      → AllFit (deliver_from rs wait batch payload w).posted
  unfolding deliver_from ack
  deliver_from-AllFit [] wait batch payload w f all = all
  deliver_from-AllFit (r ∷ rs) wait batch payload w f all =
      let tried = count_retry (pause_of r.result wait) (post_batch rs batch payload w) in
      after_reply_all (λ w'. AllFit w'.posted) r.result (f, all) (f, all)
        (if_all (λ w'. AllFit w'.posted) r.slept
          (deliver_from-AllFit rs (min (pause_of r.result wait * 2) (60 * second)) batch payload
            tried f (f, all))
          (f, all))

  delivered_batch-AllFit :
      (batch : List Entry) (payload : Bytes) (w : World)
      → Fits (batch, payload)
      → AllFit w.posted
      → AllFit (delivered_batch batch payload w).posted
  unfolding delivered_batch deliver
  delivered_batch-AllFit [] payload w f all = all
  delivered_batch-AllFit (e ∷ es) payload w f all =
      deliver_from-AllFit w.replies second (e ∷ es) payload w f all

  -- The open batch has room for another line.
  abbrev pub IsSmall : Shipper → Type 0
  IsSmall s =
      (length s.batch < cfg.max_batch_lines)
      × ((length s.buf ≤ cfg.max_batch_bytes) ⊎ (length s.batch ≤ 1))
      × AllFit s.world.posted

  flush-IsSmall :
      (s : Shipper)
      → 1 ≤ cfg.max_batch_lines
      → Fits (s.batch, s.buf)
      → AllFit s.world.posted
      → IsSmall (flush s)
  unfolding flush
  flush-IsSmall s positive f all =
      (omega arith, inl (omega arith), delivered_batch-AllFit s.batch s.buf s.world f all)

  -- With room for one more line, `t` takes the line.
  abbrev HasRoom : Bytes → Shipper → Type 0
  HasRoom line t =
      (length t.batch < cfg.max_batch_lines)
      × ((length t.buf + length line ≤ cfg.max_batch_bytes) ⊎ (length t.batch ≤ 0))
      × AllFit t.world.posted

  abbrev is_full : Bytes → Shipper → Bool
  is_full line s = not (length s.batch == 0) && ltb cfg.max_batch_bytes (length s.buf + length line)

  make_room :
      (line : Bytes) (s : Shipper)
      → 1 ≤ cfg.max_batch_lines
      → IsSmall s
      → HasRoom line (if is_full line s then flush s else s)
  unfolding flush
  make_room line s positive (few, small, all) = elim (Bool-cases (is_full line s)) [
    | inr room ↦ rw room (few, ground (arith, room), all)
    | inl full ↦ rw full (
      omega arith,
      inr (omega arith),
      delivered_batch-AllFit s.batch s.buf s.world (omega arith, small) all,
    )
  ]

  abbrev with_line : Entry → Bytes → Shipper → Shipper
  with_line e line t = record t { batch = t.batch ++ e ∷ []; buf = t.buf ++ line; pending = true }

  close_batch :
      (e : Entry) (line : Bytes) (t : Shipper)
      → 1 ≤ cfg.max_batch_lines
      → HasRoom line t
      → IsSmall (
          if leb cfg.max_batch_lines (length (with_line e line t).batch)
          then flush (with_line e line t)
          else with_line e line t)
  close_batch e line t positive (few, room, all) =
      let lines = length-append t.batch (e ∷ []) in
      let bytes = length-append t.buf line in
      let f : Fits ((with_line e line t).batch, (with_line e line t).buf) =
        (omega (arith, lines), ground (arith, lines, bytes, room)) in
      elim (Bool-cases (leb cfg.max_batch_lines (length (with_line e line t).batch))) [
        | inl closed ↦ rw closed (flush-IsSmall (with_line e line t) positive f all)
        | inr open_still ↦ rw open_still (ground (arith, open_still), f.1, all)
      ]

  module _ (redact : Bytes → Bytes) (format_time : ℕ → Bytes)
      (marshal : List (Bytes × Bytes) → Option Bytes) where
    receive-IsSmall :
        (e : Entry) (o : Option Bytes) (s : Shipper)
        → 1 ≤ cfg.max_batch_lines
        → IsSmall s
        → IsSmall (receive redact format_time marshal cfg e o s)
    unfolding receive append_line ack
    receive-IsSmall e none s positive small = small
    receive-IsSmall e (some line) s positive small =
        close_batch e line (if is_full line s then flush s else s) positive
          (make_room line s positive small)

    step-IsSmall :
        (now : ℕ) (x : Signal) (s : Shipper)
        → 1 ≤ cfg.max_batch_lines
        → IsSmall s
        → IsSmall (step redact format_time marshal cfg now x s)
    unfolding step
    step-IsSmall now (entry e) s positive small = elim (Bool-cases (has_ended s.world)) [
      | inl ended ↦ rw ended small
      | inr goes_on ↦
          rw goes_on
            (receive-IsSmall e (encode redact format_time marshal cfg now e) s positive small)
    ]
    step-IsSmall now timer s positive (few, small, all) = elim (Bool-cases (has_ended s.world)) [
      | inl ended ↦ rw ended (few, small, all)
      | inr goes_on ↦ rw goes_on (flush-IsSmall s positive (omega arith, small) all)
    ]

    -- No batch that is posted has more lines than configured, none but a single line has more
    -- bytes than configured, and neither has the open batch, which is never full.
    pub run-IsSmall :
        (xs : List (ℕ × Signal)) (s : Shipper)
        → 1 ≤ cfg.max_batch_lines
        → IsSmall s
        → IsSmall (run redact format_time marshal cfg xs s)
    unfolding run
    run-IsSmall [] s positive small = small
    run-IsSmall ((now, x) ∷ xs) s positive small =
        run-IsSmall xs (step redact format_time marshal cfg now x s) positive
          (step-IsSmall now x s positive small)
