-- ===== src/Logs/Ship/Batches.antt =====
-- What becomes of the entries that the shipper receives, and how large its batches are.
use yomins_agent.Go.Text.{Bytes}
use yomins_agent.Prelude.{
  ℕ, ◌+◌, Bool, true, false, Option, some, List, [], ◌∷◌, ◌++◌, ◌==◌, length, if◌then◌else◌, ◌≡◌,
  refl, sym, ap, ap₂, min, ◌*◌, ◌∙◌, inl, inr, ◌⊎◌, Bool-cases, append_assoc, append-nil, not, ◌&&◌,
  ltb, leb,
}
use yomins_agent.Logs.Types.{Entry}
use yomins_agent.Transport.Attempt.{PostResult, delivered, paused, network, rejected, refused, busy}
use yomins_agent.Logs.Ship.{
  object, line_end, post_batch, count_retry, count_shipped, count_refused, give_up, second,
  ShipperConfig, Reply, World, Shipper, Signal, entry, timer, after_reply, pause_of, ack,
  deliver_from, deliver, delivered_batch, flush, has_ended, encode, append_line, receive, step, run,
}

-- The entries with which the world is done, in order: no reply comes once one was given up.
abbrev settled : World → List Entry
settled w = w.acked ++ w.given_up

abbrev pub Ordered : World → Type 0
Ordered w = (w.given_up ≡ []) ⊎ (w.replies ≡ [])

pub after_reply_all :
    (P : World → Type 0) (p : PostResult) {taken dropped again : World}
    → P taken
    → P dropped
    → P again
    → P (after_reply p taken dropped again)
unfolding after_reply
after_reply_all P delivered t d a = t
after_reply_all P (refused status) t d a = d
after_reply_all P paused t d a = a
after_reply_all P network t d a = a
after_reply_all P (rejected reason) t d a = a
after_reply_all P (busy status after) t d a = a

pub if_all : (P : World → Type 0) (b : Bool) {x y : World} → P x → P y → P (if b then x else y)
if_all P true x y = x
if_all P false x y = y

-- The batch is done with, behind what was done with before.
abbrev Done : List Entry → World → World → Type 0
Done batch w after = (settled after ≡ settled w ++ batch) × Ordered after

ack-Done :
    (batch : List Entry) (w sent : World)
    → w.given_up ≡ []
    → sent.given_up ≡ w.given_up
    → sent.acked ≡ w.acked
    → Done batch w (ack batch sent)
unfolding ack
ack-Done batch w sent e same a =
    let none_left = same ∙ e in
    (
      ap (λ xs. (sent.acked ++ batch) ++ xs) none_left
          ∙ append-nil (sent.acked ++ batch)
          ∙ ap (λ xs. xs ++ batch)
              (a ∙ sym (append-nil w.acked) ∙ ap (λ xs. w.acked ++ xs) (sym e)),
      inl none_left,
    )

give_up-Done :
    (batch : List Entry) (w tried : World)
    → tried.given_up ≡ w.given_up
    → tried.acked ≡ w.acked
    → Done batch w (give_up batch tried)
give_up-Done batch w tried same a = (
  sym (append_assoc tried.acked tried.given_up batch) ∙ ap (λ xs. xs ++ batch) (ap₂ ◌++◌ a same),
  inr refl,
)

deliver_from-Done :
    (rs : List Reply) (wait : ℕ) (batch : List Entry) (payload : Bytes) (w : World)
    → w.given_up ≡ []
    → Done batch w (deliver_from rs wait batch payload w)
unfolding deliver_from
deliver_from-Done [] wait batch payload w e = give_up-Done batch w w refl refl
deliver_from-Done (r ∷ rs) wait batch payload w e =
    let sent = post_batch rs batch payload w in
    let tried = count_retry (pause_of r.result wait) sent in
    after_reply_all (Done batch w) r.result
      (ack-Done batch w (count_shipped payload sent) e refl refl)
      (ack-Done batch w (count_refused batch sent) e refl refl)
      (if_all (Done batch w) r.slept
        (deliver_from-Done rs (min (pause_of r.result wait * 2) (60 * second)) batch payload tried
          e)
        (give_up-Done batch w tried refl refl))

delivered_batch-Done :
    (batch : List Entry) (payload : Bytes) (w : World)
    → Ordered w
    → Done batch w (delivered_batch batch payload w)
unfolding delivered_batch deliver
delivered_batch-Done [] payload w o = (sym (append-nil (settled w)), o)
delivered_batch-Done (e ∷ es) payload w (inl none_left) =
    deliver_from-Done w.replies second (e ∷ es) payload w none_left
delivered_batch-Done (e ∷ es) payload w (inr ended) =
    rw (ended, deliver_from) (give_up-Done (e ∷ es) w w refl refl)

-- The entries that the shipper has taken, those it is done with first.
abbrev pub held : Shipper → List Entry
held s = settled s.world ++ s.batch

flush-held : (s : Shipper) → Ordered s.world → (held (flush s) ≡ held s) × Ordered (flush s).world
unfolding flush
flush-held s o =
    let (done, o') = delivered_batch-Done s.batch s.buf s.world o in
    (append-nil (settled (delivered_batch s.batch s.buf s.world)) ∙ done, o')

-- The shipper took one more entry, behind the ones it had.
abbrev Took : Entry → Shipper → Shipper → Type 0
Took e s after = (held after ≡ held s ++ e ∷ []) × Ordered after.world

flush-if :
    (b : Bool) (s : Shipper)
    → Ordered s.world
    → (held (if b then flush s else s) ≡ held s) × Ordered (if b then flush s else s).world
flush-if true s o = flush-held s o
flush-if false s o = (refl, o)

module _ (redact : Bytes → Bytes) (format_time : ℕ → Bytes)
    (marshal : List (Bytes × Bytes) → Option Bytes) (cfg : ShipperConfig) where
  append_line-Took :
      (e : Entry) (line : Bytes) (s : Shipper)
      → Ordered s.world
      → Took e s (append_line redact format_time marshal cfg e line s)
  unfolding append_line
  append_line-Took e line s o =
      let full =
        not (length s.batch == 0) && ltb cfg.max_batch_bytes (length s.buf + length line) in
      let t = if full then flush s else s in
      let (same, o') = flush-if full s o in
      let t' : Shipper = record t {
        batch = t.batch ++ e ∷ [];
        buf = t.buf ++ line;
        pending = true;
      } in
      let (same', o'') = flush-if (leb cfg.max_batch_lines (length t'.batch)) t' o' in
      (
        same'
            ∙ sym (append_assoc (settled t.world) t.batch (e ∷ []))
            ∙ ap (λ xs. xs ++ e ∷ []) same,
        o'',
      )

  -- The entries that `Run` receives before it returns.
  unfoldable pub received : List (ℕ × Signal) → Shipper → List Entry
  received [] s = []
  received ((now, timer) ∷ xs) s = received xs (step redact format_time marshal cfg now timer s)
  received ((now, entry e) ∷ xs) s =
      let rest = received xs (step redact format_time marshal cfg now (entry e) s) in
      if has_ended s.world then rest else e ∷ rest

  -- A map of texts always has a JSON form.
  abbrev pub Marshals : Type 0
  Marshals = (obj : List (Bytes × Bytes)) → (b : Bytes) × (marshal obj ≡ some b)

  receive-encode :
      Marshals
      → (now : ℕ) (e : Entry) (s : Shipper) → Ordered s.world
      → Took e s
          (receive redact format_time marshal cfg e (encode redact format_time marshal cfg now e) s)
  unfolding encode receive line_end
  receive-encode total now e s o =
      let (b, h) = total (object redact format_time marshal cfg now e) in
      rw h (append_line-Took e (b ++ b'\n' ∷ []) s o)

  step-ended :
      (now : ℕ) (x : Signal) (s : Shipper)
      → has_ended s.world ≡ true
      → step redact format_time marshal cfg now x s ≡ s
  unfolding step
  step-ended now (entry e) s h = rw h refl
  step-ended now timer s h = rw h refl

  step-timer :
      (now : ℕ) (s : Shipper)
      → has_ended s.world ≡ false
      → step redact format_time marshal cfg now timer s ≡ flush s
  unfolding step
  step-timer now s h = rw h refl

  step-entry :
      (now : ℕ) (e : Entry) (s : Shipper)
      → has_ended s.world ≡ false
      → step redact format_time marshal cfg now (entry e) s
        ≡ receive redact format_time marshal cfg e (encode redact format_time marshal cfg now e) s
  unfolding step
  step-entry now e s h = rw h refl

  received-ended :
      (now : ℕ) (e : Entry) (xs : List (ℕ × Signal)) (s : Shipper)
      → has_ended s.world ≡ true
      → received ((now, entry e) ∷ xs) s ≡ received xs s
  unfolding received
  received-ended now e xs s h =
      let rest = received xs (step redact format_time marshal cfg now (entry e) s) in
      ap (λ b. if b then rest else e ∷ rest) h ∙ ap (received xs) (step-ended now (entry e) s h)

  received-entry :
      (now : ℕ) (e : Entry) (xs : List (ℕ × Signal)) (s : Shipper)
      → has_ended s.world ≡ false
      → received ((now, entry e) ∷ xs) s
        ≡ e
          ∷ received xs (
              receive redact format_time marshal cfg e
                (encode redact format_time marshal cfg now e)
                s)
  unfolding received
  received-entry now e xs s h =
      let rest = received xs (step redact format_time marshal cfg now (entry e) s) in
      ap (λ b. if b then rest else e ∷ rest) h ∙ ap (λ t. e ∷ received xs t) (step-entry now e s h)

  -- As long as Run goes on, the entries that it receives are, in order, those that are
  -- acknowledged, those that the end of the agent gave up, and those of the open batch: none is
  -- lost, doubled or moved, and an entry is acknowledged behind all earlier ones only.
  pub run_keeps :
      Marshals
      → (xs : List (ℕ × Signal)) (s : Shipper) → Ordered s.world
      → held (run redact format_time marshal cfg xs s) ≡ held s ++ received xs s
  unfolding run received
  run_keeps total [] s o = sym (append-nil (held s))
  run_keeps total ((now, timer) ∷ xs) s o = elim (Bool-cases (has_ended s.world)) [
    | inl ended ↦
        ap (λ t. held (run redact format_time marshal cfg xs t)) (step-ended now timer s ended)
        ∙ run_keeps total xs s o
        ∙ ap (λ t. held s ++ received xs t) (sym (step-ended now timer s ended))
    | inr goes_on ↦
        let (same, o') = flush-held s o in
        ap (λ t. held (run redact format_time marshal cfg xs t)) (step-timer now s goes_on)
        ∙ run_keeps total xs (flush s) o'
        ∙ ap (λ ys. ys ++ received xs (flush s)) same
        ∙ ap (λ t. held s ++ received xs t) (sym (step-timer now s goes_on))
  ]
  run_keeps total ((now, entry e) ∷ xs) s o = elim (Bool-cases (has_ended s.world)) [
    | inl ended ↦
        ap (λ t. held (run redact format_time marshal cfg xs t)) (step-ended now (entry e) s ended)
        ∙ run_keeps total xs s o
        ∙ ap (λ ys. held s ++ ys) (sym (received-ended now e xs s ended))
    | inr goes_on ↦
        let next =
          receive redact format_time marshal cfg e (encode redact format_time marshal cfg now e)
            s in
        let (took, o') = receive-encode total now e s o in
        ap (λ t. held (run redact format_time marshal cfg xs t)) (step-entry now e s goes_on)
        ∙ run_keeps total xs next o'
        ∙ ap (λ ys. ys ++ received xs next) took
        ∙ append_assoc (held s) (e ∷ []) (received xs next)
        ∙ ap (λ ys. held s ++ ys) (sym (received-entry now e xs s goes_on))
  ]
