-- ===== src/Logs/Ship.antt =====
-- internal/logs/ship.go: the shipper, which puts entries into batches and posts each until it is
-- taken or refused for good. JSON, the time's format and the redactor are parameters; the results
-- of Post come from the world, each with whether the pause behind it runs out before the agent
-- ends.
pub mod Batches
pub mod Bounds
pub mod Fields
use yomins_agent.Go.Text.{Bytes, codes, equal, is_empty, bytes_eq}
use yomins_agent.Prelude.Int.{pos}
use yomins_agent.Prelude.Map.{insert}
use yomins_agent.Prelude.{
  ℕ, zero, suc, ◌+◌, ◌*◌, min, Bool, true, false, not, ◌&&◌, ◌||◌, Option, none, some, List, [],
  ◌∷◌, ◌++◌, ◌==◌, ltb, leb, length, if◌then◌else◌,
}
use yomins_agent.Logs.Types.{Entry, Ack}
use yomins_agent.Transport.Attempt.{PostResult, delivered, paused, network, rejected, refused, busy}

-- `ShipperConfig`, less what only fills headers.
pub record ShipperConfig : Type 0 where
  pub max_batch_lines : ℕ
  pub max_batch_bytes : ℕ

-- The defaults of `NewShipper`.
unfoldable pub new_shipper_config : ShipperConfig → ShipperConfig
new_shipper_config c = record {
  max_batch_lines = if c.max_batch_lines == 0 then 1000 else c.max_batch_lines;
  max_batch_bytes = if c.max_batch_bytes == 0 then 1_048_576 else c.max_batch_bytes;
}

-- The names of `reservedFields`.
unfoldable pub is_reserved : Bytes → Bool
unfolding equal
is_reserved k =
    equal k (codes "_time")
    || (equal k (codes "_msg")
        || (equal k (codes "_stream")
            || (equal k (codes "source")
                || (equal k (codes "file")
                    || (equal k (codes "unit")
                        || (equal k (codes "level")
                            || (equal k (codes "host")
                                || (equal k (codes "agent_id")
                                    || (equal k (codes "project_id")
                                        || equal k (codes "customer_id"))))))))))

unfoldable pub set_unless_empty : Bytes → Bytes → List (Bytes × Bytes) → List (Bytes × Bytes)
unfolding insert is_empty
set_unless_empty k v obj = if is_empty v then obj else insert k v obj

-- What Post answered, when, and whether the sleep behind it ran out.
pub record Reply : Type 0 where
  pub result : PostResult
  pub slept : Bool

-- The counters of `Stats` that the shipper moves, the replies to come, the pauses it made, the
-- batches it posted, the last one first, the entries acknowledged, and those that the end of the
-- agent cut off.
pub record World : Type 0 where
  pub replies : List Reply
  pub pauses : List ℕ
  pub posted : List (List Entry × Bytes)
  pub acked : List Entry
  pub given_up : List Entry
  pub shipped_bytes : ℕ
  pub dropped_encode : ℕ
  pub dropped_refused : ℕ
  pub retries : ℕ

abbrev pub second : ℕ
second = 1_000_000_000

-- The pause behind a result that is neither a success nor a refusal.
unfoldable pub pause_of : PostResult → ℕ → ℕ
pause_of paused wait = 10 * second
pause_of (rejected e) wait = 10 * second
pause_of (busy status (pos (suc n))) wait = suc n
pause_of _ wait = wait

-- `ack`, over the batch in order.
unfoldable pub ack : List Entry → World → World
ack batch w = record w { acked = w.acked ++ batch }

-- The switch of `deliver`: the batch is taken, refused for good, or tried again.
unfoldable pub after_reply : PostResult → World → World → World → World
after_reply delivered taken dropped again = taken
after_reply (refused status) taken dropped again = dropped
after_reply _ taken dropped again = again

-- The batch goes out, and what each of its ends counts.
abbrev pub post_batch : List Reply → List Entry → Bytes → World → World
post_batch rs batch payload w = record w { replies = rs; posted = (batch, payload) ∷ w.posted }

abbrev pub count_shipped : Bytes → World → World
count_shipped payload w = record w { shipped_bytes = w.shipped_bytes + length payload }

abbrev pub count_refused : List Entry → World → World
count_refused batch w = record w { dropped_refused = w.dropped_refused + length batch }

abbrev pub count_retry : ℕ → World → World
count_retry pause w = record w { pauses = pause ∷ w.pauses; retries = w.retries + 1 }

abbrev pub give_up : List Entry → World → World
give_up batch w = record w { replies = []; given_up = w.given_up ++ batch }

-- `deliver`, over the replies to come: none is left when the agent ends.
unfoldable pub deliver_from : List Reply → ℕ → List Entry → Bytes → World → World
unfolding pause_of ack after_reply
deliver_from [] wait batch payload w = give_up batch w
deliver_from (r ∷ rs) wait batch payload w =
    let sent = post_batch rs batch payload w in
    let pause = pause_of r.result wait in
    let tried = count_retry pause sent in
    let again = deliver_from rs (min (pause * 2) (60 * second)) batch payload tried in
    after_reply r.result (ack batch (count_shipped payload sent))
      (ack batch (count_refused batch sent)) (if r.slept then again else give_up batch tried)

unfoldable pub deliver : List Entry → Bytes → World → World
unfolding deliver_from
deliver batch payload w = deliver_from w.replies second batch payload w

-- The variables of `Run`; `ended` says that it returned.
pub record Shipper : Type 0 where
  pub batch : List Entry
  pub buf : Bytes
  pub pending : Bool
  pub world : World

-- `ctx` is done once an entry was given up.
abbrev pub has_ended : World → Bool
has_ended w = elim w.given_up [ [] ↦ false | e ∷ es ↦ true ]

unfoldable pub delivered_batch : List Entry → Bytes → World → World
unfolding deliver
delivered_batch [] payload w = w
delivered_batch (e ∷ es) payload w = deliver (e ∷ es) payload w

-- The closure `flush` of `Run`.
unfoldable pub flush : Shipper → Shipper
unfolding delivered_batch
flush s = record {
  batch = [];
  buf = [];
  pending = false;
  world = delivered_batch s.batch s.buf s.world;
}

-- What `select` receives, but for the end.
pub data Signal : Type 0 where
  entry : Entry → Signal
  timer : Signal

module _ (redact : Bytes → Bytes) (format_time : ℕ → Bytes)
    (marshal : List (Bytes × Bytes) → Option Bytes) (cfg : ShipperConfig) where
  -- The loop of `encode` over the parser's fields.
  unfoldable pub copy_fields : List (Bytes × Bytes) → List (Bytes × Bytes) → List (Bytes × Bytes)
  unfolding is_reserved insert is_empty
  copy_fields [] obj = obj
  copy_fields ((k, v) ∷ fields) obj =
      copy_fields fields
        (if not (is_reserved k) && not (is_empty k) then insert k (redact v) obj else obj)

  -- The object of `encode`; `now` stands in for a time that is not set.
  unfoldable pub object : ℕ → Entry → List (Bytes × Bytes)
  unfolding copy_fields set_unless_empty insert
  object now e =
      let time = if e.time == 0 then now else e.time in
      set_unless_empty (codes "level") e.level (
        set_unless_empty (codes "unit") e.unit (
          set_unless_empty (codes "file") e.path (
            insert (codes "source") e.source (
              insert (codes "_msg") (redact e.msg)
                (insert (codes "_time") (format_time time) (copy_fields e.fields []))))))

  line_end : Option Bytes → Option Bytes
  line_end none = none
  line_end (some b) = some (b ++ b'\n' ∷ [])

  -- `encode`.
  unfoldable pub encode : ℕ → Entry → Option Bytes
  unfolding object line_end
  encode now e = line_end (marshal (object now e))

  -- The case of a received entry, from its encoded line on.
  unfoldable pub append_line : Entry → Bytes → Shipper → Shipper
  unfolding flush
  append_line e line s =
      let full =
        not (length s.batch == 0) && ltb cfg.max_batch_bytes (length s.buf + length line) in
      let t = if full then flush s else s in
      let t' = record t { batch = t.batch ++ e ∷ []; buf = t.buf ++ line; pending = true } in
      if leb cfg.max_batch_lines (length t'.batch) then flush t' else t'

  unfoldable pub receive : Entry → Option Bytes → Shipper → Shipper
  unfolding append_line ack
  receive e none s = record s {
    world = ack (e ∷ []) (record s.world { dropped_encode = s.world.dropped_encode + 1 });
  }
  receive e (some line) s = append_line e line s

  -- One round of the loop of `Run`; when the agent has ended it returns.
  unfoldable pub step : ℕ → Signal → Shipper → Shipper
  unfolding receive encode flush
  step now (entry e) s = if has_ended s.world then s else receive e (encode now e) s
  step now timer s = if has_ended s.world then s else flush s

  -- `Run`, on what it receives, each at its time.
  unfoldable pub run : List (ℕ × Signal) → Shipper → Shipper
  unfolding step
  run [] s = s
  run ((now, x) ∷ xs) s = run xs (step now x s)
