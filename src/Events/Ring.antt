-- ===== src/Events/Ring.antt =====
-- internal/events/buffer.go: `RingBuffer`, a bounded FIFO that drops the oldest element when
-- full. The element type is a parameter, with Go's zero value `z` of it. A method runs under the
-- mutex, so it is one step. The modules below say what a client may know of it.
mod Index
pub mod Queue
pub mod Valid
pub mod Refine
pub mod Loss
pub mod Client
use yomins_agent.Prelude.{
  ℕ, zero, suc, ◌+◌, ◌%◌, ◌^◌, Option, none, some, List, [], ◌∷◌, ltb, ◌==◌, if◌then◌else◌, set,
  get_or, replicate,
}

pub record RingBuffer {ℓ} (A : Type ℓ) : Type ℓ where
  pub buf : List A
  pub head : ℕ
  pub tail : ℕ
  pub size : ℕ
  pub cap : ℕ
  pub dropped : ℕ

module _ {ℓ} {A : Type ℓ} where
  -- `NewRingBuffer`; `none` is its panic.
  unfoldable pub new_ring_buffer : A → ℕ → Option (RingBuffer A)
  new_ring_buffer z capacity =
      if ltb capacity 1
      then none
      else some (record {
        buf = replicate capacity z;
        head = 0;
        tail = 0;
        size = 0;
        cap = capacity;
        dropped = 0;
      })

  -- `Push`. A `set` out of range changes nothing, where Go panics; the invariant rules it out.
  unfoldable pub push : A → RingBuffer A → RingBuffer A
  push e r =
      if r.size == r.cap
      then record r {
        buf = set r.buf r.tail e;
        head = (r.head + 1) % r.cap;
        tail = (r.tail + 1) % r.cap;
        dropped = (r.dropped + 1) % 2 ^ 64;
      }
      else record r { buf = set r.buf r.tail e; tail = (r.tail + 1) % r.cap; size = r.size + 1 }

  -- The loop of `Drain`: `out[i] = buf[(head+i)%cap]` for `n` more values of `i`.
  unfoldable pub read_out : A → List A → ℕ → ℕ → ℕ → ℕ → List A
  read_out z buf cap head i zero = []
  read_out z buf cap head i (suc n) =
      get_or buf ((head + i) % cap) z ∷ read_out z buf cap head (i + 1) n

  -- `Drain`; the nil slice is the empty list.
  unfoldable pub drain : A → RingBuffer A → List A × RingBuffer A
  unfolding read_out
  drain z r =
      if r.size == 0
      then ([], r)
      else (read_out z r.buf r.cap r.head 0 r.size, record r { head = 0; tail = 0; size = 0 })

  -- `Len`.
  unfoldable pub buffered : RingBuffer A → ℕ
  buffered r = r.size

  -- `Dropped`.
  unfoldable pub dropped_total : RingBuffer A → ℕ
  dropped_total r = r.dropped

  -- The calls of a client in order, and what each returns.
  unfoldable pub push_all : List A → RingBuffer A → RingBuffer A
  push_all [] r = r
  push_all (e ∷ es) r = push_all es (push e r)
