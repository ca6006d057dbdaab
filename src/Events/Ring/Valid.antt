-- ===== src/Events/Ring/Valid.antt =====
-- The representation invariant of `RingBuffer`, and that every method keeps it.
use native.Mathlib.Nat.{mod-lt, mod-add-mod, mod-eq_of_lt}
use yomins_agent.Prelude.{
  ℕ, ◌+◌, ◌%◌, ◌≤◌, ◌<◌, ◌≡◌, some, arith, length, length-set, length-replicate, ap, ◌∙◌, sym,
}
use yomins_agent.Events.Ring.{RingBuffer, new_ring_buffer, push, drain}

pub record IsValid {ℓ} {A : Type ℓ} (r : RingBuffer A) : Type 0 where
  pub storage : length r.buf ≡ r.cap
  pub cap_pos : 0 < r.cap
  pub head_in : r.head < r.cap
  pub size_in : r.size ≤ r.cap
  pub tail_at : r.tail ≡ (r.head + r.size) % r.cap

-- Where the next write goes, with the head in place and with the head moved.
tail_next :
    (cap h s t : ℕ)
    → t ≡ (h + s) % cap
    → ((t + 1) % cap ≡ (h + (s + 1)) % cap) × ((t + 1) % cap ≡ ((h + 1) % cap + s) % cap)
tail_next cap h s t e = (
  rw e (mod-add-mod (h + s) cap 1 ∙ ap (λ k. k % cap) (omega arith)),
  rw e (
      mod-add-mod (h + s) cap 1
      ∙ ap (λ k. k % cap) (omega arith)
      ∙ sym (mod-add-mod (h + 1) cap s)),
)

module _ {ℓ} {A : Type ℓ} where
  pub new_ring_buffer-IsValid :
      (z : A) (n : ℕ) {r : RingBuffer A} → new_ring_buffer z n ≡ some r → IsValid r
  unfolding new_ring_buffer
  new_ring_buffer-IsValid z n h = grind (arith, length-replicate n z)

  pub cap-push : (e : A) (r : RingBuffer A) → (push e r).cap ≡ r.cap
  unfolding push
  cap-push e r = ground arith

  pub push-IsValid : (e : A) {r : RingBuffer A} → IsValid r → IsValid (push e r)
  unfolding push
  push-IsValid e {r} v = ground (
    arith,
    length-set r.buf r.tail e,
    mod-lt (r.head + 1) v.cap_pos,
    tail_next r.cap r.head r.size r.tail v.tail_at,
  )

  pub drain-IsValid : (z : A) {r : RingBuffer A} → IsValid r → IsValid (drain z r).1
  unfolding drain
  drain-IsValid z {r} v = ground (arith, mod-eq_of_lt v.cap_pos)

  pub cap-drain : (z : A) (r : RingBuffer A) → (drain z r).1.cap ≡ r.cap
  unfolding drain
  cap-drain z r = ground arith
