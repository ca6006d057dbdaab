-- ===== src/Events/Ring/Refine.antt =====
-- A valid `RingBuffer` behaves as the bounded queue of the elements that it holds.
use native.Mathlib.Nat.{mod-add-mod, mod-lt, zero-add}
use yomins_agent.Prelude.{
  ℕ, zero, suc, ◌+◌, ◌%◌, ◌^◌, ◌≤◌, ◌<◌, ◌≡◌, ◌≢◌, refl, sym, ap, ap₂, ◌∙◌, List, [], ◌∷◌, ◌++◌,
  arith, length, set, get_or, Bool-cases, inl, inr, ◌==◌,
}
use yomins_agent.Events.Ring.{RingBuffer, push, drain, read_out}
use yomins_agent.Events.Ring.Queue.{Queue, put, rest}
use yomins_agent.Events.Ring.Index.{add-mod-ne}
use yomins_agent.Events.Ring.Valid.{IsValid}

module _ {ℓ} {A : Type ℓ} where
  get_or-set_self : (xs : List A) (i : ℕ) (v z : A) → i < length xs → get_or (set xs i v) i z ≡ v
  get_or-set_self [] i v z h = absurd (omega arith)
  get_or-set_self (x ∷ xs) zero v z h = refl
  get_or-set_self (x ∷ xs) (suc i) v z h = get_or-set_self xs i v z (omega arith)

  get_or-set_ne :
      (xs : List A) (i j : ℕ) (v z : A) → i ≢ j → get_or (set xs i v) j z ≡ get_or xs j z
  get_or-set_ne [] i j v z h = refl
  get_or-set_ne (x ∷ xs) zero zero v z h = absurd (h refl)
  get_or-set_ne (x ∷ xs) zero (suc j) v z h = refl
  get_or-set_ne (x ∷ xs) (suc i) zero v z h = refl
  get_or-set_ne (x ∷ xs) (suc i) (suc j) v z h = get_or-set_ne xs i j v z (λ e. h (ap suc e))

  length-read_out : (z : A) (buf : List A) (cap h i n : ℕ) → length (read_out z buf cap h i n) ≡ n
  unfolding read_out
  length-read_out z buf cap h i zero = refl
  length-read_out z buf cap h i (suc n) = ap suc (length-read_out z buf cap h (i + 1) n)

  -- Reading from the next head is reading from one place further.
  read_out-shift :
      (z : A) (buf : List A) (cap h i n : ℕ)
      → read_out z buf cap ((h + 1) % cap) i n ≡ read_out z buf cap h (i + 1) n
  unfolding read_out
  read_out-shift z buf cap h i zero = refl
  read_out-shift z buf cap h i (suc n) =
      ap₂ ◌∷◌
        (ap (λ k. get_or buf k z) (mod-add-mod (h + 1) cap i ∙ ap (λ k. k % cap) (omega arith)))
        (read_out-shift z buf cap h (i + 1) n)

  -- A write just behind the last cell read adds its element at the end.
  read_out-set :
      (z e : A) (buf : List A) (cap h i n t : ℕ)
      → length buf ≡ cap
      → h < cap
      → i + n ≤ cap
      → n < cap
      → t ≡ (h + (i + n)) % cap
      → t < cap
      → read_out z (set buf t e) cap h i (suc n) ≡ read_out z buf cap h i n ++ e ∷ []
  unfolding read_out
  read_out-set z e buf cap h i zero t len hh hi hn eq ht =
      ap (λ x. x ∷ [])
        (ap (λ k. get_or (set buf t e) k z) (ap (λ k. (h + k) % cap) (omega arith) ∙ sym eq)
          ∙ get_or-set_self buf t e z (omega arith))
  read_out-set z e buf cap h i (suc n) t len hh hi hn eq ht =
      ap₂ ◌∷◌
        (get_or-set_ne buf t ((h + i) % cap) e z
          (λ s. add-mod-ne cap h i (i + suc n) hh (omega arith) hi (omega arith) (sym s ∙ eq)))
        (read_out-set z e buf cap h (i + 1) n t len hh (omega arith) (omega arith)
          (eq ∙ ap (λ k. (h + k) % cap) (omega arith)) ht)

  abbrev pub contents : A → RingBuffer A → List A
  contents z r = read_out z r.buf r.cap r.head 0 r.size

  abbrev pub view : A → RingBuffer A → Queue A
  view z r = record { items = contents z r; lost = r.dropped }

  pub length-contents : (z : A) (r : RingBuffer A) → length (contents z r) ≡ r.size
  length-contents z r = length-read_out z r.buf r.cap r.head 0 r.size

  -- The elements after a push into a full buffer.
  contents_full :
      (z e : A) (buf : List A) (cap h n t : ℕ)
      → length buf ≡ cap
      → h < cap
      → n ≡ cap
      → t ≡ (h + n) % cap
      → t < cap
      → read_out z (set buf t e) cap ((h + 1) % cap) 0 n ≡ rest (read_out z buf cap h 0 n) ++ e ∷ []
  unfolding read_out
  contents_full z e buf cap h zero t len hh full eq ht = absurd (omega arith)
  contents_full z e buf cap h (suc n) t len hh full eq ht =
      read_out-shift z (set buf t e) cap h 0 (suc n)
      ∙ read_out-set z e buf cap h 1 n t len hh (omega arith) (omega arith)
          (eq ∙ ap (λ k. (h + k) % cap) (omega arith)) ht

  -- `Push` does to the elements held and to the loss counter what the bounded queue's `put` does.
  pub push_refines :
      (z e : A) (r : RingBuffer A) → IsValid r → view z (push e r) ≡ put r.cap e (view z r)
  unfolding push put
  push_refines z e r v = elim (Bool-cases (r.size == r.cap)) [
    | inl full ↦
        rw (length-contents z r, full)
          (ap (λ xs. record { items = xs; lost = (r.dropped + 1) % 2 ^ 64 })
            (contents_full z e r.buf r.cap r.head r.size r.tail v.storage v.head_in (ground arith)
              v.tail_at (rw v.tail_at (mod-lt _ v.cap_pos))))
    | inr room ↦
        rw (length-contents z r, room)
          (ap (λ xs. record { items = xs; lost = r.dropped })
            (ap (read_out z (set r.buf r.tail e) r.cap r.head 0) (omega arith)
              ∙ read_out-set z e r.buf r.cap r.head 0 r.size r.tail v.storage v.head_in
                  (rw zero-add v.size_in) (ground (arith, v.size_in))
                  (v.tail_at ∙ ap (λ k. (r.head + k) % r.cap) (omega arith))
                  (rw v.tail_at (mod-lt _ v.cap_pos))))
  ]

  -- `Drain` returns all that the buffer holds, oldest first, and leaves it empty, with the loss
  -- counter as it was.
  pub drain_refines :
      (z : A) (r : RingBuffer A)
      → ((drain z r).0 ≡ contents z r)
        × (contents z (drain z r).1 ≡ [])
        × ((drain z r).1.dropped ≡ r.dropped)
  unfolding drain read_out
  drain_refines z r = elim (Bool-cases (r.size == 0)) [
    | inl empty ↦ let e : r.size ≡ 0 = ground arith in rw (empty, e) (refl, refl, refl)
    | inr some_left ↦ rw some_left (refl, refl, refl)
  ]
