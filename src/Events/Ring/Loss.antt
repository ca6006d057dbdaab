-- ===== src/Events/Ring/Loss.antt =====
-- What a run of pushes keeps: the newest elements, as many as fit, and the number of those lost.
use yomins_agent.Prelude.{
  ℕ, suc, ◌+◌, ◌-◌, ◌%◌, ◌^◌, ◌≤◌, ◌<◌, ◌≡◌, refl, sym, ap, ap₂, ◌∙◌, false, List, [], ◌∷◌, ◌++◌,
  append_assoc, append-nil, arith, length, length-append, drop, Bool-cases, inl, inr, ◌==◌,
  if◌then◌else◌, ==_iff,
}
use yomins_agent.Events.Ring.{RingBuffer, push, push_all}
use yomins_agent.Events.Ring.Queue.{Queue, put, rest}
use yomins_agent.Events.Ring.Valid.{IsValid, push-IsValid, cap-push}
use yomins_agent.Events.Ring.Refine.{contents, view, push_refines, length-contents}

module _ {ℓ} {A : Type ℓ} where
  put_all : ℕ → List A → Queue A → Queue A
  put_all cap [] q = q
  put_all cap (e ∷ es) q = put_all cap es (put cap e q)

  -- The queue after a run of puts, from the elements before it.
  abbrev newest : ℕ → List A → List A → List A
  newest cap old es = drop (length old + length es - cap) (old ++ es)

  newest_step :
      (cap : ℕ) (old : List A) (e : A) (es : List A)
      → 0 < cap
      → length old ≤ cap
      → newest cap (if length old == cap then rest old ++ e ∷ [] else old ++ e ∷ []) es
        ≡ newest cap old (e ∷ es)
  newest_step cap [] e es pos fits = elim (Bool-cases (0 == cap)) [
    | inl full ↦ absurd (ground arith)
    | inr room ↦ rw room (ap (λ k. drop k (e ∷ es)) (omega arith))
  ]
  newest_step cap (x ∷ xs) e es pos fits = elim (Bool-cases (suc (length xs) == cap)) [
    | inl full ↦
        rw (full, append_assoc, length-append xs (e ∷ []))
          (let n : suc (length xs) ≡ cap = ground arith in
            ap (λ k. drop k (xs ++ e ∷ es)) (omega arith)
            ∙ ap (λ k. drop k (x ∷ (xs ++ e ∷ es))) {x = suc (length es)} (omega arith))
    | inr room ↦ rw room (
        rw (append_assoc, length-append xs (e ∷ []))
          (ap (λ k. drop k (x ∷ (xs ++ e ∷ es))) (omega arith)))
  ]

  length-rest : (xs : List A) → 0 < length xs → length (rest xs) + 1 ≡ length xs
  length-rest [] h = elim h [ ]
  length-rest (x ∷ xs) h = omega arith

  -- One put, by whether the queue is full.
  put-full :
      (cap : ℕ) (e : A) (q : Queue A)
      → 0 < cap
      → length q.items ≡ cap
      → (length (put cap e q).items ≡ cap) × ((put cap e q).lost ≡ (q.lost + 1) % 2 ^ 64)
  unfolding put
  put-full cap e q pos full =
      rw (full, (==_iff cap cap).1 refl)
        (omega (arith, length-append (rest q.items) (e ∷ []), length-rest q.items), refl)

  put-room :
      (cap : ℕ) (e : A) (q : Queue A)
      → (length q.items == cap) ≡ false
      → (length (put cap e q).items ≡ length q.items + 1) × ((put cap e q).lost ≡ q.lost)
  unfolding put
  put-room cap e q room = rw room (length-append q.items (e ∷ []), refl)

  items-put :
      (cap : ℕ) (e : A) (q : Queue A)
      → (put cap e q).items
        ≡ (if length q.items == cap then rest q.items ++ e ∷ [] else q.items ++ e ∷ [])
  unfolding put
  items-put cap e q = ground arith

  put_all_lem :
      (cap : ℕ) (es : List A) (q : Queue A)
      → 0 < cap
      → length q.items ≤ cap
      → ((put_all cap es q).items ≡ newest cap q.items es)
        × ((put_all cap es q).lost % 2 ^ 64
            ≡ (q.lost + (length q.items + length es - cap)) % 2 ^ 64)
  unfolding put_all
  put_all_lem cap [] q pos fits = (
    sym (append-nil q.items) ∙ ap (λ k. drop k (q.items ++ [])) {x = 0} (omega arith),
    ap (λ k. k % 2 ^ 64) (omega arith),
  )
  put_all_lem cap (e ∷ es) q pos fits = elim (Bool-cases (length q.items == cap)) [
    | inl full ↦
        let n : length q.items ≡ cap = ground arith in
        let (grown, lost) = put-full cap e q pos n in
        let (items, total) = put_all_lem cap es (put cap e q) pos (omega arith) in
        (items ∙ rw (items-put cap e q) (newest_step cap q.items e es pos fits), omega arith)
    | inr room ↦
        let (grown, lost) = put-room cap e q room in
        let (items, total) = put_all_lem cap es (put cap e q) pos (ground arith) in
        (items ∙ rw (items-put cap e q) (newest_step cap q.items e es pos fits), omega arith)
  ]

  push_all_refines :
      (z : A) (es : List A) (r : RingBuffer A)
      → IsValid r
      → view z (push_all es r) ≡ put_all r.cap es (view z r)
  unfolding push_all put_all
  push_all_refines z [] r v = refl
  push_all_refines z (e ∷ es) r v =
      push_all_refines z es (push e r) (push-IsValid e v)
      ∙ ap₂ (λ k q. put_all k es q) (cap-push e r) (push_refines z e r v)

  pub push_all-IsValid : (es : List A) {r : RingBuffer A} → IsValid r → IsValid (push_all es r)
  unfolding push_all
  push_all-IsValid [] v = v
  push_all-IsValid (e ∷ es) v = push_all-IsValid es (push-IsValid e v)

  pub cap-push_all : (es : List A) (r : RingBuffer A) → (push_all es r).cap ≡ r.cap
  unfolding push_all
  cap-push_all [] r = refl
  cap-push_all (e ∷ es) r = cap-push_all es (push e r) ∙ cap-push e r

  -- A run of pushes into a valid buffer leaves the newest elements of those held and those
  -- pushed, in order and as many as fit, and the loss counter, a uint64, grows by the number of
  -- those that do not.
  pub push_all_keeps_newest :
      (z : A) (es : List A) (r : RingBuffer A)
      → IsValid r
      → let over = r.size + length es - r.cap in
        (contents z (push_all es r) ≡ drop over (contents z r ++ es))
        × ((push_all es r).dropped % 2 ^ 64 ≡ (r.dropped + over) % 2 ^ 64)
  push_all_keeps_newest z es r v =
      let n = length-contents z r in
      let (items, lost) = put_all_lem r.cap es (view z r) v.cap_pos (omega (arith, v.size_in)) in
      (
        ap (λ (q : Queue A). q.items) (push_all_refines z es r v)
            ∙ items
            ∙ ap (λ k. drop (k + length es - r.cap) (contents z r ++ es)) n,
        ap (λ (q : Queue A). q.lost % 2 ^ 64) (push_all_refines z es r v)
            ∙ lost
            ∙ ap (λ k. (r.dropped + (k + length es - r.cap)) % 2 ^ 64) n,
      )
