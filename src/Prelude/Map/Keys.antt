-- ===== src/Prelude/Map/Keys.antt =====
-- The keys of a map: a map that has as many keys as another, and all of its keys, has no more.
use yomins_agent.Prelude.{
  ◌≡◌, ◌≢◌, refl, ap, sym, ◌∙◌, Bool, true, false, none, List, [], ◌∷◌, arith, suc, length,
  if◌then◌else◌, inl, inr, Bool-cases,
}
use yomins_agent.Prelude.Map.{Eq, lookup, delete, lookup-delete, Unique}

module _ {ℓ κ} {K : Type ℓ} ⦃e : Eq K⦄ {V : Type κ} where
  abbrev pub HasKey : K → List (K × V) → Type κ
  HasKey k m = lookup k m ≢ none

  delete-absent : (k : K) (m : List (K × V)) → lookup k m ≡ none → delete k m ≡ m
  unfolding lookup delete
  delete-absent k [] h = refl
  delete-absent k ((j, v) ∷ m) h = ground (arith, delete-absent k m)

  length-delete :
      (k : K) (m : List (K × V)) → Unique m → HasKey k m → length m ≡ suc (length (delete k m))
  unfolding lookup delete
  length-delete k [] u h = absurd (h refl)
  length-delete k ((j, v) ∷ m) (fresh, u) h =
      ground (arith, e.beq_iff j k, delete-absent j m fresh, length-delete k m u)

  delete-Unique : (k : K) (m : List (K × V)) → Unique m → Unique (delete k m)
  unfolding lookup delete
  delete-Unique k [] u = u
  delete-Unique k ((j, v) ∷ m) (fresh, u) = ground (arith, lookup-delete k j m, delete-Unique k m u)

  pub head-HasKey : (k j : K) (v : V) (m : List (K × V)) → e.beq j k ≡ true → HasKey k ((j, v) ∷ m)
  unfolding lookup
  head-HasKey k j v m h = ground arith

  pub tail-HasKey : (k j : K) (v : V) (m : List (K × V)) → HasKey k m → HasKey k ((j, v) ∷ m)
  unfolding lookup
  tail-HasKey k j v m h = ground arith

  -- A key of the tail is not the head's.
  pub fresh-ne : (k j : K) (m : List (K × V)) → lookup j m ≡ none → HasKey k m → e.beq j k ≡ false
  fresh-ne k j m fresh h = elim (Bool-cases (e.beq j k)) [
    | inl same ↦ absurd (h (ap (λ i. lookup i m) (sym ((e.beq_iff j k).0 same)) ∙ fresh))
    | inr other ↦ other
  ]

  delete-HasKey :
      (k j : K) (m : List (K × V)) → e.beq j k ≡ false → HasKey k m → HasKey k (delete j m)
  delete-HasKey k j m other h = λ gone. h (
      sym (ap (λ (b : Bool). if b then none else lookup k m) other)
      ∙ sym (lookup-delete j k m)
      ∙ gone)

  pub HasKey-back :
      (a b : List (K × V))
      → Unique a
      → Unique b
      → length a ≡ length b
      → ((k : K) → HasKey k a → HasKey k b)
      → (k : K) → HasKey k b
      → HasKey k a
  HasKey-back [] [] u w size sub k h = h
  HasKey-back [] (_ ∷ b) u w size sub k h = absurd (omega arith)
  HasKey-back ((j, v) ∷ a) b (fresh, u) w size sub k h = elim (Bool-cases (e.beq j k)) [
    | inl same ↦ head-HasKey k j v a same
    | inr other ↦
        let held = sub j (head-HasKey j j v a ((e.beq_iff j j).1 refl)) in
        tail-HasKey k j v a (
          HasKey-back a (delete j b) u (delete-Unique j b w)
            (omega (arith, length-delete j b w held))
            (λ i hi. delete-HasKey i j b (fresh-ne i j a fresh hi) (sub i (tail-HasKey i j v a hi)))
            k (delete-HasKey k j b other h))
  ]
