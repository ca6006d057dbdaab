-- ===== src/Events/Ring/Queue.antt =====
-- What a bounded FIFO that drops its oldest element promises, with no ring behind it.
use yomins_agent.Prelude.{ℕ, ◌+◌, ◌%◌, ◌^◌, List, [], ◌∷◌, ◌++◌, ◌==◌, if◌then◌else◌, length}

pub record Queue {ℓ} (A : Type ℓ) : Type ℓ where
  pub items : List A
  pub lost : ℕ

module _ {ℓ} {A : Type ℓ} where
  abbrev pub rest : List A → List A
  rest [] = []
  rest (x ∷ xs) = xs

  unfoldable pub put : ℕ → A → Queue A → Queue A
  put cap e q =
      if length q.items == cap
      then record { items = rest q.items ++ e ∷ []; lost = (q.lost + 1) % 2 ^ 64 }
      else record q { items = q.items ++ e ∷ [] }
