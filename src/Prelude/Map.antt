-- ===== src/Prelude/Map.antt =====
-- Go maps as association lists: reads with the comma-ok form, writes and `delete`.
pub mod Keys
use text.Mathlib.Text.{◌==◌ as str_eq}
use text.Mathlib.TextEquality.{eq_iff}
use yomins_agent.Prelude.Int.{ℤ, int_beq, int_beq_iff}
use yomins_agent.Prelude.{
  ℕ, String, ◌≡◌, refl, ◌↔◌, Bool, true, ◌&&◌, Option, none, some, List, [], ◌∷◌, arith,
  if◌then◌else◌, ◌==◌ as nat_beq, ==_iff,
}

-- Go's `==` on a key type.
pub record Eq {ℓ} (A : Type ℓ) : Type ℓ where
  pub beq : A → A → Bool
  pub beq_iff : (a b : A) → (beq a b ≡ true) ↔ (a ≡ b)

instance abbrev pub nat_eq : Eq ℕ
nat_eq = record { beq = nat_beq; beq_iff = ==_iff }

instance abbrev pub string_eq : Eq String
string_eq = record { beq = str_eq; beq_iff = eq_iff }

instance abbrev pub int_eq : Eq ℤ
int_eq = record { beq = int_beq; beq_iff = int_beq_iff }

module _ {ℓ κ} {K : Type ℓ} ⦃e : Eq K⦄ {V : Type κ} where
  unfoldable pub lookup : K → List (K × V) → Option V
  lookup k [] = none
  lookup k ((j, v) ∷ m) = if e.beq j k then some v else lookup k m

  unfoldable pub insert : K → V → List (K × V) → List (K × V)
  insert k v [] = (k, v) ∷ []
  insert k v ((j, w) ∷ m) = if e.beq j k then (k, v) ∷ m else (j, w) ∷ insert k v m

  unfoldable pub delete : K → List (K × V) → List (K × V)
  delete k [] = []
  delete k ((j, w) ∷ m) = let rest = delete k m in if e.beq j k then rest else (j, w) ∷ rest

  pub lookup-insert :
      (k j : K) (v : V) (m : List (K × V))
      → lookup j (insert k v m) ≡ (if e.beq k j then some v else lookup j m)
  unfolding lookup insert
  lookup-insert k j v [] = refl
  lookup-insert k j v ((i, w) ∷ m) =
      ground (arith, e.beq_iff k j, e.beq_iff i k, e.beq_iff i j, lookup-insert k j v m)

  pub lookup-delete :
      (k j : K) (m : List (K × V))
      → lookup j (delete k m) ≡ (if e.beq k j then none else lookup j m)
  unfolding lookup delete
  lookup-delete k j [] = ground arith
  lookup-delete k j ((i, w) ∷ m) =
      ground (arith, e.beq_iff k j, e.beq_iff i k, e.beq_iff i j, lookup-delete k j m)

  -- No key twice, as in every Go map.
  abbrev pub Unique : List (K × V) → Type κ
  Unique [] = Unit
  Unique ((k, v) ∷ m) = (lookup k m ≡ none) × Unique m

  -- A loop over the map that rewrites a value, or deletes its key where `f` is `none`.
  unfoldable pub filter_map_values : (V → Option V) → List (K × V) → List (K × V)
  filter_map_values f [] = []
  filter_map_values f ((k, v) ∷ m) =
      let rest = filter_map_values f m in elim (f v) [ none ↦ rest | some w ↦ (k, w) ∷ rest ]

  lookup-filter_map_none :
      (f : V → Option V) (k : K) (m : List (K × V))
      → lookup k m ≡ none
      → lookup k (filter_map_values f m) ≡ none
  unfolding lookup filter_map_values
  lookup-filter_map_none f k [] h = refl
  lookup-filter_map_none f k ((j, v) ∷ m) h = ground (arith, lookup-filter_map_none f k m)

  pub lookup-filter_map_values :
      (f : V → Option V) (k : K) (m : List (K × V))
      → Unique m
      → lookup k (filter_map_values f m) ≡ elim (lookup k m) [ none ↦ none | some v ↦ f v ]
  unfolding lookup filter_map_values
  lookup-filter_map_values f k [] u = refl
  lookup-filter_map_values f k ((j, v) ∷ m) (fresh, u) = ground (
    arith,
    e.beq_iff j k,
    lookup-filter_map_values f k m u,
    lookup-filter_map_none f j m fresh,
    lookup-filter_map_none f k m,
  )

  pub filter_map_values-Unique :
      (f : V → Option V) (m : List (K × V)) → Unique m → Unique (filter_map_values f m)
  unfolding filter_map_values
  filter_map_values-Unique f [] u = u
  filter_map_values-Unique f ((k, v) ∷ m) (fresh, u) =
      ground (arith, lookup-filter_map_none f k m fresh, filter_map_values-Unique f m u)

  pub insert-Unique : (k : K) (v : V) (m : List (K × V)) → Unique m → Unique (insert k v m)
  unfolding insert lookup
  insert-Unique k v [] u = (refl, tt)
  insert-Unique k v ((j, w) ∷ m) (fresh, u) =
      ground (arith, e.beq_iff j k, e.beq_iff k j, lookup-insert k j v m, insert-Unique k v m u)

-- A struct of two fields as a key.
module _ {A B : Type 0} ⦃a : Eq A⦄ ⦃b : Eq B⦄ where
  abbrev pub pair_beq : A × B → A × B → Bool
  pair_beq (x, y) (u, v) = a.beq x u && b.beq y v

  pub pair_beq_iff : (p q : A × B) → (pair_beq p q ≡ true) ↔ (p ≡ q)
  pair_beq_iff (x, y) (u, v) = ground (arith, a.beq_iff x u, b.beq_iff y v)

  instance abbrev pub pair_eq : Eq (A × B)
  pair_eq = record { beq = pair_beq; beq_iff = pair_beq_iff }
