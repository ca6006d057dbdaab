-- ===== src/Events/Ring/Index.antt =====
-- Indices that go round at the capacity.
use native.Mathlib.Nat.{mod-eq_of_lt, mod-eq-sub-mod}
use native.Mathlib.Decide.{dec_lt}
use yomins_agent.Prelude.{ℕ, ◌+◌, ◌-◌, ◌%◌, ◌≤◌, ◌<◌, ◌≡◌, ◌≢◌, ◌⊎◌, inl, inr, arith}

-- At most one turn from an index inside the ring.
pub add-mod_cases :
    (cap h k : ℕ)
    → h < cap
    → k ≤ cap
    → ((h + k) % cap ≡ h + k) × (h + k < cap) ⊎ ((h + k) % cap + cap ≡ h + k)
add-mod_cases cap h k hh hk = elim (dec_lt (h + k) cap) [
  | yes p ↦ inl (mod-eq_of_lt p, p)
  | no p ↦ inr (
      omega (
        arith,
        mod-eq-sub-mod {n = h + k} {m = cap} (omega arith),
        mod-eq_of_lt {n = h + k - cap} {m = cap} (omega arith),
      ))
]

-- Two places less than one turn apart are different cells.
pub add-mod-ne :
    (cap h i j : ℕ) → h < cap → i < j → j ≤ cap → j < i + cap → (h + i) % cap ≢ (h + j) % cap
add-mod-ne cap h i j hh ij hj near =
    omega (arith, add-mod_cases cap h i hh (omega arith), add-mod_cases cap h j hh hj)
