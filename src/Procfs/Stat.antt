-- ===== src/Procfs/Stat.antt =====
-- A line of /proc/<pid>/stat as the kernel prints it, and what parse_stat makes of it.
use yomins_agent.Go.Text.{Bytes}
use yomins_agent.Go.Strconv.Decimal.{format, All}
use yomins_agent.Go.Fields.{spaced}
use yomins_agent.Procfs.{around_last, in_front}
use yomins_agent.Prelude.{
  ℕ, ◌-◌, ◌^◌, ◌<◌, Bool, not, none, some, List, [], ◌∷◌, ◌++◌, ◌==◌, get_or, map, ◌≡◌, refl, ap,
  arith,
}

abbrev pub is_not : ℕ → ℕ → Bool
is_not b c = not (c == b)

around_last-none : (b : ℕ) (ys : Bytes) → All (is_not b) ys → around_last b ys ≡ none
unfolding around_last
around_last-none b [] h = refl
around_last-none b (y ∷ ys) (h, hs) = ground (arith, around_last-none b ys hs)

pub around_last-split :
    (b : ℕ) (xs ys : Bytes) → All (is_not b) ys → around_last b (xs ++ b ∷ ys) ≡ some (xs, ys)
unfolding around_last
around_last-split b [] ys h = ground (arith, around_last-none b ys h)
around_last-split b (x ∷ xs) ys h = ap (in_front b x _) (around_last-split b xs ys h)

abbrev pub AllSmall : List ℕ → Type 0
AllSmall [] = Unit
AllSmall (n ∷ ns) = (n < 2 ^ 64) × AllSmall ns

-- What the kernel prints: the id, the name in parentheses, the state, and numbers.
unfoldable pub stat_line : ℕ → Bytes → ℕ → List ℕ → Bytes
unfolding spaced
stat_line pid name state ns =
    (format pid ++ b' ' ∷ []) ++ b'(' ∷ (name ++ b')' ∷ spaced ((state ∷ []) ∷ map format ns))

-- `n` is the field of proc(5) with the number `k`, where the first number is field 4.
abbrev pub field_number : ℕ → List ℕ → ℕ
field_number k ns = get_or ns (k - 4) 0
