-- ===== src/Go/Strconv/Trim.antt =====
-- Digits have no white space round them for `TrimSpace` to take away.
use mathlib.Core.List.{reverse, reverse-cons, reverse-reverse}
use yomins_agent.Go.Text.{Bytes, is_digit, is_space, trim_left, trim_right, trim_space}
use yomins_agent.Go.Strconv.Decimal.{All, All-append}
use yomins_agent.Prelude.{[], ◌∷◌, ◌≡◌, refl, ap, ◌∙◌, arith, ℕ, Bool}

reverse-All : (p : ℕ → Bool) (s : Bytes) → All p s → All p (reverse s)
reverse-All p [] h = tt
reverse-All p (c ∷ s) (h, hs) =
    rw (reverse-cons c s) (All-append p (reverse s) (c ∷ []) (reverse-All p s hs) (h, tt))

trim_left-digits : (s : Bytes) → All is_digit s → trim_left is_space s ≡ s
unfolding trim_left is_digit is_space
trim_left-digits [] h = refl
trim_left-digits (c ∷ s) (h, hs) = ground arith

pub trim_space-digits : (s : Bytes) → All is_digit s → trim_space s ≡ s
unfolding trim_space trim_right
trim_space-digits s h =
    ap (λ t. reverse (trim_left is_space (reverse t))) (trim_left-digits s h)
    ∙ ap reverse (trim_left-digits (reverse s) (reverse-All is_digit s h))
    ∙ reverse-reverse s
