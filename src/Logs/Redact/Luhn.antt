-- ===== src/Logs/Redact/Luhn.antt =====
-- The check digit.
use yomins_agent.Go.Text.{Bytes, is_digit}
use mathlib.Core.List.{reverse, reverse-append, reverse-cons, append_assoc}
use yomins_agent.Prelude.{
  ℕ, ◌%◌, ◌≡◌, ◌≢◌, sym, ap, ◌∙◌, Bool, true, false, not, [], ◌∷◌, ◌++◌, arith, ◌≤◌,
}
use yomins_agent.Logs.Redact.{luhn_digit, luhn_sum, luhn}

luhn_digit_differs :
    (double : Bool) (c d : ℕ)
    → is_digit c ≡ true
    → is_digit d ≡ true
    → c ≢ d
    → (luhn_digit double c ≢ luhn_digit double d)
      × (luhn_digit double c ≤ 9)
      × (luhn_digit double d ≤ 9)
unfolding luhn_digit is_digit
luhn_digit_differs double c d hc hd ne = ground arith

luhn_sum_differs :
    (double : Bool) (s t : Bytes) (c d : ℕ)
    → is_digit c ≡ true
    → is_digit d ≡ true
    → c ≢ d
    → luhn_sum double (s ++ c ∷ t) % 10 ≢ luhn_sum double (s ++ d ∷ t) % 10
unfolding luhn_sum
luhn_sum_differs double [] t c d hc hd ne =
    let (other, small, small') = luhn_digit_differs double c d hc hd ne in
    omega (arith, other, small, small')
luhn_sum_differs double (x ∷ s) t c d hc hd ne =
    let rest = luhn_sum_differs (not double) s t c d hc hd ne in omega (arith, rest)

reverse-middle : (s t : Bytes) (c : ℕ) → reverse (s ++ c ∷ t) ≡ reverse t ++ c ∷ reverse s
reverse-middle s t c =
    reverse-append s (c ∷ t)
    ∙ ap (λ xs. xs ++ reverse s) (reverse-cons c t)
    ∙ append_assoc (reverse t) (c ∷ []) (reverse s)

-- Of a card number, no other number that differs in one digit passes the check.
pub luhn_detects :
    (s t : Bytes) (c d : ℕ)
    → is_digit c ≡ true
    → is_digit d ≡ true
    → c ≢ d
    → luhn (s ++ c ∷ t) ≡ true
    → luhn (s ++ d ∷ t) ≡ false
unfolding luhn
luhn_detects s t c d hc hd ne h =
    let differ = luhn_sum_differs false (reverse t) (reverse s) c d hc hd ne in
    let passes : luhn_sum false (reverse t ++ c ∷ reverse s) % 10 ≡ 0 =
      ap (λ r. luhn_sum false r % 10) (sym (reverse-middle s t c)) ∙ ground (arith, h) in
    let at = ap (λ r. luhn_sum false r % 10) (reverse-middle s t d) in
    ground (arith, differ, passes, at)
