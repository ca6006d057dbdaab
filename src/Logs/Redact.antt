-- ===== src/Logs/Redact.antt =====
-- internal/logs/redact.go: the masking of secrets. A rule's regular expression is a parameter, as
-- the function that replaces its matches, and so is the search for card numbers.
pub mod Luhn
pub mod Runs
use yomins_agent.Go.Text.{Bytes, codes, is_digit}
use mathlib.Core.List.{reverse}
use yomins_agent.Prelude.{
  ℕ, ◌+◌, ◌-◌, ◌*◌, ◌%◌, Bool, true, false, not, ◌&&◌, ◌||◌, List, [], ◌∷◌, ◌==◌, ltb, leb, length,
  if◌then◌else◌,
}

-- `redactRule`: its hint, which is always true where it is nil, and what it makes of a line.
pub record RedactRule : Type 0 where
  pub hint : Bytes → Bool
  pub replace : Bytes → Bytes

-- The loop of `Redact` over the rules; `lower` is the line in lower case.
unfoldable pub apply_rules : List RedactRule → Bytes → Bytes → Bytes
apply_rules [] lower s = s
apply_rules (rule ∷ rules) lower s =
    apply_rules rules lower (if rule.hint lower then rule.replace s else s)

-- The loop of `hasDigitRun` behind `run` digits; `sep` says that a space or a dash came last.
unfoldable pub scan_digits : ℕ → ℕ → Bool → Bytes → Bool
unfolding is_digit
scan_digits n run sep [] = false
scan_digits n run sep (c ∷ s) =
    let counted = scan_digits n (run + 1) false s in
    let kept = scan_digits n run true s in
    let dropped = scan_digits n 0 false s in
    if is_digit c
    then (if leb n (run + 1) then true else counted)
    else if (c == b' ' || c == b'-') && (ltb 0 run && not sep)
    then kept
    else dropped

-- `hasDigitRun`.
unfoldable pub has_digit_run : Bytes → ℕ → Bool
unfolding scan_digits
has_digit_run s n = scan_digits n 0 false s

-- What a digit adds to the sum.
unfoldable pub luhn_digit : Bool → ℕ → ℕ
luhn_digit double c =
    let d = c - b'0' in if double then (if ltb 9 (d * 2) then d * 2 - 9 else d * 2) else d

-- The loop of `luhn`, over the digits from the last one on.
unfoldable pub luhn_sum : Bool → Bytes → ℕ
unfolding luhn_digit
luhn_sum double [] = 0
luhn_sum double (c ∷ s) = luhn_digit double c + luhn_sum (not double) s

-- `luhn`.
unfoldable pub luhn : Bytes → Bool
unfolding luhn_sum
luhn digits = luhn_sum false (reverse digits) % 10 == 0

-- `strings.Map` that keeps the digits.
unfoldable pub digits_of : Bytes → Bytes
unfolding is_digit
digits_of [] = []
digits_of (c ∷ s) = let more = digits_of s in if is_digit c then c ∷ more else more

-- What the last replacement makes of a candidate.
unfoldable pub mask_card : Bytes → Bytes
unfolding digits_of luhn
mask_card m =
    let digits = digits_of m in
    if leb 13 (length digits) && (leb (length digits) 19 && luhn digits) then codes "***" else m

-- `Redact`; `replace_cards` replaces each match of the expression for card numbers.
unfoldable pub redact :
    (Bytes → Bytes) → ((Bytes → Bytes) → Bytes → Bytes) → List RedactRule → Bytes → Bytes
unfolding apply_rules has_digit_run mask_card
redact to_lower replace_cards rules s =
    let s' = apply_rules rules (to_lower s) s in
    if has_digit_run s' 13 then replace_cards mask_card s' else s'
