-- ===== src/Go/Strconv.antt =====
-- Go's package strconv: `Atoi` and `ParseUint` on a 64-bit machine.
pub mod Decimal
pub mod Trim
pub mod Value
use yomins_agent.Go.Text.{Bytes, is_digit}
use yomins_agent.Prelude.Int.{ℤ, pos, negsuc}
use yomins_agent.Prelude.{
  ℕ, zero, suc, ◌+◌, ◌-◌, ◌*◌, ◌^◌, Option, none, some, [], ◌∷◌, ltb, ◌==◌, if◌then◌else◌,
}

-- The value of a run of decimal digits behind the value `acc`.
unfoldable pub digits_from : ℕ → Bytes → Option ℕ
unfolding is_digit
digits_from acc [] = some acc
digits_from acc (c ∷ cs) =
    let more = digits_from (acc * 10 + (c - b'0')) cs in if is_digit c then more else none

-- At least one digit.
unfoldable pub parse_digits : Bytes → Option ℕ
unfolding digits_from
parse_digits [] = none
parse_digits (c ∷ cs) = digits_from 0 (c ∷ cs)

unfoldable pub in_range_pos : ℕ → Option ℤ
in_range_pos n = if ltb n (2 ^ 63) then some (pos n) else none

in_range_neg : ℕ → Option ℤ
in_range_neg zero = some (pos 0)
in_range_neg (suc n) = if ltb n (2 ^ 63) then some (negsuc n) else none

-- `ParseUint(s, 10, 64)`.
unfoldable pub parse_uint : Bytes → Option ℕ
unfolding parse_digits
parse_uint s = elim (parse_digits s) [
  | none ↦ none
  | some n ↦ if ltb n (2 ^ 64) then some n else none
]

-- `Atoi`: a sign or none, decimal digits, and a value that an int64 holds.
unfoldable pub atoi : Bytes → Option ℤ
unfolding parse_digits in_range_pos in_range_neg
atoi [] = none
atoi (c ∷ cs) =
    if c == b'-'
    then elim (parse_digits cs) [ none ↦ none | some n ↦ in_range_neg n ]
    else elim (parse_digits (if c == b'+' then cs else c ∷ cs)) [
      | none ↦ none
      | some n ↦ in_range_pos n
    ]

-- The value that `ParseUint` returns behind `acc`, beside whatever error: 0 at a character that is
-- no digit, and the largest value where the digits overflow first.
unfoldable pub uint_from : ℕ → Bytes → ℕ
unfolding is_digit
uint_from acc [] = acc
uint_from acc (c ∷ cs) =
    let next = acc * 10 + (c - b'0') in
    let rest = uint_from next cs in
    if is_digit c then (if ltb next (2 ^ 64) then rest else 2 ^ 64 - 1) else 0

unfoldable pub uint_value : Bytes → ℕ
unfolding uint_from
uint_value s = uint_from 0 s
