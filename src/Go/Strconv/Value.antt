-- ===== src/Go/Strconv/Value.antt =====
-- The value that `ParseUint` returns for the digits of a number.
use yomins_agent.Go.Text.{Bytes}
use yomins_agent.Go.Strconv.{digits_from, uint_from, uint_value}
use yomins_agent.Go.Strconv.Decimal.{format, digits_from-format}
use yomins_agent.Prelude.{ℕ, ◌+◌, ◌-◌, ◌*◌, ◌^◌, ◌≤◌, ◌<◌, some, [], ◌∷◌, ◌≡◌, arith}

digits_from-le : (acc n : ℕ) (s : Bytes) → digits_from acc s ≡ some n → acc ≤ n
unfolding digits_from
digits_from-le acc n [] h = ground arith
digits_from-le acc n (c ∷ s) h = ground (arith, digits_from-le (acc * 10 + (c - b'0')) n s)

uint_from-digits :
    (acc n : ℕ) (s : Bytes) → digits_from acc s ≡ some n → n < 2 ^ 64 → uint_from acc s ≡ n
unfolding digits_from uint_from
uint_from-digits acc n [] h b = ground arith
uint_from-digits acc n (c ∷ s) h b = ground (
  arith,
  digits_from-le (acc * 10 + (c - b'0')) n s,
  uint_from-digits (acc * 10 + (c - b'0')) n s,
)

pub uint_value-format : (n : ℕ) → n < 2 ^ 64 → uint_value (format n) ≡ n
unfolding uint_value
uint_value-format n h = uint_from-digits 0 n (format n) (digits_from-format n) h
