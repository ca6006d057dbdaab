-- ===== src/Go/Hex.antt =====
-- `%x` of a slice of bytes, two lower-case digits for each byte, and the reading of hexadecimal
-- digits.
pub mod Upper
use yomins_agent.Go.Text.{Bytes}
use yomins_agent.Prelude.{
  ℕ, ◌+◌, ◌*◌, ◌/◌, ◌%◌, ◌-◌, ◌^◌, Option, none, some, [], ◌∷◌, ltb, leb, ◌&&◌, if◌then◌else◌,
}

unfoldable pub hex_digit : ℕ → ℕ
hex_digit d = if ltb d 10 then b'0' + d else b'a' + (d - 10)

unfoldable pub hex : Bytes → Bytes
unfolding hex_digit
hex [] = []
hex (b ∷ bs) = hex_digit (b / 16) ∷ hex_digit (b % 16) ∷ hex bs

-- The value of a digit of either case.
unfoldable pub hex_value : ℕ → Option ℕ
hex_value c =
    if leb b'0' c && leb c b'9'
    then some (c - b'0')
    else if leb b'a' c && leb c b'f'
    then some (c - b'a' + 10)
    else if leb b'A' c && leb c b'F'
    then some (c - b'A' + 10)
    else none

abbrev pub with_pair : Option ℕ → Option ℕ → Option Bytes → Option Bytes
with_pair (some hi) (some lo) (some bs) = some ((hi * 16 + lo) ∷ bs)
with_pair _ _ _ = none

-- `hex.DecodeString`.
unfoldable pub decode_hex : Bytes → Option Bytes
decode_hex [] = some []
decode_hex (c ∷ []) = none
decode_hex (c ∷ d ∷ s) = with_pair (hex_value c) (hex_value d) (decode_hex s)

-- The value of hexadecimal digits behind the value `acc`.
unfoldable pub hex_from : ℕ → Bytes → Option ℕ
hex_from acc [] = some acc
hex_from acc (c ∷ cs) = elim (hex_value c) [ none ↦ none | some d ↦ hex_from (acc * 16 + d) cs ]

-- `ParseUint(s, 16, 16)`.
unfoldable pub parse_hex16 : Bytes → Option ℕ
parse_hex16 [] = none
parse_hex16 (c ∷ cs) = elim (hex_from 0 (c ∷ cs)) [
  | none ↦ none
  | some n ↦ if ltb n (2 ^ 16) then some n else none
]
