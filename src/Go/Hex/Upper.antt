-- ===== src/Go/Hex/Upper.antt =====
-- Upper-case hexadecimal digits, as `%02X` and `%04X` print them, and what is read from them.
use yomins_agent.Go.Text.{Bytes}
use yomins_agent.Go.Hex.{hex_value, decode_hex, hex_from, parse_hex16}
use yomins_agent.Prelude.{
  ℕ, ◌+◌, ◌/◌, ◌%◌, ◌-◌, ◌^◌, ◌<◌, some, [], ◌∷◌, ltb, if◌then◌else◌, ◌≡◌, refl, arith,
}

unfoldable pub upper_digit : ℕ → ℕ
upper_digit d = if ltb d 10 then b'0' + d else b'A' + (d - 10)

-- Two digits for each byte.
unfoldable pub upper_hex : Bytes → Bytes
upper_hex [] = []
upper_hex (b ∷ bs) = upper_digit (b / 16) ∷ upper_digit (b % 16) ∷ upper_hex bs

-- Four digits.
unfoldable pub upper_hex16 : ℕ → Bytes
upper_hex16 n =
    upper_digit (n / 4096)
    ∷ upper_digit (n / 256 % 16)
    ∷ upper_digit (n / 16 % 16)
    ∷ upper_digit (n % 16)
    ∷ []

hex_value-upper_digit : (d : ℕ) → d < 16 → hex_value (upper_digit d) ≡ some d
unfolding hex_value upper_digit
hex_value-upper_digit d h = ground arith

abbrev pub AllBytes : Bytes → Type 0
AllBytes [] = Unit
AllBytes (b ∷ bs) = (b < 256) × AllBytes bs

pub decode_hex-upper_hex : (bs : Bytes) → AllBytes bs → decode_hex (upper_hex bs) ≡ some bs
unfolding decode_hex upper_hex
decode_hex-upper_hex [] h = refl
decode_hex-upper_hex (b ∷ bs) (h, hs) =
    rw
      (
        hex_value-upper_digit (b / 16) (omega arith),
        hex_value-upper_digit (b % 16) (omega arith),
        decode_hex-upper_hex bs hs,
      )
      (ground arith)

pub parse_hex16-upper_hex16 : (n : ℕ) → n < 2 ^ 16 → parse_hex16 (upper_hex16 n) ≡ some n
unfolding parse_hex16 upper_hex16 hex_from
parse_hex16-upper_hex16 n h =
    rw
      (
        hex_value-upper_digit (n / 4096) (omega arith),
        hex_value-upper_digit (n / 256 % 16) (omega arith),
        hex_value-upper_digit (n / 16 % 16) (omega arith),
        hex_value-upper_digit (n % 16) (omega arith),
        parse_hex16,
        hex_from,
      )
      (ground arith)
