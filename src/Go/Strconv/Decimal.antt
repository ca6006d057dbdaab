-- ===== src/Go/Strconv/Decimal.antt =====
-- The decimal digits of a number, as `FormatInt` writes them, and what `Atoi` makes of them.
use yomins_agent.Go.Text.{contains_byte, Bytes, is_digit}
use yomins_agent.Go.Strconv.{digits_from, parse_digits, parse_uint, atoi, in_range_pos}
use yomins_agent.Prelude.Int.{pos}
use yomins_agent.Prelude.{
  ◌≢◌, ℕ, zero, suc, ◌+◌, ◌-◌, ◌*◌, ◌/◌, ◌%◌, ◌^◌, ◌<◌, ◌≡◌, refl, Option, none, some, [], ◌∷◌,
  ◌++◌, ltb, if◌then◌else◌, arith, true, false, Bool, inl, inr, Bool-cases, ◌∙◌,
}

unfoldable pub digits : ℕ → ℕ → Bytes
digits zero n = []
digits (suc fuel) n =
    let more = digits fuel (n / 10) in
    if ltb n 10 then (b'0' + n) ∷ [] else more ++ (b'0' + n % 10) ∷ []

-- `FormatInt(n, 10)` of a number that is not negative.
unfoldable pub format : ℕ → Bytes
unfolding digits
format n = digits (suc n) n

abbrev next_digit : ℕ → Option ℕ → Option ℕ
next_digit c none = none
next_digit c (some v) = if is_digit c then some (v * 10 + (c - b'0')) else none

digits_from-append :
    (acc c : ℕ) (xs : Bytes) → digits_from acc (xs ++ c ∷ []) ≡ next_digit c (digits_from acc xs)
unfolding digits_from
digits_from-append acc c [] = refl
digits_from-append acc c (x ∷ xs) = ground (arith, digits_from-append (acc * 10 + (x - b'0')) c xs)

digits_from-digits : (fuel n : ℕ) → n < fuel → digits_from 0 (digits fuel n) ≡ some n
unfolding digits digits_from is_digit
digits_from-digits zero n h = elim h [ ]
digits_from-digits (suc fuel) n h = elim (Bool-cases (ltb n 10)) [
  | inl small ↦ rw small (ground arith)
  | inr large ↦
      rw
        (
          large,
          digits_from-append 0 (b'0' + n % 10) (digits fuel (n / 10)),
          digits_from-digits fuel (n / 10) (ground arith),
        )
        (ground arith)
]

abbrev pub All : (ℕ → Bool) → Bytes → Type 0
All p [] = Unit
All p (c ∷ cs) = (p c ≡ true) × All p cs

pub All-append : (p : ℕ → Bool) (xs ys : Bytes) → All p xs → All p ys → All p (xs ++ ys)
All-append p [] ys h k = k
All-append p (x ∷ xs) ys (h, hs) k = (h, All-append p xs ys hs k)

digits-All : (fuel n : ℕ) → All is_digit (digits fuel n)
unfolding digits is_digit
digits-All zero n = tt
digits-All (suc fuel) n = elim (Bool-cases (ltb n 10)) [
  | inl small ↦ rw small (ground arith)
  | inr large ↦
      rw large
        (All-append is_digit (digits fuel (n / 10)) _ (digits-All fuel (n / 10)) (ground arith))
]

pub format-All : (n : ℕ) → All is_digit (format n)
unfolding format
format-All n = digits-All (suc n) n

-- A text that starts with a digit has no sign, so `atoi` reads digits only.
atoi-digits :
    (s : Bytes) (n : ℕ)
    → All is_digit s
    → digits_from 0 s ≡ some n
    → n < 2 ^ 63
    → s ≢ []
    → atoi s ≡ some (pos n)
unfolding atoi parse_digits in_range_pos is_digit
atoi-digits [] n h e b full = absurd (full refl)
atoi-digits (c ∷ s) n (h, hs) e b full = ground (arith, e)

append_full : (xs : Bytes) (c : ℕ) → xs ++ c ∷ [] ≢ []
append_full [] c = ground arith
append_full (x ∷ xs) c = ground arith

pub format-full : (n : ℕ) → format n ≢ []
unfolding format digits
format-full n = elim (Bool-cases (ltb n 10)) [
  | inl small ↦ rw small (ground arith)
  | inr large ↦ rw large (append_full (digits n (n / 10)) (b'0' + n % 10))
]

pub atoi-format : (n : ℕ) → n < 2 ^ 63 → atoi (format n) ≡ some (pos n)
unfolding format
atoi-format n h =
    atoi-digits (format n) n (format-All n) (digits_from-digits (suc n) n (omega arith)) h
      (format-full n)

pub digits_from-format : (n : ℕ) → digits_from 0 (format n) ≡ some n
unfolding format
digits_from-format n = digits_from-digits (suc n) n (omega arith)

parse_digits-full : (s : Bytes) → s ≢ [] → parse_digits s ≡ digits_from 0 s
unfolding parse_digits
parse_digits-full [] full = absurd (full refl)
parse_digits-full (c ∷ s) full = refl

pub parse_digits-format : (n : ℕ) → parse_digits (format n) ≡ some n
parse_digits-format n = parse_digits-full (format n) (format-full n) ∙ digits_from-format n

pub parse_uint-format : (n : ℕ) → n < 2 ^ 64 → parse_uint (format n) ≡ some n
unfolding parse_uint
parse_uint-format n h = rw (parse_digits-format n, parse_uint) (ground arith)

digits_from-All : (acc n : ℕ) (s : Bytes) → digits_from acc s ≡ some n → All is_digit s
unfolding digits_from
digits_from-All acc n [] h = tt
digits_from-All acc n (c ∷ s) h = ground (arith, digits_from-All (acc * 10 + (c - b'0')) n s)

-- What `Atoi` takes and starts with no sign is digits.
pub atoi-All :
    (s : Bytes) (n : ℕ)
    → atoi s ≡ some (pos n)
    → contains_byte b'-' s ≡ false
    → contains_byte b'+' s ≡ false
    → All is_digit s
unfolding atoi parse_digits contains_byte in_range_pos
atoi-All [] n h minus plus = tt
atoi-All (c ∷ s) n h minus plus = ground (arith, digits_from-All 0 n (c ∷ s))
