-- ===== src/Go/Binary.antt =====
-- Go's encoding/binary in little-endian order, and the fields of a packed struct.
use yomins_agent.Go.Text.{Bytes}
use yomins_agent.Prelude.{
  ℕ, zero, suc, ◌+◌, ◌*◌, ◌/◌, ◌%◌, ◌<◌, List, [], ◌∷◌, ◌++◌, length, take, drop, map, ◌≡◌, refl,
  ap, ap₂, ◌∙◌, arith,
}

-- The unsigned value of bytes, the lowest first.
unfoldable pub little_endian : Bytes → ℕ
little_endian [] = 0
little_endian (b ∷ bs) = b + 256 * little_endian bs

-- `w` bytes of a number.
unfoldable pub le_bytes : ℕ → ℕ → Bytes
le_bytes zero n = []
le_bytes (suc w) n = n % 256 ∷ le_bytes w (n / 256)

-- The number of values of `w` bytes.
abbrev pub values : ℕ → ℕ
values zero = 1
values (suc w) = 256 * values w

pub little_endian-le_bytes : (w n : ℕ) → n < values w → little_endian (le_bytes w n) ≡ n
unfolding little_endian le_bytes
little_endian-le_bytes zero n h = omega arith
little_endian-le_bytes (suc w) n h = omega (arith, little_endian-le_bytes w (n / 256) (omega arith))

pub length-le_bytes : (w n : ℕ) → length (le_bytes w n) ≡ w
unfolding le_bytes
length-le_bytes zero n = refl
length-le_bytes (suc w) n = ap suc (length-le_bytes w (n / 256))

-- The fields of a struct, from their sizes.
unfoldable pub cut_fields : List ℕ → Bytes → List Bytes
cut_fields [] bs = []
cut_fields (n ∷ ns) bs = take n bs ∷ cut_fields ns (drop n bs)

-- The bytes of a struct, from its fields.
abbrev pub packed : List Bytes → Bytes
packed [] = []
packed (f ∷ fs) = f ++ packed fs

pub take-append : (xs ys : Bytes) → take (length xs) (xs ++ ys) ≡ xs
take-append [] ys = refl
take-append (x ∷ xs) ys = ap (λ zs. x ∷ zs) (take-append xs ys)

pub drop-append : (xs ys : Bytes) → drop (length xs) (xs ++ ys) ≡ ys
drop-append [] ys = refl
drop-append (x ∷ xs) ys = drop-append xs ys

pub cut_fields-packed : (fs : List Bytes) → cut_fields (map length fs) (packed fs) ≡ fs
unfolding cut_fields
cut_fields-packed [] = refl
cut_fields-packed (f ∷ fs) =
    ap₂ ◌∷◌ (take-append f (packed fs))
      (ap (cut_fields (map length fs)) (drop-append f (packed fs)) ∙ cut_fields-packed fs)
