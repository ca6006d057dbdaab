-- ===== src/Go/Utf8.antt =====
-- How Go cuts a text into runes: a byte that starts no valid encoding is a rune of its own.
use yomins_agent.Go.Text.{Bytes}
use yomins_agent.Prelude.{
  ℕ, zero, suc, ◌+◌, ◌/◌, ◌%◌, ◌≤◌, Bool, ◌&&◌, List, [], ◌∷◌, ◌++◌, leb, ltb, ◌==◌, length, take,
  drop, if◌then◌else◌, ◌≡◌, refl, ap, ◌∙◌, arith, take-append-drop, length-drop,
}

abbrev between : ℕ → ℕ → ℕ → Bool
between lo hi c = leb lo c && leb c hi

-- The range of the second byte after a first one that wants another.
unfoldable pub second_ok : ℕ → ℕ → Bool
second_ok a b =
    if a == 224
    then between 160 191 b
    else if a == 237
    then between 128 159 b
    else if a == 240
    then between 144 191 b
    else if a == 244
    then between 128 143 b
    else between 128 191 b

unfoldable pub rune_width : Bytes → ℕ
unfolding second_ok
rune_width (a ∷ b ∷ c ∷ d ∷ s) =
    if between 194 223 a && second_ok a b
    then 2
    else if between 224 239 a && (second_ok a b && between 128 191 c)
    then 3
    else if between 240 244 a && (second_ok a b && (between 128 191 c && between 128 191 d))
    then 4
    else 1
rune_width (a ∷ b ∷ c ∷ []) =
    if between 194 223 a && second_ok a b
    then 2
    else if between 224 239 a && (second_ok a b && between 128 191 c)
    then 3
    else 1
rune_width (a ∷ b ∷ []) = if between 194 223 a && second_ok a b then 2 else 1
rune_width s = 1

-- The encoding of a rune below 256.
unfoldable pub encode_latin : ℕ → Bytes
encode_latin c = if ltb c 128 then c ∷ [] else (192 + c / 64) ∷ (128 + c % 64) ∷ []

-- Each rune takes a byte at least, so the length of the text is fuel enough.
unfoldable pub runes_from : ℕ → Bytes → List Bytes
unfolding rune_width
runes_from zero s = []
runes_from (suc fuel) [] = []
runes_from (suc fuel) (c ∷ s) =
    let n = rune_width (c ∷ s) in take n (c ∷ s) ∷ runes_from fuel (drop n (c ∷ s))

unfoldable pub runes : Bytes → List Bytes
unfolding runes_from
runes s = runes_from (length s) s

abbrev pub concat : List Bytes → Bytes
concat [] = []
concat (r ∷ rs) = r ++ concat rs

rune_width_pos : (s : Bytes) → 1 ≤ rune_width s
unfolding rune_width
rune_width_pos (a ∷ b ∷ c ∷ d ∷ s) = ground arith
rune_width_pos (a ∷ b ∷ c ∷ []) = ground arith
rune_width_pos (a ∷ b ∷ []) = ground arith
rune_width_pos (a ∷ []) = omega arith
rune_width_pos [] = omega arith

concat-runes_from : (fuel : ℕ) (s : Bytes) → length s ≤ fuel → concat (runes_from fuel s) ≡ s
unfolding runes_from
concat-runes_from zero [] h = refl
concat-runes_from zero (c ∷ s) h = elim h [ ]
concat-runes_from (suc fuel) [] h = refl
concat-runes_from (suc fuel) (c ∷ s) h =
    let n = rune_width (c ∷ s) in
    ap (λ t. take n (c ∷ s) ++ t)
      (concat-runes_from fuel (drop n (c ∷ s))
        (omega (arith, length-drop n (c ∷ s), rune_width_pos (c ∷ s))))
    ∙ take-append-drop n (c ∷ s)

pub concat-runes : (s : Bytes) → concat (runes s) ≡ s
unfolding runes
concat-runes s = concat-runes_from (length s) s (omega arith)
