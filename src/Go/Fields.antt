-- ===== src/Go/Fields.antt =====
-- `strings.Fields`, and the words of a text that is printed with a space before each.
use yomins_agent.Go.Text.{Bytes, is_space}
use yomins_agent.Go.Strconv.Decimal.{All}
use yomins_agent.Prelude.{
  ℕ, Bool, not, List, [], ◌∷◌, ◌++◌, if◌then◌else◌, ◌≡◌, ◌≢◌, refl, ap, ◌∙◌, arith,
}

-- `strings.Fields`; the word that is read stands in `word`.
abbrev pub with_word : Bytes → List Bytes → List Bytes
with_word [] words = words
with_word (c ∷ cs) words = (c ∷ cs) ∷ words

abbrev pub add_byte : ℕ → Bytes × List Bytes → Bytes × List Bytes
add_byte c (word, words) = if is_space c then ([], with_word word words) else (c ∷ word, words)

-- The word that the text starts with, empty before white space, and the other words.
unfoldable pub split_words : Bytes → Bytes × List Bytes
unfolding is_space
split_words [] = ([], [])
split_words (c ∷ s) = add_byte c (split_words s)

unfoldable pub fields : Bytes → List Bytes
unfolding split_words
fields s = with_word (split_words s).0 (split_words s).1

abbrev pub no_space : ℕ → Bool
no_space c = not (is_space c)

-- Words with a space before each, and a newline.
unfoldable pub spaced : List Bytes → Bytes
spaced [] = b'\n' ∷ []
spaced (w ∷ ws) = b' ' ∷ (w ++ spaced ws)

abbrev pub IsWord : Bytes → Type 0
IsWord w = (w ≢ []) × All no_space w

abbrev pub AllWords : List Bytes → Type 0
AllWords [] = Unit
AllWords (w ∷ ws) = IsWord w × AllWords ws

split_words-word :
    (w s : Bytes) (ws : List Bytes)
    → All no_space w
    → split_words s ≡ ([], ws)
    → split_words (w ++ s) ≡ (w, ws)
unfolding split_words
split_words-word [] s ws h e = e
split_words-word (c ∷ w) s ws (h, hs) e =
    ap (add_byte c) (split_words-word w s ws hs e) ∙ ground arith

with_word-full : (w : Bytes) (ws : List Bytes) → w ≢ [] → with_word w ws ≡ w ∷ ws
with_word-full [] ws full = absurd (full refl)
with_word-full (c ∷ w) ws full = refl

split_words-spaced : (ws : List Bytes) → AllWords ws → split_words (spaced ws) ≡ ([], ws)
unfolding split_words spaced
split_words-spaced [] h = refl
split_words-spaced (w ∷ ws) ((full, h), hs) =
    ap (add_byte b' ') (split_words-word w (spaced ws) ws h (split_words-spaced ws hs))
    ∙ ap (λ words. ([], words)) (with_word-full w ws full)

pub fields-spaced : (ws : List Bytes) → AllWords ws → fields (spaced ws) ≡ ws
unfolding fields
fields-spaced ws h = rw (split_words-spaced ws h) refl
