-- ===== src/Config/Csv.antt =====
-- parseCSV of internal/config/config.go reads a list back from its words with commas between them.
use yomins_agent.Go.Text.{Bytes, is_empty, trim_space}
use yomins_agent.Config.{add_byte, split_commas, trimmed_tokens, parse_csv}
use yomins_agent.Prelude.{false, List, [], ◌∷◌, ◌++◌, ◌==◌, ◌≡◌, ◌≢◌, refl, ap, ◌∙◌, Each}

abbrev pub NoComma : Bytes → Type 0
NoComma w = Each (λ c. (c == b',') ≡ false) w

-- A word that the list can hold: it is not empty, has no comma and no white space at its ends.
abbrev pub IsToken : Bytes → Type 0
IsToken w = (w ≢ []) × NoComma w × (trim_space w ≡ w)

-- The words, with a comma before each but the first.
abbrev pub comma_before : List Bytes → Bytes
comma_before [] = []
comma_before (w ∷ ws) = b',' ∷ (w ++ comma_before ws)

abbrev pub joined : List Bytes → Bytes
joined [] = []
joined (w ∷ ws) = w ++ comma_before ws

split_commas-word :
    (w s : Bytes) (ws : List Bytes)
    → NoComma w
    → split_commas s ≡ [] ∷ ws
    → split_commas (w ++ s) ≡ w ∷ ws
unfolding split_commas
split_commas-word [] s ws h e = e
split_commas-word (c ∷ w) s ws (h, hs) e = rw h (ap (add_byte c) (split_commas-word w s ws hs e))

split_commas-comma_before :
    (ws : List Bytes) → Each IsToken ws → split_commas (comma_before ws) ≡ [] ∷ ws
unfolding split_commas
split_commas-comma_before [] h = refl
split_commas-comma_before (w ∷ ws) ((full, plain, trimmed), hs) =
    ap (λ words. [] ∷ words)
      (split_commas-word w (comma_before ws) ws plain (split_commas-comma_before ws hs))

trimmed_tokens-same : (ws : List Bytes) → Each IsToken ws → trimmed_tokens ws ≡ ws
unfolding trimmed_tokens is_empty
trimmed_tokens-same [] h = refl
trimmed_tokens-same ([] ∷ ws) ((full, plain, trimmed), hs) = absurd (full refl)
trimmed_tokens-same ((c ∷ w) ∷ ws) ((full, plain, trimmed), hs) =
    rw trimmed (ap (λ words. (c ∷ w) ∷ words) (trimmed_tokens-same ws hs))

-- Words that are not empty, hold no comma and have no white space at their ends are read back from
-- the text in which they stand with commas between them.
pub parse_csv-joined : (ws : List Bytes) → Each IsToken ws → parse_csv (joined ws) ≡ ws
unfolding parse_csv is_empty
parse_csv-joined [] h = refl
parse_csv-joined ([] ∷ ws) ((full, plain, trimmed), hs) = absurd (full refl)
parse_csv-joined ((c ∷ w) ∷ ws) ((full, plain, trimmed), hs) =
    ap trimmed_tokens
      (split_commas-word (c ∷ w) (comma_before ws) ws plain (split_commas-comma_before ws hs))
    ∙ trimmed_tokens-same ((c ∷ w) ∷ ws) ((full, plain, trimmed), hs)
