-- ===== src/Logs/Allow.antt =====
-- internal/logs/allow.go: the places that logs may be read from. A glob is the regular expression
-- that globRegexp builds of it, as a list of its parts; the cache of the compiled ones is left out.
pub mod Inside
use yomins_agent.Go.Text.{Bytes, codes, equal}
use yomins_agent.Go.Path.{clean}
use yomins_agent.Go.Utf8.{runes, encode_latin}
use yomins_agent.Prelude.{ℕ, Bool, true, false, not, ◌&&◌, ◌||◌, List, [], ◌∷◌, ◌==◌, if◌then◌else◌}

-- `DefaultAllow`.
abbrev pub default_allow : List Bytes
default_allow =
    codes "/var/log/**"
    ∷ codes "/home/*/logs/**"
    ∷ codes "/home/*/log/**"
    ∷ codes "/var/www/**/logs/**"
    ∷ codes "/var/www/**/log/**"
    ∷ codes "/var/www/**/*.log"
    ∷ codes "/srv/**/*.log"
    ∷ codes "/opt/**/*.log"
    ∷ codes "/var/lib/docker/containers/*/*-json.log"
    ∷ codes "/var/lib/mysql/*.err"
    ∷ codes "/var/lib/mysql/*slow*.log"
    ∷ []

-- `.*`, `[^/]*`, `[^/]` and a rune. The dot stands for no newline.
pub data Part : Type 0 where
  across within single : Part
  literal : Bytes → Part

-- The switch over one byte; `string(c)` makes a rune of a byte above 127.
abbrev pub part_of : ℕ → Part
part_of c =
    if c == b'*'
    then Part.within
    else if c == b'?'
    then Part.single
    else Part.literal (encode_latin c)

unfoldable pub parts : Bytes → List Part
parts [] = []
parts (c ∷ []) = part_of c ∷ []
parts (c ∷ d ∷ g) =
    let spanning = Part.across ∷ parts g in
    let other = part_of c ∷ parts (d ∷ g) in if c == b'*' && d == b'*' then spanning else other

abbrev pub is_rune : ℕ → Bytes → Bool
is_rune c r = equal r (c ∷ [])

-- Whether the whole text, cut into runes, matches.
unfoldable pub matches : List Part → List Bytes → Bool
matches [] [] = true
matches [] (r ∷ rs) = false
matches (Part.across ∷ ps) [] = matches ps []
matches (Part.across ∷ ps) (r ∷ rs) =
    matches ps (r ∷ rs) || (not (is_rune b'\n' r) && matches (Part.across ∷ ps) rs)
matches (Part.within ∷ ps) [] = matches ps []
matches (Part.within ∷ ps) (r ∷ rs) =
    matches ps (r ∷ rs) || (not (is_rune b'/' r) && matches (Part.within ∷ ps) rs)
matches (Part.single ∷ ps) [] = false
matches (Part.single ∷ ps) (r ∷ rs) = not (is_rune b'/' r) && matches ps rs
matches (Part.literal l ∷ ps) [] = false
matches (Part.literal l ∷ ps) (r ∷ rs) = equal r l && matches ps rs

unfoldable pub matches_some : Bytes → List Bytes → Bool
unfolding matches parts
matches_some path [] = false
matches_some path (g ∷ allow) = matches (parts g) (runes path) || matches_some path allow

-- `Allowed`.
unfoldable pub allowed : Bytes → List Bytes → Bool
unfolding matches_some
allowed path allow = matches_some (clean path) allow
