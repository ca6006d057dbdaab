-- ===== src/Upgrade/Version.antt =====
-- internal/upgrade/semver.go: release versions and their order. An error is `none`.
pub mod Order
pub mod Plain
use yomins_agent.Go.Text.{Bytes, contains_byte, cut, trim_prefix}
use yomins_agent.Go.Strconv.{atoi}
use yomins_agent.Prelude.Int.{ℤ, pos, negsuc}
use yomins_agent.Prelude.{ℕ, Bool, true, false, ◌||◌, Option, none, some, ltb, if◌then◌else◌}

-- The array of three numbers.
pub record Version : Type 0 where
  pub major : ℕ
  pub minor : ℕ
  pub patch : ℕ

unfoldable pub non_negative : Option ℤ → Option ℕ
non_negative none = none
non_negative (some (pos n)) = some n
non_negative (some (negsuc n)) = none

-- The body of the loop over the parts: the number, unless `Atoi` fails or gives a negative one.
unfoldable pub component : Bytes → Option ℕ
unfolding atoi non_negative
component p = non_negative (atoi p)

unfoldable pub version_of : Option ℕ → Option ℕ → Option ℕ → Option Version
version_of (some a) (some b) (some c) = some (record { major = a; minor = b; patch = c })
version_of _ _ _ = none

-- The parts behind the first and the second cut of `SplitN(v, ".", 3)`; the last part may hold
-- more dots. A cut that is missing leaves fewer than three parts.
unfoldable pub two_parts : Bytes → Option (Bytes × Bytes) → Option Version
unfolding component version_of
two_parts first none = none
two_parts first (some (second, third)) =
    version_of (component first) (component second) (component third)

unfoldable pub three_parts : Option (Bytes × Bytes) → Option Version
unfolding two_parts cut
three_parts none = none
three_parts (some (first, rest)) = two_parts first (cut b'.' rest)

unfoldable pub parse_parts : Bytes → Option Version
unfolding three_parts
parse_parts v = three_parts (cut b'.' v)

unfoldable pub is_marked : Bytes → Bool
unfolding contains_byte
is_marked v = contains_byte b'-' v || contains_byte b'+' v

-- `parseVersion`.
unfoldable pub parse_version : Bytes → Option Version
unfolding parse_parts is_marked trim_prefix
parse_version v = let rest = trim_prefix b'v' v in if is_marked rest then none else parse_parts rest

-- The loop of `isNewer`.
unfoldable pub follows : Version → Version → Bool
follows c n =
    if ltb c.major n.major
    then true
    else if ltb n.major c.major
    then false
    else if ltb c.minor n.minor
    then true
    else if ltb n.minor c.minor
    then false
    else if ltb c.patch n.patch
    then true
    else false

-- What `isNewer` makes of the two parsed texts.
unfoldable pub compared : Option Version → Option Version → Option Bool
unfolding follows
compared (some c) (some n) = some (follows c n)
compared _ _ = none

-- `isNewer`.
unfoldable pub is_newer : Bytes → Bytes → Option Bool
unfolding compared
is_newer current candidate = compared (parse_version current) (parse_version candidate)
