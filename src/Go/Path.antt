-- ===== src/Go/Path.antt =====
-- Go's package path/filepath on Unix: Clean, Base and Ext.
pub mod Clean
use yomins_agent.Go.Text.{Bytes, codes, equal, is_empty, has_prefix, trim_right}
use yomins_agent.Prelude.{
  ℕ, Bool, true, false, not, ◌&&◌, ◌||◌, Option, none, some, List, [], ◌∷◌, ◌++◌, ◌==◌,
  if◌then◌else◌,
}
use mathlib.Core.List.{reverse}

-- The texts between the slashes.
abbrev pub add_to_first : ℕ → List Bytes → List Bytes
add_to_first c [] = (c ∷ []) ∷ []
add_to_first c (e ∷ es) = (c ∷ e) ∷ es

unfoldable pub split_slashes : Bytes → List Bytes
split_slashes [] = [] ∷ []
split_slashes (c ∷ s) =
    let rest = split_slashes s in if c == b'/' then [] ∷ rest else add_to_first c rest

abbrev pub join_slashes : List Bytes → Bytes
join_slashes [] = []
join_slashes (e ∷ []) = e
join_slashes (e ∷ d ∷ es) = e ++ b'/' ∷ join_slashes (d ∷ es)

-- An element behind those that are kept, the last one first: an empty one and "." vanish, and ".."
-- takes an element away, or stays where there is none and the path is not rooted.
unfoldable pub push_element : Bool → Bytes → List Bytes → List Bytes
push_element rooted e kept =
    if is_empty e || equal e (codes ".")
    then kept
    else if equal e (codes "..")
    then elim kept [
      | [] ↦ if rooted then [] else e ∷ []
      | last ∷ before ↦ if equal last (codes "..") then e ∷ last ∷ before else before
    ]
    else e ∷ kept

unfoldable pub push_elements : Bool → List Bytes → List Bytes → List Bytes
push_elements rooted [] kept = kept
push_elements rooted (e ∷ es) kept = push_elements rooted es (push_element rooted e kept)

unfoldable pub elements : Bytes → List Bytes
unfolding split_slashes push_elements push_element
elements p = reverse (push_elements (has_prefix p (codes "/")) (split_slashes p) [])

-- `Clean`.
unfoldable pub clean : Bytes → Bytes
unfolding elements
clean p =
    let path = (if has_prefix p (codes "/") then b'/' ∷ [] else []) ++ join_slashes (elements p) in
    if is_empty path then codes "." else path

-- The text behind the last occurrence of a byte, if there is one.
unfoldable pub after_last : ℕ → Bytes → Option Bytes
after_last b [] = none
after_last b (c ∷ s) =
    let here = if c == b then some s else none in
    elim (after_last b s) [ none ↦ here | some t ↦ some t ]

abbrev or_whole : Bytes → Option Bytes → Bytes
or_whole s none = s
or_whole s (some t) = t

-- `Base`.
unfoldable pub base : Bytes → Bytes
unfolding after_last trim_right
base p =
    let trimmed = trim_right (λ c. c == b'/') p in
    if is_empty p
    then codes "."
    else if is_empty trimmed
    then codes "/"
    else or_whole trimmed (after_last b'/' trimmed)

-- `Ext` of a base: what follows its last dot, if it has one; the dot is left out.
unfoldable pub ext : Bytes → Option Bytes
unfolding after_last
ext s = after_last b'.' s
