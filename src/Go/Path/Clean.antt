-- ===== src/Go/Path/Clean.antt =====
-- A cleaned path that starts at the root leads up nowhere.
use yomins_agent.Go.Text.{Bytes, codes, equal, is_empty, has_prefix}
use yomins_agent.Go.Path.{
  add_to_first, split_slashes, join_slashes, push_element, push_elements, elements, clean,
}
use yomins_agent.Prelude.{
  ℕ, true, false, ◌||◌, List, [], ◌∷◌, ◌++◌, ◌==◌, if◌then◌else◌, ◌≡◌, refl, ap, Each, inl, inr,
  Bool-cases,
}
use mathlib.Core.List.{reverse, reverse-cons}

abbrev pub NoSlash : Bytes → Type 0
NoSlash e = Each (λ c. (c == b'/') ≡ false) e

abbrev Good : Bytes → Type 0
Good e = (equal e (codes "..") ≡ false) × NoSlash e

push_element-Good :
    (e : Bytes) (kept : List Bytes)
    → NoSlash e
    → Each Good kept
    → Each Good (push_element true e kept)
unfolding push_element
push_element-Good e kept plain h = elim (Bool-cases (is_empty e || equal e (codes "."))) [
  | inl gone ↦ rw gone h
  | inr stays ↦ elim (Bool-cases (equal e (codes ".."))) [
    | inl up ↦ rw (stays, up) (popped kept h)
    | inr down ↦ rw (stays, down) ((down, plain), h)
  ]
]
  where
    popped :
        (kept : List Bytes)
        → Each Good kept
        → Each Good (elim kept [
          | [] ↦ if true then [] else e ∷ []
          | last ∷ before ↦ if equal last (codes "..") then e ∷ last ∷ before else before
        ])
    popped [] h = tt
    popped (last ∷ before) ((h, p), hs) = rw h hs

push_elements-Good :
    (es kept : List Bytes)
    → Each NoSlash es
    → Each Good kept
    → Each Good (push_elements true es kept)
unfolding push_elements
push_elements-Good [] kept p h = h
push_elements-Good (e ∷ es) kept (p, ps) h =
    push_elements-Good es (push_element true e kept) ps (push_element-Good e kept p h)

add_to_first-NoSlash :
    (c : ℕ) (es : List Bytes)
    → (c == b'/') ≡ false
    → Each NoSlash es
    → Each NoSlash (add_to_first c es)
add_to_first-NoSlash c [] h hs = ((h, tt), tt)
add_to_first-NoSlash c (e ∷ es) h (p, ps) = ((h, p), ps)

split_slashes-NoSlash : (s : Bytes) → Each NoSlash (split_slashes s)
unfolding split_slashes
split_slashes-NoSlash [] = (tt, tt)
split_slashes-NoSlash (c ∷ s) = elim (Bool-cases (c == b'/')) [
  | inl slash ↦ rw slash (tt, split_slashes-NoSlash s)
  | inr other ↦ rw other (add_to_first-NoSlash c (split_slashes s) other (split_slashes-NoSlash s))
]

Each-append : (P : Bytes → Type 0) (xs ys : List Bytes) → Each P xs → Each P ys → Each P (xs ++ ys)
Each-append P [] ys h k = k
Each-append P (x ∷ xs) ys (h, hs) k = (h, Each-append P xs ys hs k)

Each-reverse : (P : Bytes → Type 0) (xs : List Bytes) → Each P xs → Each P (reverse xs)
Each-reverse P [] h = tt
Each-reverse P (x ∷ xs) (h, hs) =
    rw (reverse-cons x xs) (Each-append P (reverse xs) (x ∷ []) (Each-reverse P xs hs) (h, tt))

elements-Good : (p : Bytes) → has_prefix p (codes "/") ≡ true → Each Good (elements p)
unfolding elements
elements-Good p h =
    rw h
      (Each-reverse Good _ (push_elements-Good (split_slashes p) [] (split_slashes-NoSlash p) tt))

split_slashes-element :
    (e s : Bytes) → NoSlash e → split_slashes (e ++ b'/' ∷ s) ≡ e ∷ split_slashes s
unfolding split_slashes
split_slashes-element [] s h = refl
split_slashes-element (c ∷ e) s (h, hs) = rw h (ap (add_to_first c) (split_slashes-element e s hs))

split_slashes-last : (e : Bytes) → NoSlash e → split_slashes e ≡ e ∷ []
unfolding split_slashes
split_slashes-last [] h = refl
split_slashes-last (c ∷ e) (h, hs) = rw h (ap (add_to_first c) (split_slashes-last e hs))

-- No element is "..".
abbrev pub NoneUp : List Bytes → Type 0
NoneUp = Each (λ e. equal e (codes "..") ≡ false)

split_slashes-join : (es : List Bytes) → Each Good es → NoneUp (split_slashes (join_slashes es))
unfolding split_slashes equal
split_slashes-join [] h = (refl, tt)
split_slashes-join (e ∷ []) ((u, p), hs) = rw (split_slashes-last e p) (u, tt)
split_slashes-join (e ∷ d ∷ es) ((u, p), hs) =
    rw (split_slashes-element e (join_slashes (d ∷ es)) p) (u, split_slashes-join (d ∷ es) hs)

clean-rooted :
    (p : Bytes) → has_prefix p (codes "/") ≡ true → clean p ≡ b'/' ∷ join_slashes (elements p)
unfolding clean is_empty
clean-rooted p h = rw h refl

-- The cleaned form of a path from the root starts at the root too, and has no element "..".
pub clean-NoneUp :
    (p : Bytes)
    → has_prefix p (codes "/") ≡ true
    → (has_prefix (clean p) (codes "/") ≡ true) × NoneUp (split_slashes (clean p))
unfolding split_slashes has_prefix equal
clean-NoneUp p h =
    rw (clean-rooted p h) (refl, (refl, split_slashes-join (elements p) (elements-Good p h)))
