-- ===== src/Logs/Allow/Inside.antt =====
-- A list of whole directories lets nothing outside of them be read.
use yomins_agent.Go.Text.{Bytes, codes, equal, equal_iff, has_prefix}
use yomins_agent.Go.Path.{split_slashes, clean}
use yomins_agent.Go.Path.Clean.{NoneUp, clean-NoneUp}
use yomins_agent.Go.Utf8.{runes, encode_latin, concat, concat-runes}
use yomins_agent.Logs.Allow.{Part, part_of, parts, matches, matches_some, allowed}
use yomins_agent.Prelude.{
  ℕ, Bool, true, false, ◌&&◌, ◌||◌, List, [], ◌∷◌, ◌++◌, ◌==◌, ltb, map, ◌≡◌, refl, ap, sym, ◌∙◌,
  arith, Each, inl, inr, ◌⊎◌, Bool-cases,
}

-- A byte that stands for itself in a glob.
abbrev pub PlainByte : ℕ → Type 0
PlainByte c = (ltb c 128 ≡ true) × ((c == b'*') ≡ false) × ((c == b'?') ≡ false)

-- The glob of all below a directory, which ends in a slash.
abbrev pub tree : Bytes → Bytes
tree d = d ++ codes "**"

abbrev pub BelowSome : List Bytes → Bytes → Type 0
BelowSome [] p = ⊥
BelowSome (d ∷ ds) p = ((rest : Bytes) × (p ≡ d ++ rest)) ⊎ BelowSome ds p

part_of-plain : (c : ℕ) → PlainByte c → part_of c ≡ Part.literal (c ∷ [])
unfolding encode_latin
part_of-plain c (a, s, q) = rw (s, q, a) refl

parts-plain : (c : ℕ) (g : Bytes) → PlainByte c → parts (c ∷ g) ≡ Part.literal (c ∷ []) ∷ parts g
unfolding parts encode_latin
parts-plain c [] h = ap (λ p. p ∷ []) (part_of-plain c h)
parts-plain c (d ∷ g) (a, s, q) = rw (s, q, a) refl

literals : Bytes → List Part → List Part
literals [] ps = ps
literals (c ∷ d) ps = Part.literal (c ∷ []) ∷ literals d ps

parts-literals : (d g : Bytes) → Each PlainByte d → parts (d ++ g) ≡ literals d (parts g)
unfolding literals
parts-literals [] g h = refl
parts-literals (c ∷ d) g (h, hs) =
    parts-plain c (d ++ g) h ∙ ap (λ ps. Part.literal (c ∷ []) ∷ ps) (parts-literals d g hs)

matches-literals :
    (d : Bytes) (ps : List Part) (rs : List Bytes)
    → matches (literals d ps) rs ≡ true
    → (rest : List Bytes) × (concat rs ≡ d ++ concat rest)
unfolding literals matches
matches-literals [] ps rs h = (rs, refl)
matches-literals (c ∷ d) ps [] h = ground arith
matches-literals (c ∷ d) ps (r ∷ rs) h =
    let (same, more) = both (equal r (c ∷ [])) (matches (literals d ps) rs) h in
    let (rest, e) = matches-literals d ps rs more in
    (rest, ap (λ s. s ++ concat rs) ((equal_iff r (c ∷ [])).0 same) ∙ ap (λ s. c ∷ s) e)
  where
    both : (a b : Bool) → (a && b) ≡ true → (a ≡ true) × (b ≡ true)
    both a b h = ground arith

below :
    (ds : List Bytes) (p : Bytes)
    → Each (λ d. Each PlainByte d) ds
    → matches_some p (map tree ds) ≡ true
    → BelowSome ds p
unfolding matches_some
below [] p h m = ground arith
below (d ∷ ds) p (h, hs) m = elim (Bool-cases (matches (parts (tree d)) (runes p))) [
  | inl e ↦
      let (rest, same) =
        matches-literals d (parts (codes "**")) (runes p)
          (ap (λ ps. matches ps (runes p)) (sym (parts-literals d (codes "**") h)) ∙ e) in
      inl (concat rest, sym (concat-runes p) ∙ same)
  | inr e ↦ inr (below ds p hs (sym (ap (λ b. b || matches_some p (map tree ds)) e) ∙ m))
]

-- When the globs are those of all below some directories, whose names hold no star and no question
-- mark and are ASCII, a path from the root that is allowed leads below one of them: its cleaned
-- form begins with the directory and has no element "..".
pub allowed-below :
    (ds : List Bytes) (p : Bytes)
    → Each (λ d. Each PlainByte d) ds
    → has_prefix p (codes "/") ≡ true
    → allowed p (map tree ds) ≡ true
    → BelowSome ds (clean p) × NoneUp (split_slashes (clean p))
unfolding allowed
allowed-below ds p h root m = (below ds (clean p) h m, (clean-NoneUp p root).1)
