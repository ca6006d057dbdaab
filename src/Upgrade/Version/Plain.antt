-- ===== src/Upgrade/Version/Plain.antt =====
-- Which texts are versions: numbers and dots, and every tag that a release writes.
use yomins_agent.Go.Text.{Bytes, contains_byte, cut, is_digit, trim_prefix}
use yomins_agent.Go.Strconv.{atoi}
use yomins_agent.Go.Strconv.Decimal.{All, All-append, format, format-All, atoi-format, atoi-All}
use yomins_agent.Prelude.Int.{ℤ, pos, negsuc}
use yomins_agent.Prelude.{
  ℕ, ◌^◌, ◌<◌, ◌≡◌, refl, Option, none, some, [], ◌∷◌, ◌++◌, Bool, false, ◌||◌, ◌==◌, arith, inl,
  inr, Bool-cases, Option-cases, ap, ap₂, sym, ◌∙◌,
}
use yomins_agent.Upgrade.Version.{
  three_parts, two_parts, Version, non_negative, component, version_of, parse_parts, is_marked,
  parse_version,
}

-- Three texts joined by dots.
abbrev pub joined : Bytes → Bytes → Bytes → Bytes
joined p q r = p ++ b'.' ∷ (q ++ b'.' ∷ r)

-- The tag of a release.
unfoldable pub tag : Version → Bytes
unfolding format
tag x = b'v' ∷ joined (format x.major) (format x.minor) (format x.patch)

-- The numbers are those that Go's int holds.
abbrev pub Fits : Version → Type 0
Fits x = (x.major < 2 ^ 63) × (x.minor < 2 ^ 63) × (x.patch < 2 ^ 63)

unfoldable pub is_plain : ℕ → Bool
unfolding is_digit
is_plain c = is_digit c || c == b'.'

digits-plain : (s : Bytes) → All is_digit s → All is_plain s
unfolding is_plain
digits-plain [] h = tt
digits-plain (c ∷ s) (h, hs) = (ground arith, digits-plain s hs)

contains_byte-plain :
    (b : ℕ) (s : Bytes) → is_plain b ≡ false → All is_plain s → contains_byte b s ≡ false
unfolding contains_byte is_plain
contains_byte-plain b [] h k = refl
contains_byte-plain b (c ∷ s) h (k, ks) = ground (arith, contains_byte-plain b s h ks)

cut-digits : (s t : Bytes) → All is_digit s → cut b'.' (s ++ b'.' ∷ t) ≡ some (s, t)
unfolding cut is_digit
cut-digits [] t h = refl
cut-digits (c ∷ s) t (h, hs) = ground (arith, cut-digits s t hs)

component-format : (n : ℕ) → n < 2 ^ 63 → component (format n) ≡ some n
unfolding component non_negative
component-format n h = ap non_negative (atoi-format n h)

joined-plain :
    (p q r : Bytes) → All is_digit p → All is_digit q → All is_digit r → All is_plain (joined p q r)
unfolding is_plain
joined-plain p q r h k l =
    All-append is_plain p (b'.' ∷ (q ++ b'.' ∷ r)) (digits-plain p h)
      (refl, All-append is_plain q (b'.' ∷ r) (digits-plain q k) (refl, digits-plain r l))

parse_parts-joined :
    (p q r : Bytes)
    → All is_digit p
    → All is_digit q
    → parse_parts (joined p q r) ≡ version_of (component p) (component q) (component r)
unfolding parse_parts three_parts two_parts
parse_parts-joined p q r h k =
    ap three_parts (cut-digits p (q ++ b'.' ∷ r) h) ∙ ap (two_parts p) (cut-digits q r k)

is_marked-plain : (s : Bytes) → All is_plain s → is_marked s ≡ false
unfolding is_marked is_plain is_digit
is_marked-plain s h =
    ap₂ ◌||◌ (contains_byte-plain b'-' s refl h) (contains_byte-plain b'+' s refl h)

parse_version-joined :
    (p q r : Bytes)
    → All is_digit p
    → All is_digit q
    → All is_digit r
    → parse_version (b'v' ∷ joined p q r) ≡ version_of (component p) (component q) (component r)
unfolding parse_version trim_prefix
parse_version-joined p q r h k l =
    ground (
      arith,
      is_marked-plain (joined p q r) (joined-plain p q r h k l),
      parse_parts-joined p q r h k,
    )

version_of-some :
    (o p q : Option ℕ) (x : Version)
    → o ≡ some x.major
    → p ≡ some x.minor
    → q ≡ some x.patch
    → version_of o p q ≡ some x
unfolding version_of
version_of-some o p q x h k l = ground (arith, h, k, l)

-- The tag of a release parses to the version that it names.
pub parse_version-tag : (x : Version) → Fits x → parse_version (tag x) ≡ some x
unfolding tag
parse_version-tag x (a, b, c) =
    parse_version-joined (format x.major) (format x.minor) (format x.patch) (format-All x.major)
      (format-All x.minor) (format-All x.patch)
    ∙ version_of-some _ _ _ x (component-format x.major a) (component-format x.minor b)
        (component-format x.patch c)

cut-append : (b : ℕ) (s l r : Bytes) → cut b s ≡ some (l, r) → s ≡ l ++ b ∷ r
unfolding cut
cut-append b [] l r h = absurd (ground arith)
cut-append b (c ∷ s) l r h = elim (Option-cases (cut b s)) [
  | inl none_there ↦ ground (arith, none_there)
  | inr ((before, after), e) ↦ ground (arith, e, cut-append b s before after e)
]

contains_byte-append :
    (b : ℕ) (l r : Bytes) → contains_byte b (l ++ r) ≡ (contains_byte b l || contains_byte b r)
unfolding contains_byte
contains_byte-append b [] r = refl
contains_byte-append b (c ∷ l) r = ground (arith, contains_byte-append b l r)

is_marked-joined :
    (p q r : Bytes) → is_marked (joined p q r) ≡ (is_marked p || (is_marked q || is_marked r))
unfolding is_marked contains_byte
is_marked-joined p q r = ground (
  arith,
  contains_byte-append b'-' p (b'.' ∷ (q ++ b'.' ∷ r)),
  contains_byte-append b'-' q (b'.' ∷ r),
  contains_byte-append b'+' p (b'.' ∷ (q ++ b'.' ∷ r)),
  contains_byte-append b'+' q (b'.' ∷ r),
)

atoi-component : (p : Bytes) (n : ℕ) → component p ≡ some n → atoi p ≡ some (pos n)
unfolding component non_negative
atoi-component p n h = by (atoi p) h
  where
    by : (o : Option ℤ) → non_negative o ≡ some n → o ≡ some (pos n)
    by none h = absurd (ground arith)
    by (some (negsuc m)) h = absurd (ground arith)
    by (some (pos m)) h = ground arith

component-All : (p : Bytes) (n : ℕ) → component p ≡ some n → is_marked p ≡ false → All is_digit p
unfolding is_marked
component-All p n h m = atoi-All p n (atoi-component p n h) (ground arith) (ground arith)

some-version_of :
    (o p q : Option ℕ) (x : Version)
    → version_of o p q ≡ some x
    → (o ≡ some x.major) × (p ≡ some x.minor) × (q ≡ some x.patch)
unfolding version_of
some-version_of (some a) (some b) (some c) x h = ground arith
some-version_of none p q x h = absurd (ground arith)
some-version_of (some a) none q x h = absurd (ground arith)
some-version_of (some a) (some b) none x h = absurd (ground arith)

-- The three runs of digits of an unmarked text.
abbrev pub Runs : Bytes → Type 0
Runs s =
    (p : Bytes) × (q : Bytes) × (r : Bytes) × (s ≡ joined p q r)
    × All is_digit p
    × All is_digit q
    × All is_digit r

three_parts-Runs :
    (s : Bytes) (x : Version) → three_parts (cut b'.' s) ≡ some x → is_marked s ≡ false → Runs s
unfolding three_parts two_parts
three_parts-Runs s x h m = by (cut b'.' s) refl h
  where
    by : (o : Option (Bytes × Bytes)) → cut b'.' s ≡ o → three_parts o ≡ some x → Runs s
    by none e k = absurd (ground arith)
    by (some (p, rest)) e k = second (cut b'.' rest) refl k
      where
        second : (o : Option (Bytes × Bytes)) → cut b'.' rest ≡ o → two_parts p o ≡ some x → Runs s
        second none f k = absurd (ground arith)
        second (some (q, r)) f k =
            let (a, b, c) = some-version_of (component p) (component q) (component r) x k in
            let whole : s ≡ joined p q r =
              cut-append b'.' s p rest e ∙ ap (λ t. p ++ b'.' ∷ t) (cut-append b'.' rest q r f) in
            let unmarked = sym (is_marked-joined p q r) ∙ ap is_marked (sym whole) ∙ m in
            (
              p,
              q,
              r,
              whole,
              component-All p x.major a (ground (arith, unmarked)),
              component-All q x.minor b (ground (arith, unmarked)),
              component-All r x.patch c (ground (arith, unmarked)),
            )

-- A text that parses is, behind the v that it may start with, three runs of digits with dots
-- between them: no sign, no pre-release, no build mark and no fourth part.
pub parse_version-Runs :
    (v : Bytes) (x : Version) → parse_version v ≡ some x → Runs (trim_prefix b'v' v)
unfolding parse_version parse_parts
parse_version-Runs v x h = elim (Bool-cases (is_marked (trim_prefix b'v' v))) [
  | inl marked ↦ absurd (ground (arith, marked))
  | inr unmarked ↦ three_parts-Runs (trim_prefix b'v' v) x (ground (arith, unmarked)) unmarked
]
