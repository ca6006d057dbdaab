-- ===== src/Upgrade/Version/Order.antt =====
-- The order of the released versions.
use yomins_agent.Go.Text.{Bytes}
use yomins_agent.Prelude.{
  ◌≡◌, ◌⊎◌, refl, sym, ap₂, ◌∙◌, ap, Option, none, some, true, false, ◌<◌, ◌↔◌, arith, Bool,
}
use yomins_agent.Upgrade.Version.{compared, Version, parse_version, is_newer, follows}

-- The numbers before the one that decides are equal.
abbrev pub Precedes : Version → Version → Type 0
Precedes a b =
    (a.major < b.major)
    ⊎ ((a.major ≡ b.major) × ((a.minor < b.minor) ⊎ ((a.minor ≡ b.minor) × (a.patch < b.patch))))

some_injective : (a b : Bool) → some a ≡ some b → a ≡ b
some_injective a b h = ground arith

is_newer_parsed :
    (u v : Bytes) (a b : Version)
    → parse_version u ≡ some a
    → parse_version v ≡ some b
    → is_newer u v ≡ some (follows a b)
unfolding is_newer compared
is_newer_parsed u v a b h k = ap₂ compared h k

parsed-compared :
    (o p : Option Version) (r : Bool)
    → compared o p ≡ some r
    → (a : Version) × (b : Version) × (o ≡ some a) × (p ≡ some b) × (follows a b ≡ r)
unfolding compared
parsed-compared (some a) (some b) r h = (a, b, refl, refl, some_injective (follows a b) r h)
parsed-compared none p r h = absurd (ground arith)
parsed-compared (some a) none r h = absurd (ground arith)

parsed-is_newer :
    (u v : Bytes) (r : Bool)
    → is_newer u v ≡ some r
    → (a : Version) × (b : Version) × (parse_version u ≡ some a)
      × (parse_version v ≡ some b)
      × (follows a b ≡ r)
unfolding is_newer
parsed-is_newer u v r h = parsed-compared (parse_version u) (parse_version v) r h

same_parse :
    (u : Bytes) (a b : Version) → parse_version u ≡ some a → parse_version u ≡ some b → a ≡ b
same_parse u a b h k = ground (arith, sym h ∙ k)

follows_trans :
    (a b c : Version)
    → follows a b ≡ true
    → follows b c ≡ true
    → (follows a c ≡ true) × (follows c a ≡ false)
unfolding follows
follows_trans a b c h k = ground arith

-- A text that is newer than a newer one is newer, and the first is not newer than it, so that no
-- chain of upgrades comes back to where it started.
pub is_newer_trans :
    (u v w : Bytes)
    → is_newer u v ≡ some true
    → is_newer v w ≡ some true
    → (is_newer u w ≡ some true) × (is_newer w u ≡ some false)
is_newer_trans u v w h k =
    let (a, b, ua, vb, ab) = parsed-is_newer u v true h in
    let (b', c, vb', wc, bc) = parsed-is_newer v w true k in
    let same = same_parse v b' b vb' vb in
    let (ac, ca) = follows_trans a b c ab (ap (λ x. follows x c) (sym same) ∙ bc) in
    (is_newer_parsed u w a c ua wc ∙ ap some ac, is_newer_parsed w u c a wc ua ∙ ap some ca)

follows_total :
    (a b : Version)
    → ((follows a b ≡ true) ↔ Precedes a b)
      × ((follows b a ≡ true) ↔ Precedes b a)
      × (((follows a b ≡ false) × (follows b a ≡ false)) ↔ (a ≡ b))
unfolding follows
follows_total a b = ground arith

-- Of two texts that parse, the candidate is newer exactly when its first differing number is the
-- larger one, and neither is newer than the other exactly when the numbers are the same.
pub is_newer_total :
    (u v : Bytes) (a b : Version)
    → parse_version u ≡ some a
    → parse_version v ≡ some b
    → ((is_newer u v ≡ some true) ↔ Precedes a b)
      × (((is_newer u v ≡ some false) × (is_newer v u ≡ some false)) ↔ (a ≡ b))
is_newer_total u v a b h k =
    let total = follows_total a b in
    ground (arith, is_newer_parsed u v a b h k, is_newer_parsed v u b a k h, total)
