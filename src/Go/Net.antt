-- ===== src/Go/Net.antt =====
-- `net.IP.String` of four bytes, and of sixteen.
use yomins_agent.Go.Text.{Bytes}
use yomins_agent.Go.Strconv.Decimal.{format}
use yomins_agent.Prelude.{
  ℕ, zero, suc, ◌+◌, ◌*◌, ◌/◌, ◌%◌, ◌-◌, true, false, Option, none, some, List, [], ◌∷◌, ◌++◌, ltb,
  leb, ◌==◌, ◌&&◌, if◌then◌else◌,
}

-- Dotted decimal.
unfoldable pub format_ip4 : ℕ → ℕ → ℕ → ℕ → Bytes
unfolding format
format_ip4 a b c d = format a ++ b'.' ∷ (format b ++ b'.' ∷ (format c ++ b'.' ∷ format d))

lower_digit : ℕ → ℕ
lower_digit d = if ltb d 10 then b'0' + d else b'a' + (d - 10)

-- A group without leading zeros.
format_group : ℕ → Bytes
unfolding lower_digit
format_group n =
    if ltb n 16
    then lower_digit n ∷ []
    else if ltb n 256
    then lower_digit (n / 16) ∷ lower_digit (n % 16) ∷ []
    else if ltb n 4096
    then lower_digit (n / 256) ∷ lower_digit (n / 16 % 16) ∷ lower_digit (n % 16) ∷ []
    else lower_digit (n / 4096)
      ∷ lower_digit (n / 256 % 16)
      ∷ lower_digit (n / 16 % 16)
      ∷ lower_digit (n % 16)
      ∷ []

-- The groups of two bytes.
groups_of : Bytes → List ℕ
groups_of (a ∷ b ∷ rest) = (a * 256 + b) ∷ groups_of rest
groups_of _ = []

-- The zeros that a list starts with.
leading_zeros : List ℕ → ℕ
leading_zeros [] = 0
leading_zeros (g ∷ gs) = let more = leading_zeros gs in if g == 0 then suc more else 0

-- Where the first of the longest runs of at least two zeros starts, counted from `i`, and its
-- length; the best so far is `start` and `size`.
longest_run : List ℕ → ℕ → ℕ → ℕ → ℕ × ℕ
unfolding leading_zeros
longest_run [] i start size = (start, size)
longest_run (g ∷ gs) i start size =
    let run = leading_zeros (g ∷ gs) in
    let better = leb 2 run && ltb size run in
    longest_run gs (i + 1) (if better then i else start) (if better then run else size)

-- The loop over the groups, with the groups of the run still to be left out in `skip`.
join_groups : ℕ → ℕ → ℕ → ℕ → List ℕ → Bytes
unfolding format_group
join_groups start size i skip [] = []
join_groups start size i (suc skip) (g ∷ gs) = join_groups start size (i + 1) skip gs
join_groups start size i zero (g ∷ gs) =
    let at_run = ltb 0 size && i == start in
    let behind_run = ltb 0 size && i == start + size in
    let rest = join_groups start size (i + 1) (if at_run then size - 1 else 0) gs in
    if at_run
    then b':' ∷ b':' ∷ rest
    else (if ltb 0 i && (if behind_run then false else true) then b':' ∷ [] else [])
      ++ (format_group g ++ rest)

-- Ten zero bytes and two of 255 stand before an IPv4 address.
format_mapped : Bytes → Option Bytes
unfolding format_ip4
format_mapped
      (zero ∷ zero ∷ zero ∷ zero ∷ zero ∷ zero ∷ zero ∷ zero ∷ zero ∷ zero ∷ x ∷ y ∷ a ∷ b ∷ c ∷ d
        ∷ []) =
    if x == 255 && y == 255 then some (format_ip4 a b c d) else none
format_mapped _ = none

-- Sixteen bytes.
unfoldable pub format_ip6 : Bytes → Bytes
unfolding format_mapped groups_of longest_run join_groups
format_ip6 bs = elim (format_mapped bs) [
  | some s ↦ s
  | none ↦
      let run = longest_run (groups_of bs) 0 255 0 in join_groups run.0 run.1 0 0 (groups_of bs)
]
