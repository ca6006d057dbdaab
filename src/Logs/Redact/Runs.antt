-- ===== src/Logs/Redact/Runs.antt =====
-- Which texts `hasDigitRun` finds.
use yomins_agent.Go.Text.{Bytes, is_digit}
use yomins_agent.Prelude.{
  ℕ, ◌+◌, ◌≤◌, ◌<◌, ◌≡◌, refl, ap, ◌∙◌, Bool, true, false, not, ◌&&◌, ◌||◌, List, [], ◌∷◌, ◌++◌,
  ◌==◌, ltb, leb, length, if◌then◌else◌, arith, Bool-cases, inl, inr, append_assoc,
}
use yomins_agent.Logs.Redact.{scan_digits, has_digit_run}

-- A digit behind no mark, a space or a dash.
pub data Gap : Type 0 where
  nothing space dash : Gap

abbrev gap_bytes : Gap → Bytes
gap_bytes nothing = []
gap_bytes space = b' ' ∷ []
gap_bytes dash = b'-' ∷ []

-- The text of digits with their gaps.
abbrev pub groups : List (Gap × ℕ) → Bytes
groups [] = []
groups ((g, d) ∷ more) = gap_bytes g ++ d ∷ groups more

abbrev pub AllDigits : List (Gap × ℕ) → Type 0
AllDigits [] = Unit
AllDigits ((g, d) ∷ more) = (is_digit d ≡ true) × AllDigits more

scan_digits-digit :
    (n run : ℕ) (sep : Bool) (d : ℕ) (s : Bytes)
    → is_digit d ≡ true
    → (run + 1 < n → scan_digits n (run + 1) false s ≡ true)
    → scan_digits n run sep (d ∷ s) ≡ true
unfolding scan_digits
scan_digits-digit n run sep d s h later = elim (Bool-cases (leb n (run + 1))) [
  | inl full ↦ rw (h, full) refl
  | inr more ↦ rw (h, more) (later (ground (arith, more)))
]

scan_digits-gap :
    (n run : ℕ) (g : Gap) (s : Bytes)
    → 0 < run
    → (sep : Bool) × (scan_digits n run false (gap_bytes g ++ s) ≡ scan_digits n run sep s)
unfolding scan_digits is_digit
scan_digits-gap n run nothing s p = (false, refl)
scan_digits-gap n run space s p = (true, ground arith)
scan_digits-gap n run dash s p = (true, ground arith)

scan_digits-groups :
    (n run : ℕ) (gs : List (Gap × ℕ)) (rest : Bytes)
    → AllDigits gs
    → 0 < run
    → run < n
    → n ≤ run + length gs
    → scan_digits n run false (groups gs ++ rest) ≡ true
scan_digits-groups n run [] rest h p few enough = absurd (omega arith)
scan_digits-groups n run ((g, d) ∷ gs) rest (h, hs) p few enough =
    let (sep, passed) = scan_digits-gap n run g (d ∷ (groups gs ++ rest)) p in
    ap (scan_digits n run false) (append_assoc (gap_bytes g) (d ∷ groups gs) rest)
    ∙ passed
    ∙ scan_digits-digit n run sep d (groups gs ++ rest) h
        (λ k. scan_digits-groups n (run + 1) gs rest hs (omega arith) k (omega arith))

if_true : (b : Bool) {x y : Bool} → x ≡ true → y ≡ true → (if b then x else y) ≡ true
if_true true h k = h
if_true false h k = k

scan_digits-append :
    (n run : ℕ) (sep : Bool) (before s : Bytes)
    → ((run : ℕ) (sep : Bool) → scan_digits n run sep s ≡ true)
    → scan_digits n run sep (before ++ s) ≡ true
unfolding scan_digits
scan_digits-append n run sep [] s h = h run sep
scan_digits-append n run sep (c ∷ before) s h =
    if_true (is_digit c)
      (if_true (leb n (run + 1)) refl (scan_digits-append n (run + 1) false before s h))
      (if_true ((c == b' ' || c == b'-') && (ltb 0 run && not sep))
        (scan_digits-append n run true before s h) (scan_digits-append n 0 false before s h))

-- A line with `n` digits in it, each behind the one before or one space or dash away from it,
-- always passes the test, so that no card number is missed for it.
pub has_digit_run_finds :
    (n : ℕ) (before rest : Bytes) (d : ℕ) (gs : List (Gap × ℕ))
    → is_digit d ≡ true
    → AllDigits gs
    → n ≤ 1 + length gs
    → has_digit_run (before ++ d ∷ (groups gs ++ rest)) n ≡ true
unfolding has_digit_run
has_digit_run_finds n before rest d gs h hs enough =
    scan_digits-append n 0 false before (d ∷ (groups gs ++ rest)) (λ run sep.
      scan_digits-digit n run sep d (groups gs ++ rest) h
        (λ k. scan_digits-groups n (run + 1) gs rest hs (omega arith) k (omega arith)))
