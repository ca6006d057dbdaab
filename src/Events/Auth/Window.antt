-- ===== src/Events/Auth/Window.antt =====
-- The sliding window of failed logins of one key.
use yomins_agent.Prelude.{
  ℕ, ◌+◌, ◌≤◌, ◌≡◌, refl, true, ◌&&◌, List, [], ◌∷◌, ◌++◌, arith, ltb, leb, length, if◌then◌else◌,
}
use yomins_agent.Events.Auth.{Config, BruteforceEntry, prune, record_attempt}

-- What a later pruning drops includes what an earlier one dropped.
pub prune-prune : (w m n : ℕ) (ts : List ℕ) → m ≤ n → prune w n (prune w m ts) ≡ prune w n ts
unfolding prune
prune-prune w m n [] h = refl
prune-prune w m n (t ∷ ts) h = ground (arith, prune-prune w m n ts h)

pub prune-append : (w n : ℕ) (xs ys : List ℕ) → prune w n (xs ++ ys) ≡ prune w n xs ++ prune w n ys
unfolding prune
prune-append w n [] ys = refl
prune-append w n (x ∷ xs) ys = ground (arith, prune-append w n xs ys)

-- The attempts of a key one after another, and the times at which the alert went out.
unfoldable pub replay : Config → List ℕ → BruteforceEntry → BruteforceEntry
replay c [] e = e
replay c (t ∷ ts) e = replay c ts (record_attempt c t e).0

unfoldable pub alerts : Config → List ℕ → BruteforceEntry → List ℕ
alerts c [] e = []
alerts c (t ∷ ts) e =
    let more = alerts c ts (record_attempt c t e).0 in
    if (record_attempt c t e).1 then t ∷ more else more

-- The times do not go back: each is at least the one before it, the first at least `from`, and
-- none is past `upto`.
abbrev pub Ascends : ℕ → List ℕ → ℕ → Type 0
Ascends from [] upto = from ≤ upto
Ascends from (t ∷ ts) upto = (from ≤ t) × Ascends t ts upto

pub attempts-record_attempt :
    (c : Config) (now : ℕ) (e : BruteforceEntry)
    → (record_attempt c now e).0.attempts ≡ prune c.window now e.attempts ++ now ∷ []
unfolding record_attempt
attempts-record_attempt c now e = ground arith

pub record_attempt_alert :
    (c : Config) (now : ℕ) (e : BruteforceEntry)
    → (record_attempt c now e).1 ≡ (
        leb c.threshold (length (prune c.window now e.attempts ++ now ∷ []))
        && ltb e.suppressed_until now)
unfolding record_attempt
record_attempt_alert c now e = ground arith

pub suppressed_until_cases :
    (c : Config) (now : ℕ) (e : BruteforceEntry)
    → (record_attempt c now e).0.suppressed_until
      ≡ (if (record_attempt c now e).1 then now + c.suppression else e.suppressed_until)
unfolding record_attempt
suppressed_until_cases c now e = ground arith

suppressed_until-record_attempt :
    (c : Config) (now : ℕ) (e : BruteforceEntry)
    → (record_attempt c now e).1 ≡ true
    → (record_attempt c now e).0.suppressed_until ≡ now + c.suppression
unfolding record_attempt
suppressed_until-record_attempt c now e h = ground arith

-- All of these times are at most `upto`.
abbrev pub Within : ℕ → List ℕ → Type 0
Within upto [] = Unit
Within upto (t ∷ ts) = (t ≤ upto) × Within upto ts

-- The entry stands for the attempts `hs`: no pruning from `l` on tells them apart.
abbrev StandsFor : Config → BruteforceEntry → List ℕ → ℕ → Type 0
StandsFor c e hs l = (n : ℕ) → l ≤ n → prune c.window n e.attempts ≡ prune c.window n hs

-- While `now` is within the suppression of an alert, no attempt raises another.
suppressed_quiet :
    (c : Config) (ts : List ℕ) (e : BruteforceEntry)
    → Within e.suppressed_until ts
    → alerts c ts e ≡ []
unfolding alerts record_attempt
suppressed_quiet c [] e h = refl
suppressed_quiet c (t ∷ ts) e (h, hs) =
    let quiet = suppressed_quiet c ts (record_attempt c t e).0 in ground (arith, quiet)

-- An alert at `t` is the only one until `t` and the suppression time have passed: none of the
-- attempts up to then raises another.
pub alerts_suppressed :
    (c : Config) (t : ℕ) (ts : List ℕ) (e : BruteforceEntry)
    → (record_attempt c t e).1 ≡ true
    → Within (t + c.suppression) ts
    → alerts c (t ∷ ts) e ≡ t ∷ []
unfolding alerts
alerts_suppressed c t ts e raised h =
    let until = suppressed_until-record_attempt c t e raised in
    rw (raised, suppressed_quiet c ts (record_attempt c t e).0 (rw until h)) refl
