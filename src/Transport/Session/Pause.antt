-- ===== src/Transport/Session/Pause.antt =====
-- How long the pushes stop: the back-off of `reject`.
use native.Mathlib.Nat.{pow-suc}
use yomins_agent.Prelude.Int.{ℤ, pos, negsuc, wrap_int64}
use yomins_agent.Prelude.{
  ℕ, zero, suc, ◌+◌, ◌*◌, ◌^◌, ◌≤◌, ◌<◌, ◌≡◌, ◌∙◌, ap, List, [], ◌∷◌, arith, min, max, length,
}
use yomins_agent.Transport.Session.{
  Session, RejectedError, new_session, min_pause, max_pause, next_pause, at_least_min_pause, reject,
}

-- The server named no time: no Retry-After, one that is not positive, or one that wrapped.
abbrev pub NamesNoTime : ℤ → Type 0
NamesNoTime (pos zero) = Unit
NamesNoTime (pos (suc n)) = ⊥
NamesNoTime (negsuc n) = Unit

-- Rejections in a row, each with the time at which it came.
unfoldable pub reject_all : List (ℕ × RejectedError) → Session → Session
reject_all [] s = s
reject_all ((now, e) ∷ rs) s = reject_all rs (reject now e s)

abbrev pub NameNoTime : List (ℕ × RejectedError) → Type 0
NameNoTime [] = Unit
NameNoTime ((now, e) ∷ rs) = NamesNoTime e.retry_after × NameNoTime rs

next_pause-doubles :
    (last : ℕ) (d : ℤ)
    → NamesNoTime d
    → last < 2 ^ 62
    → next_pause last d ≡ min (max (last * 2) min_pause) max_pause
unfolding next_pause at_least_min_pause wrap_int64
next_pause-doubles last (pos zero) h small = ground arith
next_pause-doubles last (pos (suc n)) h small = absurd h
next_pause-doubles last (negsuc n) h small = ground arith

-- Whatever the last pause was, one that the server does not name lies between the two bounds.
pub next_pause_bounds :
    (last : ℕ) (d : ℤ)
    → NamesNoTime d
    → (min_pause ≤ next_pause last d) × (next_pause last d ≤ max_pause)
unfolding next_pause at_least_min_pause wrap_int64
next_pause_bounds last (pos zero) h = ground arith
next_pause_bounds last (pos (suc n)) h = absurd h
next_pause_bounds last (negsuc n) h = ground arith

pow_pos : (n : ℕ) → 1 ≤ 2 ^ n
pow_pos zero = omega arith
pow_pos (suc n) = rw pow-suc (omega (arith, pow_pos n))

reject_all-from :
    (rs : List (ℕ × RejectedError)) (s : Session) (k : ℕ)
    → NameNoTime rs
    → s.pause ≡ min (2 ^ k * min_pause) max_pause
    → (reject_all rs s).pause ≡ min (2 ^ (k + length rs) * min_pause) max_pause
unfolding reject_all reject
reject_all-from [] s k h e = e ∙ ap (λ j. min (2 ^ j * min_pause) max_pause) (omega arith)
reject_all-from ((now, r) ∷ rs) s k (h, hs) e =
    reject_all-from rs (reject now r s) (suc k) hs (
      next_pause-doubles s.pause r.retry_after h (omega arith)
      ∙ rw pow-suc (omega (arith, pow_pos k)))
    ∙ ap (λ j. min (2 ^ j * min_pause) max_pause) (omega arith)

-- From a fresh session, rejections in a row that name no time pause the pushes for one minute,
-- then two, four and so on, and never for more than thirty minutes.
pub reject_all_backoff :
    (now : ℕ) (r : RejectedError) (rs : List (ℕ × RejectedError))
    → NameNoTime ((now, r) ∷ rs)
    → (reject_all ((now, r) ∷ rs) new_session).pause ≡ min (2 ^ length rs * min_pause) max_pause
unfolding reject_all reject
reject_all_backoff now r rs (h, hs) =
    reject_all-from rs (reject now r new_session) 0 hs
      (next_pause-doubles 0 r.retry_after h (omega arith))
    ∙ ap (λ j. min (2 ^ j * min_pause) max_pause) (omega arith)
