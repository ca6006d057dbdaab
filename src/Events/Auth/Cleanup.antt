-- ===== src/Events/Auth/Cleanup.antt =====
-- The cleanup of the tracker changes no alert.
use yomins_agent.Go.Text.{Bytes, is_empty, bytes_eq}
use yomins_agent.Events.Types.{Event}
use yomins_agent.Prelude.Map.{pair_eq, Unique, insert-Unique, filter_map_values-Unique}
use yomins_agent.Prelude.{ℕ, ◌≤◌, ◌≡◌, refl, sym, ap₂, Option, List, [], ◌∷◌, inl, inr, Bool-cases}
use yomins_agent.Events.Auth.{
  Config, Collector, gc_entry, entry_of, check_bruteforce, gc_bruteforce_tracker,
}
use yomins_agent.Events.Auth.Alike.{
  AlikeAll, Alike-refl, Alike-later, Alike-trans, AlikeAll-later, AlikeAll-gc,
  check_bruteforce-AlikeAll,
}

-- What happens to the tracker, each at its time.
pub data Happening : Type 0 where
  fails : Bytes → Bytes → Bytes → ℕ → Happening
  cleans : ℕ → Happening

abbrev happening_time : Happening → ℕ
happening_time (fails id user ip now) = now
happening_time (cleans now) = now

-- The times do not go back from `from` on.
abbrev pub InOrder : ℕ → List Happening → Type 0
InOrder from [] = Unit
InOrder from (x ∷ xs) = (from ≤ happening_time x) × InOrder (happening_time x) xs

-- The events that come of it, with the cleanups done and with them left out.
unfoldable pub alerts_of : Config → List Happening → Collector → List (Option Event)
alerts_of c [] s = []
alerts_of c (fails id user ip now ∷ xs) s =
    let (s', alert) = check_bruteforce c id user ip now s in alert ∷ alerts_of c xs s'
alerts_of c (cleans now ∷ xs) s = alerts_of c xs (gc_bruteforce_tracker c now s)

unfoldable pub alerts_uncleaned : Config → List Happening → Collector → List (Option Event)
alerts_uncleaned c [] s = []
alerts_uncleaned c (fails id user ip now ∷ xs) s =
    let (s', alert) = check_bruteforce c id user ip now s in alert ∷ alerts_uncleaned c xs s'
alerts_uncleaned c (cleans now ∷ xs) s = alerts_uncleaned c xs s

check_bruteforce-Unique :
    (c : Config) (id user ip : Bytes) (now : ℕ) (s : Collector)
    → Unique s.bf_tracker
    → Unique (check_bruteforce c id user ip now s).0.bf_tracker
unfolding check_bruteforce
check_bruteforce-Unique c id user ip now s u = elim (Bool-cases (is_empty ip)) [
  | inl local ↦ rw local u
  | inr remote ↦ rw remote (insert-Unique (ip, user) _ s.bf_tracker u)
]

gc-Unique :
    (c : Config) (now : ℕ) (s : Collector)
    → Unique s.bf_tracker
    → Unique (gc_bruteforce_tracker c now s).bf_tracker
unfolding gc_bruteforce_tracker
gc-Unique c now s u = filter_map_values-Unique (gc_entry c now) s.bf_tracker u

alerts_of-AlikeAll :
    (c : Config) (xs : List Happening) (l : ℕ) (s t : Collector)
    → InOrder l xs
    → Unique s.bf_tracker
    → AlikeAll c l t s
    → alerts_of c xs s ≡ alerts_uncleaned c xs t
unfolding alerts_of alerts_uncleaned
alerts_of-AlikeAll c [] l s t order u a = refl
alerts_of-AlikeAll c (fails id user ip now ∷ xs) l s t (later, order) u a =
    let step =
      check_bruteforce-AlikeAll c id user ip now t s (AlikeAll-later c l now t s later a) in
    ap₂ ◌∷◌ (sym step.1)
      (alerts_of-AlikeAll c xs now _ _ order (check_bruteforce-Unique c id user ip now s u) step.0)
alerts_of-AlikeAll c (cleans now ∷ xs) l s t (later, order) u a =
    alerts_of-AlikeAll c xs now (gc_bruteforce_tracker c now s) t order (gc-Unique c now s u)
      (λ k. Alike-trans c now _ _ _ (Alike-later c l now _ _ later (a k)) (AlikeAll-gc c now s u k))

-- Cleaning the tracker, at whatever times, changes none of the events that the failed logins
-- give, as long as the clock does not go back.
pub cleanup_changes_nothing :
    (c : Config) (xs : List Happening) (s : Collector)
    → InOrder 0 xs
    → Unique s.bf_tracker
    → alerts_of c xs s ≡ alerts_uncleaned c xs s
cleanup_changes_nothing c xs s order u =
    alerts_of-AlikeAll c xs 0 s s order u (λ k. Alike-refl c 0 (entry_of k s))
