-- ===== src/Events/Auth/Alike.antt =====
-- When two trackers give the same alerts from a time on.
use yomins_agent.Go.Text.{Bytes, is_empty, bytes_eq}
use yomins_agent.Prelude.Map.{
  pair_eq, lookup, insert, lookup-insert, lookup-filter_map_values, Unique,
}
use yomins_agent.Prelude.{
  ℕ, ◌+◌, ◌≤◌, ◌<◌, ◌≡◌, refl, sym, ap, ap₂, ◌∙◌, ◌&&◌, Option, none, some, List, [], ◌∷◌, ◌++◌,
  arith, ltb, leb, length, if◌then◌else◌, ◌⊎◌, inl, inr, Bool-cases,
}
use yomins_agent.Events.Auth.{
  Config, Collector, BruteforceKey, BruteforceEntry, new_entry, prune, record_attempt, gc_entry,
  entry_of, or_new, check_bruteforce, gc_bruteforce_tracker, bruteforce_event,
}
use yomins_agent.Events.Auth.Window.{
  prune-prune, attempts-record_attempt, record_attempt_alert, suppressed_until_cases,
}

-- From the time `g` on nothing tells the two entries apart.
pub record Alike (c : Config) (g : ℕ) (e d : BruteforceEntry) : Type 0 where
  pub same_window : (n : ℕ) → g ≤ n → prune c.window n e.attempts ≡ prune c.window n d.attempts
  pub same_suppression :
      (e.suppressed_until ≡ d.suppressed_until)
      ⊎ (e.suppressed_until < g) × (d.suppressed_until < g)

pub Alike-later :
    (c : Config) (g h : ℕ) (e d : BruteforceEntry) → g ≤ h → Alike c g e d → Alike c h e d
Alike-later c g h e d le a = record {
  same_window = λ n k. a.same_window n (omega arith);
  same_suppression = elim a.same_suppression [
    | inl s ↦ inl s
    | inr (p, q) ↦ inr (omega arith, omega arith)
  ];
}

Alike-alert :
    (c : Config) (now : ℕ) (e d : BruteforceEntry)
    → Alike c now e d
    → (record_attempt c now e).1 ≡ (record_attempt c now d).1
Alike-alert c now e d a =
    record_attempt_alert c now e
    ∙ ap₂ (λ xs b. leb c.threshold (length (xs ++ now ∷ [])) && b) (a.same_window now (omega arith))
        (same_test a.same_suppression)
    ∙ sym (record_attempt_alert c now d)
  where
    same_test :
        (e.suppressed_until ≡ d.suppressed_until)
          ⊎ (e.suppressed_until < now) × (d.suppressed_until < now)
        → ltb e.suppressed_until now ≡ ltb d.suppressed_until now
    same_test (inl s) = ap (λ u. ltb u now) s
    same_test (inr (p, q)) = ground arith

Alike-record_attempt :
    (c : Config) (now : ℕ) (e d : BruteforceEntry)
    → Alike c now e d
    → Alike c now (record_attempt c now e).0 (record_attempt c now d).0
Alike-record_attempt c now e d a = record {
  same_window = λ n k. ap (prune c.window n) (
      attempts-record_attempt c now e
      ∙ ap (λ xs. xs ++ now ∷ []) (a.same_window now (omega arith))
      ∙ sym (attempts-record_attempt c now d));
  same_suppression = keep_suppression (Alike-alert c now e d a) a.same_suppression;
}
  where
    keep_suppression :
        (record_attempt c now e).1 ≡ (record_attempt c now d).1
        → (e.suppressed_until ≡ d.suppressed_until)
          ⊎ (e.suppressed_until < now) × (d.suppressed_until < now)
        → ((record_attempt c now e).0.suppressed_until
            ≡ (record_attempt c now d).0.suppressed_until)
          ⊎ ((record_attempt c now e).0.suppressed_until < now)
            × ((record_attempt c now d).0.suppressed_until < now)
    keep_suppression same (inl s) = inl (
        suppressed_until_cases c now e
        ∙ ap₂ (λ b u. if b then now + c.suppression else u) same s
        ∙ sym (suppressed_until_cases c now d))
    keep_suppression same (inr (p, q)) =
        ground (arith, suppressed_until_cases c now e, suppressed_until_cases c now d)

-- What the cleanup leaves of an entry; one that it deletes reads as a new one.
abbrev cleaned : Config → ℕ → BruteforceEntry → BruteforceEntry
cleaned c g e = or_new (gc_entry c g e)

prune-nil : (w n : ℕ) → prune w n [] ≡ []
unfolding prune
prune-nil w n = refl

prune_nil-later : (w g n : ℕ) (ts : List ℕ) → prune w g ts ≡ [] → g ≤ n → prune w n ts ≡ []
unfolding prune
prune_nil-later w g n ts e h = sym (prune-prune w g n ts h) ∙ ap (prune w n) e

gc_entry-nil :
    (c : Config) (g : ℕ) (e : BruteforceEntry)
    → prune c.window g e.attempts ≡ []
    → gc_entry c g e
      ≡ (if ltb e.suppressed_until g then none else some (record e { attempts = [] }))
unfolding gc_entry
gc_entry-nil c g e p = rw (p, gc_entry)

gc_entry-cons :
    (c : Config) (g : ℕ) (e : BruteforceEntry) {t : ℕ} {ts : List ℕ}
    → prune c.window g e.attempts ≡ t ∷ ts
    → gc_entry c g e ≡ some (record e { attempts = t ∷ ts })
unfolding gc_entry
gc_entry-cons c g e p = rw (p, gc_entry)

Alike-cleaned : (c : Config) (g : ℕ) (e : BruteforceEntry) → Alike c g e (cleaned c g e)
Alike-cleaned c g e = go (prune c.window g e.attempts) refl
  where
    all_gone :
        prune c.window g e.attempts ≡ []
        → (n : ℕ) → g ≤ n
        → prune c.window n e.attempts ≡ prune c.window n []
    all_gone p n k = prune_nil-later c.window g n e.attempts p k ∙ sym (prune-nil c.window n)

    go : (ts : List ℕ) → prune c.window g e.attempts ≡ ts → Alike c g e (cleaned c g e)
    go [] p = elim (Bool-cases (ltb e.suppressed_until g)) [
      | inl dead ↦
          rw (gc_entry-nil c g e p, dead)
            (record {
              same_window = all_gone p;
              same_suppression = inr (ground arith, ground arith);
            })
      | inr alive ↦
          rw (gc_entry-nil c g e p, alive)
            (record { same_window = all_gone p; same_suppression = inl refl })
    ]
    go (t ∷ ts) p = rw (gc_entry-cons c g e p) (record {
      same_window = λ n k. sym (prune-prune c.window g n e.attempts k) ∙ ap (prune c.window n) p;
      same_suppression = inl refl;
    })

-- Two collectors that no check from `g` on tells apart.
abbrev pub AlikeAll : Config → ℕ → Collector → Collector → Type 0
AlikeAll c g s t = (k : BruteforceKey) → Alike c g (entry_of k s) (entry_of k t)

pub AlikeAll-later :
    (c : Config) (g h : ℕ) (s t : Collector) → g ≤ h → AlikeAll c g s t → AlikeAll c h s t
AlikeAll-later c g h s t le a k = Alike-later c g h _ _ le (a k)

pub Alike-refl : (c : Config) (g : ℕ) (e : BruteforceEntry) → Alike c g e e
Alike-refl c g e = record { same_window = λ n k. refl; same_suppression = inl refl }

pub Alike-trans :
    (c : Config) (g : ℕ) (e d f : BruteforceEntry) → Alike c g e d → Alike c g d f → Alike c g e f
Alike-trans c g e d f a b = record {
  same_window = λ n k. a.same_window n k ∙ b.same_window n k;
  same_suppression = ground (arith, a.same_suppression, b.same_suppression);
}

-- A cleanup at `g` leaves a tracker that no later check tells from the one before it.
pub AlikeAll-gc :
    (c : Config) (g : ℕ) (s : Collector)
    → Unique s.bf_tracker
    → AlikeAll c g s (gc_bruteforce_tracker c g s)
unfolding gc_bruteforce_tracker entry_of
AlikeAll-gc c g s u k =
    rw (lookup-filter_map_values (gc_entry c g) k s.bf_tracker u) (go (lookup k s.bf_tracker))
  where
    go :
        (o : Option BruteforceEntry)
        → Alike c g (or_new o) (or_new (elim o [ none ↦ none | some v ↦ gc_entry c g v ]))
    go none = Alike-refl c g new_entry
    go (some v) = Alike-cleaned c g v

Alike-insert :
    (c : Config) (g : ℕ) (key : BruteforceKey) (d e : BruteforceEntry) (s t : Collector)
    → Alike c g d e
    → AlikeAll c g s t
    → (k : BruteforceKey)
    → Alike c g
        (or_new (lookup k (insert key d s.bf_tracker)))
        (or_new (lookup k (insert key e t.bf_tracker)))
unfolding entry_of
Alike-insert c g key d e s t same a k =
    rw (lookup-insert key k d s.bf_tracker, lookup-insert key k e t.bf_tracker)
      (elim (Bool-cases (pair_eq.beq key k)) [
        | inl here ↦ rw here same
        | inr there ↦ rw there (a k)
      ])

-- A check keeps two such trackers alike and gives the same event.
pub check_bruteforce-AlikeAll :
    (c : Config) (id user ip : Bytes) (now : ℕ) (s t : Collector)
    → AlikeAll c now s t
    → AlikeAll c now (check_bruteforce c id user ip now s).0 (check_bruteforce c id user ip now t).0
      × ((check_bruteforce c id user ip now s).1 ≡ (check_bruteforce c id user ip now t).1)
unfolding check_bruteforce
check_bruteforce-AlikeAll c id user ip now s t a = elim (Bool-cases (is_empty ip)) [
  | inl local ↦ rw local (a, refl)
  | inr remote ↦ rw remote (
    Alike-insert c now (ip, user) _ _ s t (Alike-record_attempt c now _ _ (a (ip, user))) a,
    ap (λ b. if b then some (bruteforce_event c id user ip now) else none)
        (Alike-alert c now _ _ (a (ip, user))),
  )
]
