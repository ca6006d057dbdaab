-- ===== src/Remote/Fetch/Settles.antt =====
-- What a restart for a new configuration leads to.
use yomins_agent.Go.Text.{Bytes, equal, equal_iff, is_empty}
use yomins_agent.Remote.{Stored, is_valid, mode_off}
use yomins_agent.Remote.Fetch.{
  Fetcher, Poll, Json, with_version, load, same_effect, fetched, save, adopt, check, after_check,
  run, run_in_mode, applied_at_start, fetcher_of, boot,
}
use yomins_agent.Prelude.Int.{ℤ}
use mathlib.Core.Path.{subst}
use yomins_agent.Prelude.{
  ℕ, ◌+◌, ◌≤◌, Bool, true, false, Option, none, some, List, [], ◌∷◌, ◌==◌, take, ◌≡◌, refl, ap, sym,
  ◌∙◌, arith, inl, inr, Bool-cases, Each,
}

-- `omitempty` writes an empty list like a nil one.
abbrev or_nil : Option (List Bytes) → Option (List Bytes)
or_nil none = none
or_nil (some []) = none
or_nil (some (n ∷ ns)) = some (n ∷ ns)

abbrev pub omitted : Stored → Stored
omitted s = record s {
  config = record s.config { disabled_collectors = or_nil s.config.disabled_collectors };
}

-- What encoding/json documents: a value that it has read is read back, less what is omitted.
abbrev pub ReadsBack : Json → Type 0
ReadsBack json =
    (text b : Bytes) (s : Stored)
    → json.first text ≡ some s
    → json.marshal s ≡ some b
    → json.unmarshal b ≡ some (omitted s)

module _ (json : Json) (reads_back : ReadsBack json) (parse_duration : Bytes → Option ℤ)
    (compiles : Bytes → Bool) where
  -- A new configuration is valid, has a version, and is what the file holds.
  abbrev Adopted : Fetcher → Option Stored → Type 0
  Adopted f none = Unit
  Adopted f (some s) =
      (load json f.saved ≡ some (omitted s)) × (is_valid parse_duration compiles s.config ≡ true)

  -- An answer that was read.
  abbrev Fetched : Option Stored → Type 0
  Fetched none = Unit
  Fetched (some s) = (is_empty s.version ≡ false) × ((text : Bytes) × (json.first text ≡ some s))

  with_version-Fetched :
      (text : Bytes) (o : Option Stored) → json.first text ≡ o → Fetched (with_version o)
  unfolding with_version
  with_version-Fetched text none e = tt
  with_version-Fetched text (some s) e = elim (Bool-cases (is_empty s.version)) [
    | inl b ↦ rw b tt
    | inr b ↦ rw b (b, (text, e))
  ]

  fetched-Fetched :
      (paused : Bool) (answer : Option (ℕ × Bytes)) → Fetched (fetched json paused answer)
  unfolding fetched
  fetched-Fetched paused none = tt
  fetched-Fetched true (some (status, body)) = tt
  fetched-Fetched false (some (status, body)) = elim (Bool-cases (status == 200)) [
    | inl ok ↦ rw ok (with_version-Fetched (take 1_048_576 body) _ refl)
    | inr bad ↦ rw bad tt
  ]

  load-omitted :
      (s : Stored) (b : Bytes)
      → is_empty s.version ≡ false
      → json.unmarshal b ≡ some (omitted s)
      → load json (some b) ≡ some (omitted s)
  unfolding load with_version
  load-omitted s b h e = rw (e, h) refl

  save-Adopted :
      (writes : Bool) (f : Fetcher) (s : Stored) (o : Option Bytes)
      → Fetched (some s)
      → json.marshal s ≡ o
      → is_valid parse_duration compiles s.config ≡ true
      → Adopted (save json writes f s o).0 (save json writes f s o).1
  unfolding save
  save-Adopted writes f s none h e v = tt
  save-Adopted false f s (some b) h e v = tt
  save-Adopted true f s (some b) (full, (text, e')) e v =
      (load-omitted s b full (reads_back text b s e' e), v)

  adopt-Adopted :
      (writes : Bool) (f : Fetcher) (o : Option Stored)
      → Fetched o
      → Adopted
          (adopt json parse_duration compiles writes f o).0
          (adopt json parse_duration compiles writes f o).1
  unfolding adopt
  adopt-Adopted writes f none h = tt
  adopt-Adopted writes f (some s) h = elim (Bool-cases (equal s.version f.current)) [
    | inl old ↦ rw old tt
    | inr new ↦ elim (Bool-cases (is_valid parse_duration compiles s.config)) [
      | inl v ↦ rw (new, v) (save-Adopted writes f s (json.marshal s) h refl v)
      | inr v ↦ rw (new, v) tt
    ]
  ]

  check-Adopted :
      (p : Poll) (f : Fetcher)
      → Adopted
          (check json parse_duration compiles p f).0
          (check json parse_duration compiles p f).1
  unfolding check
  check-Adopted p f = adopt-Adopted p.writes f _ (fetched-Fetched p.paused p.answer)

  module _ (started min_uptime : ℕ) where
    -- A restart comes no sooner than allowed, for the valid configuration that the file holds.
    abbrev Restarts : Fetcher → Option (Bytes × ℕ) → Type 0
    Restarts f none = Unit
    Restarts f (some (v, t)) =
        (s : Stored) × (s.version ≡ v)
        × (load json f.saved ≡ some (omitted s))
        × (is_valid parse_duration compiles s.config ≡ true)
        × (started + min_uptime ≤ t)

    after_check-Restarts :
        (now : ℕ) (go : Fetcher → Fetcher × Option (Bytes × ℕ)) (r : Fetcher × Option Stored)
        → ((f : Fetcher) → Restarts (go f).0 (go f).1)
        → Adopted r.0 r.1
        → Restarts
            (after_check json parse_duration compiles started min_uptime now go r).0
            (after_check json parse_duration compiles started min_uptime now go r).1
    unfolding after_check
    after_check-Restarts now go (f, none) h a = h f
    after_check-Restarts now go (f, some s) h (l, v) =
        elim (Bool-cases (same_effect json s.config f.applied)) [
          | inl same ↦ rw same (h (record f { current = s.version; info = s.version }))
          | inr differs ↦ rw differs (s, refl, l, v, omega arith)
        ]

    run-Restarts :
        (ps : List Poll) (f : Fetcher)
        → Restarts
            (run json parse_duration compiles started min_uptime ps f).0
            (run json parse_duration compiles started min_uptime ps f).1
    unfolding run
    run-Restarts [] f = tt
    run-Restarts (p ∷ ps) f =
        after_check-Restarts p.now (run json parse_duration compiles started min_uptime ps)
          (check json parse_duration compiles p f) (run-Restarts ps) (check-Adopted p f)

    is_valid-omitted :
        (s : Stored)
        → is_valid parse_duration compiles s.config ≡ true
        → is_valid parse_duration compiles (omitted s).config ≡ true
    unfolding is_valid
    is_valid-omitted s v = v

    -- The version of an answer, where it is read.
    abbrev SameVersion : Bytes → Option Stored → Type 0
    SameVersion v none = Unit
    SameVersion v (some s) = s.version ≡ v

    abbrev pub AllNamed : Bytes → List Poll → Type 0
    AllNamed v = Each (λ p. SameVersion v (fetched json p.paused p.answer))

    adopt-known :
        (writes : Bool) (f : Fetcher) (o : Option Stored)
        → SameVersion f.current o
        → adopt json parse_duration compiles writes f o ≡ (f, none)
    unfolding adopt
    adopt-known writes f none h = refl
    adopt-known writes f (some s) h = rw ((equal_iff s.version f.current).1 h) refl

    run-known :
        (ps : List Poll) (f : Fetcher)
        → AllNamed f.current ps
        → run json parse_duration compiles started min_uptime ps f ≡ (f, none)
    unfolding run after_check check
    run-known [] f h = refl
    run-known (p ∷ ps) f (h, hs) =
        ap
          (after_check json parse_duration compiles started min_uptime p.now
            (run json parse_duration compiles started min_uptime ps))
          (adopt-known p.writes f _ h)
        ∙ run-known ps f hs

    applied_at_start-omitted :
        (mode : Bytes) (s : Stored)
        → equal mode mode_off ≡ false
        → is_valid parse_duration compiles s.config ≡ true
        → applied_at_start json parse_duration compiles mode (some (omitted s)) ≡ some (omitted s)
    unfolding applied_at_start
    applied_at_start-omitted mode s on v = rw (on, is_valid-omitted s v) refl

    boot-current :
        (mode : Bytes) (disk : Option Bytes) (s : Stored)
        → equal mode mode_off ≡ false
        → load json disk ≡ some (omitted s)
        → is_valid parse_duration compiles s.config ≡ true
        → (boot json parse_duration compiles mode disk).current ≡ s.version
    unfolding boot
    boot-current mode disk s on e v =
        ap (λ o. (fetcher_of disk (applied_at_start json parse_duration compiles mode o)).current) e
        ∙ ap (λ o. (fetcher_of disk o).current) (applied_at_start-omitted mode s on v)

    run_in_mode-on :
        (mode : Bytes) (ps : List Poll) (f g : Fetcher) (v : Bytes) (t : ℕ)
        → run_in_mode json parse_duration compiles started min_uptime mode ps f ≡ (g, some (v, t))
        → (equal mode mode_off ≡ false)
          × (run json parse_duration compiles started min_uptime ps f ≡ (g, some (v, t)))
    unfolding run_in_mode
    run_in_mode-on mode ps f g v t e = elim (Bool-cases (equal mode mode_off)) [
      | inl off ↦ ground arith
      | inr on ↦ (on, sym (rw on refl) ∙ e)
    ]

    -- A restart for a new configuration comes no sooner than the uptime that is asked for; the agent
    -- that starts again runs with that version, and asks for no restart while the answers that it
    -- reads name it.
    pub restart_settles :
        (mode : Bytes) (ps qs : List Poll) (f g : Fetcher) (v : Bytes) (t : ℕ)
        → run_in_mode json parse_duration compiles started min_uptime mode ps f ≡ (g, some (v, t))
        → AllNamed v qs
        → (started + min_uptime ≤ t)
          × ((boot json parse_duration compiles mode g.saved).current ≡ v)
          × (run json parse_duration compiles started min_uptime qs
                (boot json parse_duration compiles mode g.saved)
              ≡ (boot json parse_duration compiles mode g.saved, none))
    restart_settles mode ps qs f g v t e named =
        let (on, ran) = run_in_mode-on mode ps f g v t e in
        let (s, same, l, ok, late) =
          subst (λ (r : Fetcher × Option (Bytes × ℕ)). Restarts r.0 r.1) ran (run-Restarts ps f) in
        let now : (boot json parse_duration compiles mode g.saved).current ≡ v =
          boot-current mode g.saved s on l ok ∙ same in
        (
          late,
          now,
          run-known qs (boot json parse_duration compiles mode g.saved)
              (subst (λ w. AllNamed w qs) (sym now) named),
        )
