-- ===== src/Agent/Account.antt =====
-- What the agent has committed and counted after its ticks.
use yomins_agent.Go.Text.{Bytes, equal, equal_iff, bytes_eq}
use yomins_agent.Metrics.Types.{MetricSet}
use yomins_agent.Metrics.Registry.{Registry, CollectError}
use yomins_agent.Metrics.SelfMetrics.{
  SelfMetricsCollector, Floats, Build, new_self_metrics, or_zero, count_errors, record_collection,
  record_push,
}
use yomins_agent.Agent.{Agent, Tick, Outcome, new_agent, commit_once, tick, run}
use yomins_agent.Prelude.Map.{lookup, insert, lookup-insert}
use yomins_agent.Prelude.{
  ℕ, ◌+◌, Bool, true, false, not, ◌&&◌, ◌||◌, List, [], ◌∷◌, length, if◌then◌else◌, ◌≡◌, refl, ap,
  ◌∙◌, arith, inl, inr, Bool-cases,
}

-- The pushes that succeeded.
abbrev pub successes : List Outcome → ℕ
successes [] = 0
successes (o ∷ os) = if o.ok then 1 + successes os else successes os

abbrev pub times : Bytes → List (Bytes × CollectError) → ℕ
times n [] = 0
times n ((name, err) ∷ errs) = if equal name n then 1 + times n errs else times n errs

-- The errors of a collector.
abbrev pub errors_of : Bytes → List Outcome → ℕ
errors_of n [] = 0
errors_of n (o ∷ os) = times n o.errs + errors_of n os

abbrev pub one_if : Bool → ℕ
one_if b = if b then 1 else 0

abbrev pub any_ok : List Outcome → Bool
any_ok [] = false
any_ok (o ∷ os) = o.ok || any_ok os

abbrev pub errors_in : Bytes → SelfMetricsCollector → ℕ
errors_in n s = or_zero (lookup n s.collector_errors)

insert-or_zero :
    (n name : Bytes) (m : List (Bytes × ℕ))
    → or_zero (lookup n (insert name (or_zero (lookup name m) + 1) m))
      ≡ or_zero (lookup n m) + one_if (equal name n)
insert-or_zero n name m = elim (Bool-cases (equal name n)) [
  | inl same ↦
      ap or_zero (lookup-insert name n (or_zero (lookup name m) + 1) m)
      ∙ rw same (ap (λ k. or_zero (lookup k m) + 1) ((equal_iff name n).0 same))
  | inr other ↦
      ap or_zero (lookup-insert name n (or_zero (lookup name m) + 1) m) ∙ rw other (omega arith)
]

times-cons :
    (n name : Bytes) (err : CollectError) (errs : List (Bytes × CollectError))
    → times n ((name, err) ∷ errs) ≡ one_if (equal name n) + times n errs
times-cons n name err errs = ground arith

count_errors-times :
    (n : Bytes) (errs : List (Bytes × CollectError)) (m : List (Bytes × ℕ))
    → or_zero (lookup n (count_errors errs m)) ≡ or_zero (lookup n m) + times n errs
unfolding count_errors
count_errors-times n [] m = omega arith
count_errors-times n ((name, err) ∷ errs) m = omega (
  arith,
  count_errors-times n errs (insert name (or_zero (lookup name m) + 1) m),
  insert-or_zero n name m,
  times-cons n name err errs,
)

module _ {T : Type 0} where
  commit_once-self : (ok : Bool) (a : Agent T) → (commit_once ok a).self ≡ a.self
  unfolding commit_once
  commit_once-self ok a = elim (Bool-cases (ok && not a.committed)) [
    | inl e ↦ rw e refl
    | inr e ↦ rw e refl
  ]

  commit_once-hook : (ok : Bool) (a : Agent T) → (commit_once ok a).has_hook ≡ a.has_hook
  unfolding commit_once
  commit_once-hook ok a = elim (Bool-cases (ok && not a.committed)) [
    | inl e ↦ rw e refl
    | inr e ↦ rw e refl
  ]

  commit_once-committed :
      (ok : Bool) (a : Agent T) → (commit_once ok a).committed ≡ (ok || a.committed)
  unfolding commit_once
  commit_once-committed ok a = ground arith

  -- What is still to be committed.
  abbrev pub open_commits : Bool → Agent T → ℕ
  open_commits ok a = one_if (ok && (not a.committed && a.has_hook))

  commit_once-commits :
      (ok : Bool) (a : Agent T) → (commit_once ok a).commits ≡ a.commits + open_commits ok a
  unfolding commit_once
  commit_once-commits ok a = ground arith

record_push-total :
    (duration unix : ℕ) (ok : Bool) (s : SelfMetricsCollector)
    → ((record_push duration ok unix s).push_success_total ≡ s.push_success_total + one_if ok)
      × ((record_push duration ok unix s).push_error_total ≡ s.push_error_total + one_if (not ok))
      × ((record_push duration ok unix s).collector_errors ≡ s.collector_errors)
unfolding record_push
record_push-total duration unix true s = (refl, omega arith, refl)
record_push-total duration unix false s = (omega arith, refl, refl)

-- The calls of the hook and the counters of an agent, by what its ticks did.
pub record Accounts {T : Type 0} (n : Bytes) (has_hook : Bool) (a : Agent T) (os : List Outcome)
    : Type 0 where
  pub commits : a.commits ≡ one_if (any_ok os && has_hook)
  pub success : a.self.push_success_total ≡ successes os
  pub total : a.self.push_success_total + a.self.push_error_total ≡ length os
  pub errors : errors_in n a.self ≡ errors_of n os

zero_plus : (k : ℕ) → 0 + k ≡ k
zero_plus k = omega arith

-- What some ticks add to an agent.
record Grew {T : Type 0} (n : Bytes) (a a' : Agent T) (os : List Outcome) : Type 0 where
  commits : a'.commits ≡ a.commits + open_commits (any_ok os) a
  committed : a'.committed ≡ (any_ok os || a.committed)
  hook : a'.has_hook ≡ a.has_hook
  success : a'.self.push_success_total ≡ a.self.push_success_total + successes os
  total :
      a'.self.push_success_total + a'.self.push_error_total
      ≡ a.self.push_success_total + a.self.push_error_total + length os
  errors : errors_in n a'.self ≡ errors_in n a.self + errors_of n os

-- A tick behind its push.
step-Grew :
    {T : Type 0} (n : Bytes) (a : Agent T) (ok : Bool) (r : Registry) (x : T) (d u c : ℕ)
    (errs : List (Bytes × CollectError)) (sent : MetricSet)
    → Grew n a
        (commit_once ok (record a {
          registry = r;
          transport = x;
          self = record_push d ok u (record_collection c errs a.self);
        }))
        (record { sent = sent; errs = errs; ok = ok } ∷ [])
unfolding record_collection
step-Grew n a ok r x d u c errs sent =
    let pushed = record a {
      registry = r;
      transport = x;
      self = record_push d ok u (record_collection c errs a.self);
    } in
    let self = commit_once-self ok pushed in
    let recorded = record_push-total d u ok (record_collection c errs a.self) in
    record {
      commits =
          commit_once-commits ok pushed ∙ ap (λ k. a.commits + open_commits k a) (or_false ok);
      committed = commit_once-committed ok pushed ∙ ap (λ k. k || a.committed) (or_false ok);
      hook = commit_once-hook ok pushed;
      success =
          ap (λ (s : SelfMetricsCollector). s.push_success_total) self ∙ recorded.0 ∙ ground arith;
      total =
          ap (λ (s : SelfMetricsCollector). s.push_success_total + s.push_error_total) self
          ∙ ground (arith, recorded);
      errors =
          ap (errors_in n) self
          ∙ ap (λ m. or_zero (lookup n m)) recorded.2
          ∙ count_errors-times n errs a.self.collector_errors
          ∙ omega arith;
    }
  where
    or_false : (ok : Bool) → ok ≡ (ok || false)
    or_false true = refl
    or_false false = refl

Grew-trans :
    {T : Type 0} (n : Bytes) (a a' a'' : Agent T) (o : Outcome) (os : List Outcome)
    → Grew n a a' (o ∷ [])
    → Grew n a' a'' os
    → Grew n a a'' (o ∷ os)
Grew-trans n a a' a'' o os g h = ground (arith, g, h)

module _ {T : Type 0} (push : MetricSet → T → T × Bool) (fl : Floats) (b : Build) (n : Bytes) where
  tick-Grew :
      (t : Tick) (a : Agent T) → Grew n a (tick push fl b t a).0 ((tick push fl b t a).1 ∷ [])
  unfolding tick record_collection
  tick-Grew t a = step-Grew n a _ _ _ t.push_duration t.unix t.collect_duration _ _

  run-Grew : (ts : List Tick) (a : Agent T) → Grew n a (run push fl b ts a).0 (run push fl b ts a).1
  unfolding run
  run-Grew [] a = record {
    commits = omega arith;
    committed = refl;
    hook = refl;
    success = omega arith;
    total = omega arith;
    errors = omega arith;
  }
  run-Grew (t ∷ ts) a =
      let first = tick push fl b t a in
      Grew-trans n a first.0 (run push fl b ts first.0).0 first.1 (run push fl b ts first.0).1
        (tick-Grew t a) (run-Grew ts first.0)

  -- After any ticks of a new agent the hook that commits an upgrade has been called once if it is
  -- set and a push has succeeded, and never otherwise; the two counters of pushes count those that
  -- succeeded and, together, the ticks; and the counter of a collector counts its errors.
  pub run-Accounts :
      (ts : List Tick) (agent_id hostname version : Bytes) (has_hook : Bool) (r : Registry) (x : T)
      (started : ℕ)
      → Accounts n has_hook
          (run push fl b ts
            (new_agent agent_id hostname version has_hook r x (new_self_metrics started))).0
          (run push fl b ts
            (new_agent agent_id hostname version has_hook r x (new_self_metrics started))).1
  unfolding new_agent new_self_metrics lookup
  run-Accounts ts agent_id hostname version has_hook r x started =
      let g =
        run-Grew ts (new_agent agent_id hostname version has_hook r x (new_self_metrics started)) in
      record {
        commits = g.commits ∙ zero_plus _;
        success = g.success ∙ zero_plus _;
        total = g.total ∙ zero_plus _;
        errors = g.errors ∙ zero_plus _;
      }
