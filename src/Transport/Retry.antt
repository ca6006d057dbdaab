-- ===== src/Transport/Retry.antt =====
-- `backoff.RetryNotify` of github.com/cenkalti/backoff, which the repository does not hold: an
-- interface with its documented behaviour, that the two retrying transports take as a parameter.
use mathlib.Core.Path.{subst}
use yomins_agent.Prelude.{◌≡◌, refl, ℕ, zero, suc}
use yomins_agent.Transport.Attempt.{Attempt, success, permanent, transient}

-- The result: nil, the error of the last attempt, or the context's error.
pub data Outcome {ℓ} (E : Type ℓ) : Type ℓ where
  finished cancelled : Outcome E
  failed : E → Outcome E

-- The operation runs at least once. A success or a permanent error ends the loop; after a
-- transient one it runs again, gives up with that error, or sees the context done.
pub data Retries {S E : Type 0} (op : S → S × Attempt E) : S → S → Outcome E → Type 0 where
  done : {s t : S} → op s ≡ (t, success) → Retries op s t finished
  stop : {s t : S} {e : E} → op s ≡ (t, permanent e) → Retries op s t (failed e)
  give_up : {s t : S} {e : E} → op s ≡ (t, transient e) → Retries op s t (failed e)
  context_done : {s t : S} {e : E} → op s ≡ (t, transient e) → Retries op s t cancelled
  again :
      {s t u : S} {e : E} {o : Outcome E}
      → op s ≡ (t, transient e)
      → Retries op t u o
      → Retries op s u o

pub record Retry (S E : Type 0) : Type 0 where
  pub retry : (S → S × Attempt E) → S → S × Outcome E
  pub retry_runs : (op : S → S × Attempt E) (s : S) → Retries op s (retry op s).0 (retry op s).1

module _ {S E : Type 0} where
  abbrev conclude : S × Attempt E → (E → S → S × Outcome E) → S × Outcome E
  conclude (t, success) more = (t, finished)
  conclude (t, permanent e) more = (t, failed e)
  conclude (t, transient e) more = more e t

  -- A policy that makes `n` attempts more after the first.
  unfoldable pub attempts : ℕ → (S → S × Attempt E) → S → S × Outcome E
  attempts zero op s = conclude (op s) (λ e t. (t, failed e))
  attempts (suc n) op s = conclude (op s) (λ e t. attempts n op t)

  pub attempts_runs :
      (n : ℕ) (op : S → S × Attempt E) (s : S)
      → Retries op s (attempts n op s).0 (attempts n op s).1
  unfolding attempts
  attempts_runs zero op s = go (op s) refl
    where
      go :
          (r : S × Attempt E)
          → op s ≡ r
          → Retries op s (attempts zero op s).0 (attempts zero op s).1
      go (t, success) e = rw e (done e)
      go (t, permanent x) e = rw e (stop e)
      go (t, transient x) e = rw e (give_up e)
  attempts_runs (suc n) op s = go (op s) refl (attempts_runs n op)
    where
      go :
          (r : S × Attempt E)
          → op s ≡ r
          → ((t : S) → Retries op t (attempts n op t).0 (attempts n op t).1)
          → Retries op s (attempts (suc n) op s).0 (attempts (suc n) op s).1
      go (t, success) e ih = rw e (done e)
      go (t, permanent x) e ih = rw e (stop e)
      go (t, transient x) e ih = rw e (again e (ih t))

  abbrev pub bounded : ℕ → Retry S E
  bounded n = record { retry = attempts n; retry_runs = attempts_runs n }

  -- What the operation keeps, the loop keeps.
  pub Retries-keeps {ℓ} :
      (P : S → Type ℓ) (op : S → S × Attempt E)
      → ((s : S) → P s → P (op s).0)
      → {s t : S} {o : Outcome E} → Retries op s t o
      → P s
      → P t
  Retries-keeps P op keep (done {s} {t} e) p = subst (λ r. P r.0) e (keep s p)
  Retries-keeps P op keep (stop {s} {t} e) p = subst (λ r. P r.0) e (keep s p)
  Retries-keeps P op keep (give_up {s} {t} e) p = subst (λ r. P r.0) e (keep s p)
  Retries-keeps P op keep (context_done {s} {t} e) p = subst (λ r. P r.0) e (keep s p)
  Retries-keeps P op keep (again {s} {t} e r) p =
      Retries-keeps P op keep r (subst (λ r. P r.0) e (keep s p))

  -- The loop finishes by an attempt that succeeds.
  pub Retries-finished :
      (op : S → S × Attempt E) {s t : S} {o : Outcome E}
      → Retries op s t o
      → o ≡ finished
      → (u : S) × (op u ≡ (t, success))
  Retries-finished op (done {s} e) f = (s, e)
  Retries-finished op (stop e) f = absurd (cc)
  Retries-finished op (give_up e) f = absurd (cc)
  Retries-finished op (context_done e) f = absurd (cc)
  Retries-finished op (again e r) f = Retries-finished op r f
