-- ===== src/Metrics/Registry/Once.antt =====
-- The calls of Collect that run at one time, over the starts and the returns of the goroutines.
use yomins_agent.Go.Text.{Bytes, equal, equal_iff, bytes_eq}
use yomins_agent.Metrics.Registry.{Registry, new_registry, is_busy, start, finish}
use yomins_agent.Prelude.Map.{lookup, lookup-insert, lookup-delete}
use yomins_agent.Prelude.{
  ℕ, ◌+◌, ◌≤◌, Bool, true, List, [], ◌∷◌, ◌≡◌, refl, arith, if◌then◌else◌, ltb,
}

-- A collector is started if it may be, or a call of it that runs returns.
pub data Move : Type 0 where
  begins returns : Bytes → Move

abbrev pub count : Bytes → List Bytes → ℕ
count n [] = 0
count n (m ∷ ms) = if equal m n then 1 + count n ms else count n ms

abbrev pub remove : Bytes → List Bytes → List Bytes
remove n [] = []
remove n (m ∷ ms) = let rest = remove n ms in if equal m n then ms else m ∷ rest

-- The registry, and the names of the collectors whose calls run.
abbrev pub State : Type 0
State = Registry × List Bytes

abbrev pub move : Move → State → State
move (Move.begins n) (r, running) =
    let (r', started) = start n r in (r', if started then n ∷ running else running)
move (Move.returns n) (r, running) =
    if ltb 0 (count n running) then (finish n r, remove n running) else (r, running)

abbrev pub moves : List Move → State → State
moves [] s = s
moves (m ∷ ms) s = moves ms (move m s)

-- A collector is busy when its one call runs.
abbrev Agree : State → Type 0
Agree (r, running) = (n : Bytes) → count n running ≡ (if is_busy n r then 1 else 0)

count-remove :
    (m n : Bytes) (ms : List Bytes)
    → count m ms ≡ 1
    → count n (remove m ms) ≡ (if equal m n then 0 else count n ms)
count-remove m n [] h = ground arith
count-remove m n (x ∷ xs) h =
    ground (arith, count-remove m n xs, equal_iff x m, equal_iff x n, equal_iff m n)

begins-Agree :
    (n : Bytes) (r : Registry) (running : List Bytes)
    → Agree (r, running)
    → Agree (move (Move.begins n) (r, running))
unfolding start is_busy
begins-Agree n r running h m =
    ground (arith, h m, h n, lookup-insert n m true r.busy, equal_iff n m)

returns-Agree :
    (n : Bytes) (r : Registry) (running : List Bytes)
    → Agree (r, running)
    → Agree (move (Move.returns n) (r, running))
unfolding finish is_busy
returns-Agree n r running h m =
    ground (arith, h m, h n, lookup-delete n m r.busy, count-remove n m running, equal_iff n m)

moves-Agree : (ms : List Move) (s : State) → Agree s → Agree (moves ms s)
moves-Agree [] s h = h
moves-Agree (Move.begins n ∷ ms) (r, running) h =
    moves-Agree ms (move (Move.begins n) (r, running)) (begins-Agree n r running h)
moves-Agree (Move.returns n ∷ ms) (r, running) h =
    moves-Agree ms (move (Move.returns n) (r, running)) (returns-Agree n r running h)

new_registry-Agree : (names : List Bytes) → Agree (new_registry names, [])
unfolding new_registry is_busy lookup
new_registry-Agree names n = refl

one_or_none : (b : Bool) → (if b then 1 else 0) ≤ 1
one_or_none b = ground arith

start-refuses :
    (n : Bytes) (r : Registry) (k : ℕ)
    → k ≡ (if is_busy n r then 1 else 0)
    → (start n r).1 ≡ ltb k 1
unfolding start
start-refuses n r k e = ground arith

-- After any starts and returns from a new registry, at most one call of a collector runs, and the
-- next start of that collector is refused exactly when one does.
pub never_twice :
    (names : List Bytes) (ms : List Move) (n : Bytes)
    → (count n (moves ms (new_registry names, [])).1 ≤ 1)
      × ((start n (moves ms (new_registry names, [])).0).1
          ≡ ltb (count n (moves ms (new_registry names, [])).1) 1)
never_twice names ms n =
    let s = moves ms (new_registry names, []) in
    let same = moves-Agree ms (new_registry names, []) (new_registry-Agree names) n in
    let busy = is_busy n s.0 in (rw same (one_or_none busy), start-refuses n s.0 (count n s.1) same)
