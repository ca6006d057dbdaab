-- ===== src/Events/Auth/Sessions/Once.antt =====
-- Each record of wtmp is handled once, over ticks, rotations and restarts of the agent.
use yomins_agent.Go.Text.{Bytes}
use yomins_agent.Go.Binary.{packed, take-append, drop-append}
use yomins_agent.Events.Types.{Event, EventType}
use yomins_agent.Events.Auth.{Config, Collector}
use yomins_agent.Events.Auth.Origin.{Address}
use yomins_agent.Events.Auth.Wtmp.{parse_record}
use yomins_agent.Events.Auth.Sessions.{Reader, handle_record, read_records}
use yomins_agent.Prelude.Int.{ℤ, pos, add_nat}
use yomins_agent.Prelude.{
  ℕ, zero, suc, ◌+◌, ◌*◌, ◌≤◌, ◌<◌, Bool, true, Option, List, [], ◌∷◌, ◌++◌, leb, length, take,
  drop, ◌≡◌, refl, ap, sym, ◌∙◌, arith, length-append,
}

le→leb : (a b : ℕ) → a ≤ b → leb a b ≡ true
le→leb a b h = ground arith

-- Whole records.
abbrev pub AllWhole : List Bytes → Type 0
AllWhole [] = Unit
AllWhole (r ∷ rs) = (length r ≡ 384) × AllWhole rs

pub length-whole : (rs : List Bytes) → AllWhole rs → length (packed rs) ≡ 384 * length rs
length-whole [] h = omega arith
length-whole (r ∷ rs) (h, hs) = omega (arith, length-append r (packed rs), length-whole rs hs)

module _ (parse_ip : Bytes → Option Address) (c : Config) (id : EventType → ℤ → Bytes) (now : ℕ)
    (writes : Bool) where
  -- The records one after another, the first one behind the cursor.
  unfoldable pub handle_all : ℕ → List Bytes → Collector → Collector × List Event
  handle_all cursor [] s = (s, [])
  handle_all cursor (r ∷ rs) s =
      let (s', evs) =
        handle_record parse_ip c id now writes (pos (cursor + 384)) (parse_record now r) s in
      let (s'', more) = handle_all (cursor + 384) rs s' in (s'', evs ++ more)

  abbrev pub at_cursor : Reader → ℕ → Reader
  at_cursor w n = record w { cursor = pos n; offset = n }

  read_step :
      (fuel : ℕ) (r rest : Bytes) (w : Reader) (n : ℕ) (s : Collector)
      → length r ≡ 384
      → read_records parse_ip c id now writes (suc fuel) (r ++ rest) (at_cursor w n) s ≡ (
          let (s', evs) =
            handle_record parse_ip c id now writes (pos (n + 384)) (parse_record now r) s in
          let more = read_records parse_ip c id now writes fuel rest (at_cursor w (n + 384)) s' in
          (more.0, evs ++ more.1))
  unfolding read_records add_nat
  read_step fuel r rest w n s h =
      let taken : take 384 (r ++ rest) ≡ r =
        ap (λ k. take k (r ++ rest)) (sym h) ∙ take-append r rest in
      let dropped : drop 384 (r ++ rest) ≡ rest =
        ap (λ k. drop k (r ++ rest)) (sym h) ∙ drop-append r rest in
      let full : leb 384 (length (r ++ rest)) ≡ true =
        le→leb 384 (length (r ++ rest)) (omega (arith, length-append r rest)) in
      rw (taken, dropped, full) refl

  pub read_records-whole :
      (fuel : ℕ) (rs : List Bytes) (w : Reader) (n : ℕ) (s : Collector)
      → AllWhole rs
      → length rs < fuel
      → read_records parse_ip c id now writes fuel (packed rs) (at_cursor w n) s
        ≡ ((at_cursor w (n + 384 * length rs), (handle_all n rs s).0), (handle_all n rs s).1)
  unfolding read_records handle_all
  read_records-whole zero rs w n s h l = elim l [ ]
  read_records-whole (suc fuel) [] w n s h l = ground arith
  read_records-whole (suc fuel) (r ∷ rs) w n s (h, hs) l =
      let first = handle_record parse_ip c id now writes (pos (n + 384)) (parse_record now r) s in
      let rest = handle_all (n + 384) rs first.0 in
      read_step fuel r (packed rs) w n s h
      ∙ ap (λ (m : (Reader × Collector) × List Event). (m.0, first.1 ++ m.1))
          (read_records-whole fuel rs w (n + 384) first.0 hs (omega arith))
      ∙ ap (λ (k : ℕ). ((at_cursor w k, rest.0), first.1 ++ rest.1)) (omega arith)
