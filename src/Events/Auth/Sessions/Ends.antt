-- ===== src/Events/Auth/Sessions/Ends.antt =====
-- The inner loop of runWtmp ends, whatever the file holds.
use yomins_agent.Go.Text.{Bytes}
use yomins_agent.Events.Types.{Event, EventType}
use yomins_agent.Events.Auth.{Config, Collector}
use yomins_agent.Events.Auth.Origin.{Address}
use yomins_agent.Events.Auth.Wtmp.{parse_record}
use yomins_agent.Events.Auth.Sessions.{Reader, handle_record, read_records}
use yomins_agent.Prelude.Int.{ℤ, add_nat}
use yomins_agent.Prelude.{
  ℕ, zero, suc, ◌+◌, ◌<◌, Bool, true, false, Option, List, [], ◌++◌, leb, length, take, drop, ◌≡◌,
  refl, ap, sym, ◌∙◌, arith, inl, inr, Bool-cases, length-drop, leb→le,
}

-- A whole record is taken off.
drop-length :
    (rest : Bytes) → leb 384 (length rest) ≡ true → length (drop 384 rest) + 384 ≡ length rest
drop-length rest e = omega (arith, length-drop 384 rest, leb→le 384 (length rest) e)

module _ (parse_ip : Bytes → Option Address) (c : Config) (id : EventType → ℤ → Bytes) (now : ℕ)
    (writes : Bool) where
  abbrev Result : Type 0
  Result = (Reader × Collector) × List Event

  -- A whole record that is there is handled, and the loop goes on.
  read_records-more :
      (fuel : ℕ) (rest : Bytes) (w : Reader) (s : Collector)
      → leb 384 (length rest) ≡ true
      → read_records parse_ip c id now writes (suc fuel) rest w s ≡ (
          let cursor = add_nat w.cursor 384 in
          let r =
            handle_record parse_ip c id now writes cursor (parse_record now (take 384 rest)) s in
          let more : Result =
            read_records parse_ip c id now writes fuel
              (drop 384 rest)
              (record w { cursor = cursor; offset = w.offset + 384 })
              r.0 in
          (more.0, r.1 ++ more.1))
  unfolding read_records
  read_records-more fuel rest w s e = rw e refl

  read_records-last :
      (fuel : ℕ) (rest : Bytes) (w : Reader) (s : Collector)
      → leb 384 (length rest) ≡ false
      → read_records parse_ip c id now writes (suc fuel) rest w s
        ≡ ((record w { offset = w.offset + length rest }, s), [])
  unfolding read_records
  read_records-last fuel rest w s e = rw e refl

  read_records-offset :
      (fuel : ℕ) (rest : Bytes) (w : Reader) (s : Collector)
      → length rest < fuel
      → (read_records parse_ip c id now writes fuel rest w s).0.0.offset ≡ w.offset + length rest
  read_records-offset zero rest w s l = elim l [ ]
  read_records-offset (suc fuel) rest w s l = elim (Bool-cases (leb 384 (length rest))) [
    | inl e ↦
        ap (λ (r : Result). r.0.0.offset) (read_records-more fuel rest w s e)
        ∙ read_records-offset fuel (drop 384 rest) _ _ (omega (arith, drop-length rest e))
        ∙ omega (arith, drop-length rest e)
    | inr e ↦ ap (λ (r : Result). r.0.0.offset) (read_records-last fuel rest w s e)
  ]

  read_records-fuel :
      (fuel more : ℕ) (rest : Bytes) (w : Reader) (s : Collector)
      → length rest < fuel
      → length rest < more
      → read_records parse_ip c id now writes more rest w s
        ≡ read_records parse_ip c id now writes fuel rest w s
  read_records-fuel zero more rest w s l m = elim l [ ]
  read_records-fuel (suc fuel) zero rest w s l m = elim m [ ]
  read_records-fuel (suc fuel) (suc more) rest w s l m = elim (Bool-cases (leb 384 (length rest))) [
    | inl e ↦
        let r =
          handle_record parse_ip c id now writes (add_nat w.cursor 384)
            (parse_record now (take 384 rest)) s in
        read_records-more more rest w s e
        ∙ ap (λ (q : Result). (q.0, r.1 ++ q.1))
            (read_records-fuel fuel more (drop 384 rest) _ _ (omega (arith, drop-length rest e))
              (omega (arith, drop-length rest e)))
        ∙ sym (read_records-more fuel rest w s e)
    | inr e ↦ read_records-last more rest w s e ∙ sym (read_records-last fuel rest w s e)
  ]

  -- With more fuel than there are bytes the loop ends: it has taken every byte of the rest, whatever
  -- they are, and any other such fuel gives the same result.
  pub read_records_ends :
      (fuel more : ℕ) (rest : Bytes) (w : Reader) (s : Collector)
      → length rest < fuel
      → length rest < more
      → ((read_records parse_ip c id now writes fuel rest w s).0.0.offset ≡ w.offset + length rest)
        × (read_records parse_ip c id now writes more rest w s
            ≡ read_records parse_ip c id now writes fuel rest w s)
  read_records_ends fuel more rest w s l m =
      (read_records-offset fuel rest w s l, read_records-fuel fuel more rest w s l m)
