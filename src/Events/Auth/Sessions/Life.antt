-- ===== src/Events/Auth/Sessions/Life.antt =====
-- runWtmp over ticks, rotations and restarts of the agent: each record is handled once.
use yomins_agent.Go.Text.{Bytes}
use yomins_agent.Go.Os.{Write}
use yomins_agent.Go.Binary.{packed, drop-append}
use yomins_agent.Go.Strconv.Decimal.{format, format-All, atoi-format}
use yomins_agent.Go.Strconv.Trim.{trim_space-digits}
use yomins_agent.Events.Types.{Event, EventType}
use yomins_agent.Events.Auth.{Config, Collector}
use yomins_agent.Events.Auth.Origin.{Address, restart}
use yomins_agent.Events.Auth.Sessions.{
  Reader, format_int, load_wtmp_cursor, save_wtmp_cursor, start_at, start_reader, rotate, read_wtmp,
}
use yomins_agent.Events.Auth.Sessions.Once.{AllWhole, length-whole, handle_all, read_records-whole}
use yomins_agent.Prelude.Int.{ℤ, pos}
use yomins_agent.Prelude.{
  ℕ, zero, suc, ◌+◌, ◌*◌, ◌^◌, ◌<◌, Bool, false, Option, some, List, [], ◌∷◌, ◌++◌, ◌==◌, length,
  drop, ◌≡◌, refl, ap, sym, ◌∙◌, arith, length-append,
}

-- What happens: records are appended and a tick reads them; the path gets a new file with records
-- and a tick finds it; or the agent starts again.
pub data WtmpStep : Type 0 where
  ticked : ℕ → Bool → List Bytes → WtmpStep
  rotated : ℕ → Bool → ℕ → List Bytes → WtmpStep
  restarted : WtmpStep

-- The reader when it has read a file of `n` bytes whole.
abbrev pub caught_up : ℕ → ℕ → Reader
caught_up inode n = record { cursor = pos n; offset = n; inode = inode; saved = some (format n) }

module _ (parse_ip : Bytes → Option Address) (c : Config) (id : EventType → ℤ → Bytes) where
  -- The code, with the content of the file.
  unfoldable pub run_wtmp : List WtmpStep → Bytes → Reader × Collector → List Event
  run_wtmp [] content ws = []
  run_wtmp (ticked now writes rs ∷ more) content (w, s) =
      let content' = content ++ packed rs in
      let r = read_wtmp parse_ip c id now writes (some w.inode) content' Write.done (w, s) in
      r.1 ++ run_wtmp more content' r.0
  run_wtmp (rotated now writes inode rs ∷ more) content ws =
      let r = read_wtmp parse_ip c id now writes (some inode) (packed rs) Write.done ws in
      r.1 ++ run_wtmp more (packed rs) r.0
  run_wtmp (restarted ∷ more) content (w, s) =
      run_wtmp more content (start_reader (length content) w.inode w.saved, restart s)

  -- What is expected: each record once, in order. The number is the length of the file.
  unfoldable pub handled_once : List WtmpStep → ℕ → Collector → List Event
  handled_once [] n s = []
  handled_once (ticked now writes rs ∷ more) n s =
      let r = handle_all parse_ip c id now writes n rs s in
      r.1 ++ handled_once more (n + 384 * length rs) r.0
  handled_once (rotated now writes inode rs ∷ more) n s =
      let r = handle_all parse_ip c id now writes 0 rs s in
      r.1 ++ handled_once more (384 * length rs) r.0
  handled_once (restarted ∷ more) n s = handled_once more n (restart s)

-- Records are whole, a rotation changes the inode, and the agent does not start again while the
-- file is empty.
abbrev pub Fits : ℕ → ℕ → List WtmpStep → Type 0
Fits inode n [] = Unit
Fits inode n (ticked now writes rs ∷ more) = AllWhole rs × Fits inode (n + 384 * length rs) more
Fits inode n (rotated now writes inode' rs ∷ more) =
    ((inode' == inode) ≡ false) × (AllWhole rs × Fits inode' (384 * length rs) more)
Fits inode n (restarted ∷ more) = (0 < n) × ((n < 2 ^ 63) × Fits inode n more)

load-format : (n : ℕ) → n < 2 ^ 63 → load_wtmp_cursor (some (format n)) ≡ some (pos n)
unfolding load_wtmp_cursor
load-format n h = rw (trim_space-digits (format n) (format-All n)) (atoi-format n h)

start_at-caught_up :
    (size inode n : ℕ)
    → 0 < n
    → start_at size inode (some (format n)) (some (pos n)) ≡ caught_up inode n
unfolding start_at
start_at-caught_up size inode zero h = elim h [ ]
start_at-caught_up size inode (suc n) h = refl

start-caught_up :
    (size inode n : ℕ)
    → 0 < n
    → n < 2 ^ 63
    → start_reader size inode (some (format n)) ≡ caught_up inode n
unfolding start_reader
start-caught_up size inode n h b =
    ap (start_at size inode (some (format n))) (load-format n b) ∙ start_at-caught_up size inode n h

module _ (parse_ip : Bytes → Option Address) (c : Config) (id : EventType → ℤ → Bytes) where
  -- A tick on a file that a reader knows up to `n`.
  read_wtmp-whole :
      (now : ℕ) (writes : Bool) (inode : ℕ) (old : Bytes) (rs : List Bytes) (n : ℕ) (w : Reader)
      (s : Collector)
      → AllWhole rs
      → length old ≡ n
      → rotate (some inode) w ≡ record w { cursor = pos n; offset = n; inode = inode }
      → read_wtmp parse_ip c id now writes (some inode) (old ++ packed rs) Write.done (w, s) ≡ (
        (caught_up inode (n + 384 * length rs), (handle_all parse_ip c id now writes n rs s).0),
        (handle_all parse_ip c id now writes n rs s).1,
      )
  unfolding read_wtmp save_wtmp_cursor format_int
  read_wtmp-whole now writes inode old rs n w s whole size opened =
      let rest : drop n (old ++ packed rs) ≡ packed rs =
        ap (λ k. drop k (old ++ packed rs)) (sym size) ∙ drop-append old (packed rs) in
      rw
        (
          opened,
          rest,
          read_records-whole parse_ip c id now writes (suc (length (packed rs))) rs
              (record w { inode = inode }) n s whole (omega (arith, length-whole rs whole)),
        )
        refl

  rotate-same :
      (w : Reader) (n : ℕ) → rotate (some w.inode) (caught_up w.inode n) ≡ caught_up w.inode n
  unfolding rotate
  rotate-same w n = ground arith

  rotate-other :
      (inode : ℕ) (w : Reader)
      → (inode == w.inode) ≡ false
      → rotate (some inode) w ≡ record w { cursor = pos 0; offset = 0; inode = inode }
  unfolding rotate
  rotate-other inode w h = rw h refl

  -- From a reader that has read the file whole, with all writes succeeding, the events over any
  -- ticks, rotations and restarts are those of each appended record, handled once and in order, at
  -- the time of the tick that finds it; what a rotation leaves unread in the old file is not among
  -- the appended records.
  pub wtmp_once :
      (steps : List WtmpStep) (content : Bytes) (inode n : ℕ) (s : Collector)
      → length content ≡ n
      → Fits inode n steps
      → run_wtmp parse_ip c id steps content (caught_up inode n, s)
        ≡ handled_once parse_ip c id steps n s
  unfolding run_wtmp handled_once
  wtmp_once [] content inode n s size fits = refl
  wtmp_once (ticked now writes rs ∷ more) content inode n s size (whole, fits) =
      let r = handle_all parse_ip c id now writes n rs s in
      rw
        (read_wtmp-whole now writes inode content rs n (caught_up inode n) s whole size
          (rotate-same (caught_up inode n) n))
        (ap (λ evs. r.1 ++ evs)
          (wtmp_once more (content ++ packed rs) inode (n + 384 * length rs) r.0
            (omega (arith, length-append content (packed rs), length-whole rs whole)) fits))
  wtmp_once (rotated now writes inode' rs ∷ more) content inode n s size (other, (whole, fits)) =
      let r = handle_all parse_ip c id now writes 0 rs s in
      let from_start : 0 + 384 * length rs ≡ 384 * length rs = omega arith in
      rw
        (
          read_wtmp-whole now writes inode' [] rs 0 (caught_up inode n) s whole refl
              (rotate-other inode' (caught_up inode n) other),
          from_start,
        )
        (ap (λ evs. r.1 ++ evs)
          (wtmp_once more (packed rs) inode' (384 * length rs) r.0 (length-whole rs whole) fits))
  wtmp_once (restarted ∷ more) content inode n s size (some_bytes, (bound, fits)) =
      rw (start-caught_up (length content) inode n some_bytes bound)
        (wtmp_once more content inode n (restart s) size fits)
