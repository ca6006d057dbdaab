-- ===== src/Events/System/Files/History.antt =====
-- pollFileState over its whole life: the events of a tick in terms of what was read before.
use yomins_agent.Go.Text.{Bytes, bytes_eq, equal, equal_iff}
use yomins_agent.Events.System.{Config}
use yomins_agent.Events.System.Files.{
  FileState, States, Disk, FileWatch, Pass, hash_file, track, baseline, start_file_watch,
  check_files, poll_file_state, default_monitored_files, load_file_state, save_file_state,
}
use yomins_agent.Events.System.Files.Modified.{
  Distinct, hash_of, kept, latest, hash_at, modified_events, modified_events-agree, check-kept,
  check-events,
}
use yomins_agent.Prelude.Map.{lookup, lookup-insert}
use yomins_agent.Prelude.{
  Each, Each-map, Each-map2, ◌≡◌, refl, ap, ◌∙◌, Bool, true, false, Option, none, some, List, [],
  ◌∷◌, arith, ℕ, if◌then◌else◌,
}

-- A tick: its ids, its time, what the paths hold, and whether a write succeeds.
pub record Tick : Type 0 where
  pub id : Bytes → Bytes
  pub now : ℕ
  pub disk : Disk
  pub written : Bool

-- The hash that a path starts with: that of the file of states, or that of the first reading.
abbrev pub first_hash : Option Bytes → Option Bytes → Option Bytes
first_hash none h = h
first_hash (some old) h = some old

module _ (sha256 : Bytes → Bytes) (c : Config) where
  unfoldable pub ticks : List Tick → FileWatch → FileWatch
  ticks [] w = w
  ticks (t ∷ ts) w = ticks ts (poll_file_state sha256 c t.id t.now t.disk t.written w).0

  -- The hash of the last reading of a path that succeeded.
  abbrev pub last_hash : List Tick → Bytes → Option Bytes → Option Bytes
  last_hash [] path h = h
  last_hash (t ∷ ts) path h = last_hash ts path (latest (hash_at sha256 t.disk path) h)

  monitored : Distinct default_monitored_files
  unfolding equal default_monitored_files
  monitored = ground arith

  track-first :
      (path : Bytes) (old new : Option FileState) (m : States)
      → lookup path m ≡ old
      → kept (track sha256 path old new m) path ≡ first_hash (hash_of old) (hash_of new)
  unfolding track
  track-first path (some f) new m e = ap hash_of e
  track-first path none none m e = ap hash_of e
  track-first path none (some f) m e =
      ground (arith, lookup-insert path path f m, equal_iff path path)

  track-other :
      (path q : Bytes) (old new : Option FileState) (m : States)
      → equal path q ≡ false
      → lookup q (track sha256 path old new m) ≡ lookup q m
  unfolding track
  track-other path q (some f) new m other = refl
  track-other path q none none m other = refl
  track-other path q none (some f) m other = ground (arith, lookup-insert path q f m)

  baseline-other :
      (disk : Disk) (q : Bytes) (paths : List Bytes) (m : States)
      → Each (λ r. equal r q ≡ false) paths
      → lookup q (baseline sha256 disk paths m) ≡ lookup q m
  unfolding baseline
  baseline-other disk q [] m other = refl
  baseline-other disk q (path ∷ paths) m (other, others) =
      baseline-other disk q paths _ others
      ∙ track-other path q (lookup path m) (hash_file sha256 (disk path)) m other

  baseline-kept :
      (disk : Disk) (paths : List Bytes) (m : States)
      → Distinct paths
      → Each
          (λ q.
            kept (baseline sha256 disk paths m) q ≡ first_hash (kept m q) (hash_at sha256 disk q))
          paths
  unfolding baseline
  baseline-kept disk [] m d = tt
  baseline-kept disk (path ∷ paths) m (d, ds) =
      let old = lookup path m in
      let new = hash_file sha256 (disk path) in
      let m' = track sha256 path old new m in
      (
        ap hash_of (baseline-other disk path paths m' (Each-map _ _ paths (λ q o. o.1) d))
            ∙ track-first path old new m refl,
        Each-map2 _ _ _ paths
            (λ q other e.
              e
              ∙ ap (λ o. first_hash (hash_of o) (hash_at sha256 disk q))
                  (track-other path q old new m other.0))
            d (baseline-kept disk paths m' ds),
      )

  saved-state : (written : Bool) (w : FileWatch) → (save_file_state written w).state ≡ w.state
  unfolding save_file_state
  saved-state written w = ground arith

  start-kept :
      (disk : Disk) (written : Bool) (saved : Option States)
      → Each
          (λ q.
            kept (start_file_watch sha256 disk written saved).state q
            ≡ first_hash (kept (load_file_state saved) q) (hash_at sha256 disk q))
          default_monitored_files
  unfolding start_file_watch
  start-kept disk written saved =
      rw (saved-state written)
        (baseline-kept disk default_monitored_files (load_file_state saved) monitored)

  stored-state :
      (b written : Bool) (w : FileWatch)
      → (if b then save_file_state written w else w).state ≡ w.state
  stored-state true written w = saved-state written w
  stored-state false written w = refl

  poll-kept :
      (t : Tick) (w : FileWatch)
      → Each
          (λ q.
            kept (poll_file_state sha256 c t.id t.now t.disk t.written w).0.state q
            ≡ latest (hash_at sha256 t.disk q) (kept w.state q))
          default_monitored_files
  unfolding poll_file_state
  poll-kept t w =
      let p : Pass = record { watch = w; events = []; changed = false; warned = [] } in
      let p' = check_files sha256 c t.id t.now t.disk default_monitored_files p in
      rw (stored-state p'.changed t.written p'.watch)
        (check-kept sha256 c t.id t.now t.disk default_monitored_files p monitored)

  ticks-kept :
      (ts : List Tick) (w : FileWatch) (h : Bytes → Option Bytes)
      → Each (λ q. kept w.state q ≡ h q) default_monitored_files
      → Each (λ q. kept (ticks ts w).state q ≡ last_hash ts q (h q)) default_monitored_files
  unfolding ticks
  ticks-kept [] w h e = e
  ticks-kept (t ∷ ts) w h e =
      ticks-kept ts _ (λ q. latest (hash_at sha256 t.disk q) (h q))
        (Each-map2 _ _ _ default_monitored_files
          (λ q new old. new ∙ ap (latest (hash_at sha256 t.disk q)) old) (poll-kept t w) e)

  -- After the start and any ticks, a tick gives exactly the events of the monitored files, in their
  -- order, that can be read and whose hash is not the last one: that of the last earlier tick which
  -- could read the file, or else that of the saved states, or else that of the start.
  pub modified_history :
      (disk : Disk) (written : Bool) (saved : Option States) (ts : List Tick) (t : Tick)
      → (poll_file_state sha256 c t.id t.now t.disk t.written
          (ticks ts (start_file_watch sha256 disk written saved))).1.events
        ≡ modified_events sha256 c t.id t.now t.disk
            (λ path.
              last_hash ts path
                (first_hash (kept (load_file_state saved) path) (hash_at sha256 disk path)))
            default_monitored_files
  unfolding poll_file_state
  modified_history disk written saved ts t =
      let w = ticks ts (start_file_watch sha256 disk written saved) in
      check-events sha256 c t.id t.now t.disk default_monitored_files
        (record { watch = w; events = []; changed = false; warned = [] }) monitored
      ∙ modified_events-agree sha256 c t.id t.now t.disk (kept w.state) _ default_monitored_files
          (ticks-kept ts _ _ (start-kept disk written saved))
