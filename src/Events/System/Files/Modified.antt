-- ===== src/Events/System/Files/Modified.antt =====
-- Which events the ticks of pollFileState give: those of the files whose last hash was another.
use yomins_agent.Go.Text.{Bytes, bytes_eq, equal, equal_iff}
use yomins_agent.Events.Types.{Event}
use yomins_agent.Events.System.{Config}
use yomins_agent.Events.System.Files.{
  FileState, States, Disk, Pass, hash_file, compare_file, check_files, config_modified,
}
use yomins_agent.Prelude.Map.{lookup, lookup-insert}
use yomins_agent.Prelude.{
  Each, Each-map, Each-map2, ◌≡◌, refl, ap, ap₂, sym, ◌∙◌, Bool, true, false, not, Option, none,
  some, List, [], ◌∷◌, ◌++◌, arith, ℕ, if◌then◌else◌, append-nil, append_assoc,
}

abbrev pub hash_of : Option FileState → Option Bytes
hash_of none = none
hash_of (some f) = some f.hash

-- The hash that is kept for a path.
abbrev pub kept : States → Bytes → Option Bytes
kept m path = hash_of (lookup path m)

-- A file that cannot be read keeps its hash.
abbrev pub latest : Option Bytes → Option Bytes → Option Bytes
latest none old = old
latest (some h) old = some h

abbrev pub differs : Option Bytes → Option Bytes → Bool
differs (some old) (some h) = not (equal old h)
differs _ _ = false

abbrev pub Distinct : List Bytes → Type 0
Distinct [] = Unit
Distinct (q ∷ qs) = Each (λ r. (equal q r ≡ false) × (equal r q ≡ false)) qs × Distinct qs

append-pick :
    (xs : List Event) (x : Event) (b : Bool) (ys : List Event)
    → (xs ++ (if b then x ∷ [] else [])) ++ ys ≡ xs ++ (if b then x ∷ ys else ys)
append-pick xs x true ys = append_assoc xs (x ∷ []) ys
append-pick xs x false ys = ap (λ zs. zs ++ ys) (append-nil xs)

module _ (sha256 : Bytes → Bytes) where
  -- The hash of what a path holds, if it can be read.
  abbrev pub hash_at : Disk → Bytes → Option Bytes
  hash_at disk path = hash_of (hash_file sha256 (disk path))

  -- The events of a tick, from the hash that was the last one for each path.
  abbrev pub modified_events :
      Config → (Bytes → Bytes) → ℕ → Disk → (Bytes → Option Bytes) → List Bytes → List Event
  modified_events c id now disk before [] = []
  modified_events c id now disk before (path ∷ paths) =
      let rest = modified_events c id now disk before paths in
      if differs (before path) (hash_at disk path)
      then config_modified c id now path ∷ rest
      else rest

  pub modified_events-agree :
      (c : Config) (id : Bytes → Bytes) (now : ℕ) (disk : Disk) (f g : Bytes → Option Bytes)
      (paths : List Bytes)
      → Each (λ q. f q ≡ g q) paths
      → modified_events c id now disk f paths ≡ modified_events c id now disk g paths
  modified_events-agree c id now disk f g [] e = refl
  modified_events-agree c id now disk f g (path ∷ paths) (e, es) =
      rw (e, modified_events-agree c id now disk f g paths es) refl

  module _ (c : Config) (id : Bytes → Bytes) (now : ℕ) where
    compare-kept-other :
        (path q : Bytes) (new prev : Option FileState) (p : Pass)
        → equal path q ≡ false
        → lookup q (compare_file sha256 c id now path new prev p).watch.state
          ≡ lookup q p.watch.state
    unfolding compare_file
    compare-kept-other path q none prev p other = ground arith
    compare-kept-other path q (some f) none p other =
        lookup-insert path q f p.watch.state ∙ rw other refl
    compare-kept-other path q (some f) (some g) p other =
        ground (arith, lookup-insert path q f p.watch.state)

    compare-kept :
        (path : Bytes) (new prev : Option FileState) (p : Pass)
        → lookup path p.watch.state ≡ prev
        → kept (compare_file sha256 c id now path new prev p).watch.state path
          ≡ latest (hash_of new) (hash_of prev)
    unfolding compare_file
    compare-kept path none prev p e = ground (arith, e)
    compare-kept path (some f) none p e =
        ground (arith, lookup-insert path path f p.watch.state, equal_iff path path)
    compare-kept path (some f) (some g) p e = ground (
      arith,
      lookup-insert path path f p.watch.state,
      equal_iff path path,
      equal_iff g.hash f.hash,
      e,
    )

    compare-events :
        (path : Bytes) (new prev : Option FileState) (p : Pass)
        → (compare_file sha256 c id now path new prev p).events
          ≡ p.events
            ++ (if differs (hash_of prev) (hash_of new)
                then config_modified c id now path ∷ []
                else [])
    unfolding compare_file
    compare-events path none none p = ground (arith, append-nil p.events)
    compare-events path none (some g) p = ground (arith, append-nil p.events)
    compare-events path (some f) none p = sym (append-nil p.events)
    compare-events path (some f) (some g) p = ground (arith, append-nil p.events)

    module _ (disk : Disk) where
      check-kept-other :
          (q : Bytes) (paths : List Bytes) (p : Pass)
          → Each (λ r. equal r q ≡ false) paths
          → lookup q (check_files sha256 c id now disk paths p).watch.state ≡ lookup q p.watch.state
      unfolding check_files
      check-kept-other q [] p other = refl
      check-kept-other q (path ∷ paths) p (other, others) =
          check-kept-other q paths _ others
          ∙ compare-kept-other path q (hash_file sha256 (disk path)) (lookup path p.watch.state) p
              other

      -- The passes keep the last hash of each path.
      pub check-kept :
          (paths : List Bytes) (p : Pass)
          → Distinct paths
          → Each
              (λ q.
                kept (check_files sha256 c id now disk paths p).watch.state q
                ≡ latest (hash_at disk q) (kept p.watch.state q))
              paths
      unfolding check_files
      check-kept [] p d = tt
      check-kept (path ∷ paths) p (d, ds) =
          let new = hash_file sha256 (disk path) in
          let prev = lookup path p.watch.state in
          let p' = compare_file sha256 c id now path new prev p in
          (
            ap hash_of (check-kept-other path paths p' (Each-map _ _ paths (λ q o. o.1) d))
                ∙ compare-kept path new prev p refl,
            Each-map2 _ _ _ paths
                (λ q other e.
                  e
                  ∙ ap (λ o. latest (hash_at disk q) (hash_of o))
                      (compare-kept-other path q new prev p other.0))
                d (check-kept paths p' ds),
          )

      -- Their events are those of the hashes before the pass.
      pub check-events :
          (paths : List Bytes) (p : Pass)
          → Distinct paths
          → (check_files sha256 c id now disk paths p).events
            ≡ p.events ++ modified_events c id now disk (kept p.watch.state) paths
      unfolding check_files
      check-events [] p d = sym (append-nil p.events)
      check-events (path ∷ paths) p (d, ds) =
          let new = hash_file sha256 (disk path) in
          let prev = lookup path p.watch.state in
          let p' = compare_file sha256 c id now path new prev p in
          let same =
            modified_events-agree c id now disk (kept p'.watch.state) (kept p.watch.state) paths (
              Each-map _ _ paths
                (λ q other. ap hash_of (compare-kept-other path q new prev p other.0)) d) in
          check-events paths p' ds
          ∙ ap₂ ◌++◌ (compare-events path new prev p) same
          ∙ append-pick p.events (config_modified c id now path)
              (differs (kept p.watch.state path) (hash_at disk path)) _
