-- ===== src/Logs/Follow/Kept.antt =====
-- Only files that the allow list covers are followed, and no more than the limit.
use yomins_agent.Go.Text.{Bytes, equal, equal_iff, bytes_eq}
use yomins_agent.Logs.Allow.{allowed}
use yomins_agent.Logs.Positions.{Positions}
use yomins_agent.Logs.Tail.{TailedFile, read}
use yomins_agent.Logs.Types.{Entry}
use yomins_agent.Logs.Follow.{
  max_files, discover_every, FileSpec, FileSource, Opened, FileSystem, Verdict, new_file_source,
  contains_path, is_followed,
}
use yomins_agent.Logs.Follow.Pass.{
  Search, wanted, open_at, judge, visit, visit_all, visit_globs, visit_specs, mark_gone, discover,
  same_inode, scan, after_read, read_found, read_file, try_open,
}
use yomins_agent.Prelude.Map.{lookup, insert, delete}
use mathlib.Core.Path.{subst}
use yomins_agent.Prelude.{
  suc, ◌<◌, ℕ, ◌+◌, ◌≤◌, Bool, true, false, Option, none, some, List, [], ◌∷◌, leb, length,
  if◌then◌else◌, ◌≡◌, refl, ap, sym, ◌∙◌, arith, inl, inr, Bool-cases,
}

abbrev FileMap : Type 0
FileMap = List (Bytes × TailedFile)

abbrev pub AllAllowed : List Bytes → FileMap → Type 0
AllAllowed allow [] = Unit
AllAllowed allow ((p, tf) ∷ m) = (allowed p allow ≡ true) × AllAllowed allow m

insert-AllAllowed :
    (allow : List Bytes) (p : Bytes) (tf : TailedFile) (m : FileMap)
    → allowed p allow ≡ true
    → AllAllowed allow m
    → AllAllowed allow (insert p tf m)
unfolding insert
insert-AllAllowed allow p tf [] h hs = (h, tt)
insert-AllAllowed allow p tf ((q, old) ∷ m) h (k, ks) = elim (Bool-cases (equal q p)) [
  | inl same ↦ rw same (h, ks)
  | inr other ↦ rw other (k, insert-AllAllowed allow p tf m h ks)
]

-- A file that is in the map is replaced.
replace-AllAllowed :
    (allow : List Bytes) (p : Bytes) (tf old : TailedFile) (m : FileMap)
    → lookup p m ≡ some old
    → AllAllowed allow m
    → AllAllowed allow (insert p tf m) × (length (insert p tf m) ≡ length m)
unfolding insert lookup
replace-AllAllowed allow p tf old [] e h = ground arith
replace-AllAllowed allow p tf old ((q, o) ∷ m) e (k, ks) = elim (Bool-cases (equal q p)) [
  | inl same ↦ rw same ((subst (λ r. allowed r allow ≡ true) ((equal_iff q p).0 same) k, ks), refl)
  | inr other ↦
      let below =
        replace-AllAllowed allow p tf old m
          (sym (ap (λ b. if b then some o else lookup p m) other) ∙ e) ks in
      rw other ((k, below.0), ap suc below.1)
]

delete-AllAllowed :
    (allow : List Bytes) (p : Bytes) (m : FileMap)
    → AllAllowed allow m
    → AllAllowed allow (delete p m) × (length (delete p m) ≤ length m)
unfolding delete
delete-AllAllowed allow p [] h = (tt, omega arith)
delete-AllAllowed allow p ((q, o) ∷ m) (k, ks) =
    let below = delete-AllAllowed allow p m ks in
    elim (Bool-cases (equal q p)) [
      | inl same ↦ rw same (below.0, omega arith)
      | inr other ↦ rw other ((k, below.0), omega arith)
    ]

leb-gt : (a b : ℕ) → leb a b ≡ false → b < a
leb-gt a b h = ground arith

length-insert-le :
    (p : Bytes) (tf : TailedFile) (m : FileMap) → length (insert p tf m) ≤ length m + 1
unfolding insert
length-insert-le p tf [] = omega arith
length-insert-le p tf ((q, o) ∷ m) = ground (arith, length-insert-le p tf m)

module _ (fs : FileSystem) (now : ℕ) where
  mark_gone-AllAllowed :
      (allow : List Bytes) (stays : Bytes → TailedFile → Bool) (m : FileMap)
      → AllAllowed allow m
      → AllAllowed allow (mark_gone fs now stays m) × (length (mark_gone fs now stays m) ≡ length m)
  unfolding mark_gone
  mark_gone-AllAllowed allow stays [] h = (tt, refl)
  mark_gone-AllAllowed allow stays ((p, tf) ∷ m) (k, ks) =
      let below = mark_gone-AllAllowed allow stays m ks in ((k, below.0), ap suc below.1)

-- The allow list stays the same, each file that is followed is on it, and there are not too many.
abbrev pub Keeps : List Bytes → FileSource → Type 0
Keeps allow s = (s.allow ≡ allow) × AllAllowed allow s.files × (length s.files ≤ max_files)

module _ (fs : FileSystem) (now : ℕ) (allow : List Bytes) where
  marked-Keeps :
      (stays : Bytes → TailedFile → Bool) (s : FileSource)
      → Keeps allow s
      → Keeps allow (record s { files = mark_gone fs now stays s.files })
  marked-Keeps stays s (same, h, few) =
      let marked = mark_gone-AllAllowed fs now allow stays s.files h in
      (same, marked.0, omega (arith, marked.1))

  wanted-allowed :
      (list : List Bytes) (p : Bytes) (spec : FileSpec)
      → wanted fs now list p spec ≡ Verdict.to_read
      → allowed p list ≡ true
  unfolding wanted
  wanted-allowed list p spec h = ground arith

  open_at-Keeps :
      (p : Bytes) (spec : FileSpec) (inode size : ℕ) (s : FileSource)
      → allowed p allow ≡ true
      → leb max_files (length s.files) ≡ false
      → Keeps allow s
      → Keeps allow (open_at fs now p spec inode size s)
  unfolding open_at
  open_at-Keeps p spec inode size s ok few (same, h, l) = (
    same,
    insert-AllAllowed allow p _ s.files ok h,
    omega (arith, leb-gt max_files (length s.files) few, length-insert-le),
  )

  judge-Keeps :
      (p : Bytes) (spec : FileSpec) (v : Verdict) (d : Search)
      → (v ≡ Verdict.to_read → allowed p allow ≡ true)
      → Keeps allow d.source
      → Keeps allow (judge fs now p spec v d).source
  unfolding judge
  judge-Keeps p spec Verdict.skip d ok h = h
  judge-Keeps p spec Verdict.outside_allow d ok h = h
  judge-Keeps p spec Verdict.to_read d ok h =
      elim (Bool-cases (leb max_files (length d.source.files))) [
        | inl full ↦ rw full h
        | inr room ↦ rw room (by (fs.open_file p) room)
      ]
    where
      by :
          (o : Opened)
          → leb max_files (length d.source.files) ≡ false
          → Keeps allow (try_open fs now p spec o (record d { seen = p ∷ d.seen })).source
      by (Opened.opened inode size) room = open_at-Keeps p spec inode size d.source (ok refl) room h
      by Opened.no_permission room = h
      by Opened.failed room = h

  visit-Keeps :
      (spec : FileSpec) (p : Bytes) (d : Search)
      → Keeps allow d.source
      → Keeps allow (visit fs now spec p d).source
  unfolding visit
  visit-Keeps spec p d h = elim (Bool-cases (contains_path p d.seen)) [
    | inl old ↦ rw old h
    | inr new ↦ elim (Bool-cases (is_followed (lookup p d.source.files))) [
      | inl there ↦ rw (new, there) h
      | inr absent ↦
          rw (new, absent)
            (judge-Keeps p spec (wanted fs now d.source.allow p spec) d
              (λ e.
                subst (λ list. allowed p list ≡ true) h.0 (wanted-allowed d.source.allow p spec e))
              h)
    ]
  ]

  visit_all-Keeps :
      (spec : FileSpec) (ps : List Bytes) (d : Search)
      → Keeps allow d.source
      → Keeps allow (visit_all fs now spec ps d).source
  unfolding visit_all
  visit_all-Keeps spec [] d h = h
  visit_all-Keeps spec (p ∷ ps) d h =
      visit_all-Keeps spec ps (visit fs now spec p d) (visit-Keeps spec p d h)

  visit_globs-Keeps :
      (spec : FileSpec) (gs : List Bytes) (d : Search)
      → Keeps allow d.source
      → Keeps allow (visit_globs fs now spec gs d).source
  unfolding visit_globs
  visit_globs-Keeps spec [] d h = h
  visit_globs-Keeps spec (g ∷ gs) d h =
      visit_globs-Keeps spec gs (visit_all fs now spec (fs.glob g) d)
        (visit_all-Keeps spec (fs.glob g) d h)

  visit_specs-Keeps :
      (specs : List FileSpec) (d : Search)
      → Keeps allow d.source
      → Keeps allow (visit_specs fs now specs d).source
  unfolding visit_specs
  visit_specs-Keeps [] d h = h
  visit_specs-Keeps (spec ∷ specs) d h =
      visit_specs-Keeps specs (visit_globs fs now spec spec.globs d)
        (visit_globs-Keeps spec spec.globs d h)

  discover-Keeps : (s : FileSource) → Keeps allow s → Keeps allow (discover fs now s)
  unfolding discover
  discover-Keeps s h =
      let d =
        visit_specs fs now s.specs (record { source = s; seen = []; denied = 0; outside = 0 }) in
      marked-Keeps (λ p tf. contains_path p d.seen)
        (record d.source { denied = d.denied; outside = d.outside })
        (visit_specs-Keeps s.specs (record { source = s; seen = []; denied = 0; outside = 0 }) h)

  scan-Keeps : (s : FileSource) → Keeps allow s → Keeps allow (scan fs now s)
  unfolding scan
  scan-Keeps s h = elim (Bool-cases (leb (s.last_found + discover_every) now)) [
    | inl due ↦ rw due (
        marked-Keeps (λ p tf. same_inode fs now (fs.stat p) tf)
          (discover fs now (record s { last_found = now }))
          (discover-Keeps (record s { last_found = now }) h))
    | inr soon ↦ rw soon (marked-Keeps (λ p tf. same_inode fs now (fs.stat p) tf) s h)
  ]

  after_read-Keeps :
      (p : Bytes) (old : TailedFile) (r : TailedFile × List Entry × Bool) (s : FileSource)
      → lookup p s.files ≡ some old
      → Keeps allow s
      → Keeps allow (after_read fs now p r s).0
  unfolding after_read
  after_read-Keeps p old (tf, es, false) s e (same, h, few) =
      let replaced = replace-AllAllowed allow p tf old s.files e h in
      (same, replaced.0, omega (arith, replaced.1))
  after_read-Keeps p old (tf, es, true) s e (same, h, few) =
      let less = delete-AllAllowed allow tf.path s.files h in (same, less.0, omega (arith, less.1))

  read_found-Keeps :
      (parse : Bytes → Entry) (content p : Bytes) (o : Option TailedFile) (s : FileSource)
      → lookup p s.files ≡ o
      → Keeps allow s
      → Keeps allow (read_found fs now parse content p o s).0
  unfolding read_found
  read_found-Keeps parse content p none s e h = h
  read_found-Keeps parse content p (some tf) s e h =
      after_read-Keeps p tf (read parse now content tf) s e h

-- What the source does, each with the time and what the file system answers: a scan, or a read of
-- one file that is followed.
pub data Move : Type 1 where
  scans : FileSystem → ℕ → Move
  reads : FileSystem → ℕ → (Bytes → Entry) → Bytes → Bytes → Move

unfoldable pub move : Move → FileSource → FileSource
move (Move.scans fs now) s = scan fs now s
move (Move.reads fs now parse content p) s = (read_file fs now parse content p s).0

unfoldable pub moves : List Move → FileSource → FileSource
moves [] s = s
moves (m ∷ ms) s = moves ms (move m s)

move-Keeps :
    (allow : List Bytes) (m : Move) (s : FileSource) → Keeps allow s → Keeps allow (move m s)
unfolding move read_file
move-Keeps allow (Move.scans fs now) s h = scan-Keeps fs now allow s h
move-Keeps allow (Move.reads fs now parse content p) s h =
    read_found-Keeps fs now allow parse content p (lookup p s.files) s refl h

moves-Keeps :
    (allow : List Bytes) (ms : List Move) (s : FileSource)
    → Keeps allow s
    → Keeps allow (moves ms s)
unfolding moves
moves-Keeps allow [] s h = h
moves-Keeps allow (m ∷ ms) s h = moves-Keeps allow ms (move m s) (move-Keeps allow m s h)

-- Whatever the file system answers, over any scans and reads from a new source the allow list stays
-- the same, every file that is followed is on it, and no more files are followed than the limit.
pub new_file_source-Keeps :
    (specs : List FileSpec) (allow : List Bytes) (positions : Positions) (started : ℕ)
    (ms : List Move)
    → Keeps allow (moves ms (new_file_source specs allow positions started))
unfolding new_file_source
new_file_source-Keeps specs allow positions started ms =
    moves-Keeps allow ms (new_file_source specs allow positions started) (refl, tt, omega arith)
