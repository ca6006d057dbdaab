-- ===== src/Logs/Positions/Restart.antt =====
-- What a restart finds of the positions.
use yomins_agent.Go.Text.{Bytes, equal, equal_iff, bytes_eq}
use yomins_agent.Prelude.Map.{lookup, lookup-insert}
use yomins_agent.Prelude.{Bool, true, false, List, [], ◌∷◌, if◌then◌else◌, ◌≡◌, arith, ◌↔◌}
use yomins_agent.Logs.Positions.{
  Position, Positions, same_position, or_zero, or_empty, file, set_file, forget, set_journal_cursor,
  save,
}

-- The calls that change the positions; `saves` carries whether the disk takes the file.
pub data Op : Type 0 where
  sets : Bytes → Position → Op
  forgets : Bytes → Op
  sets_journal : Bytes → Op
  saves : Bool → Op

unfoldable pub apply : Op → Positions → Positions
unfolding set_file forget set_journal_cursor save
apply (sets path pos) p = set_file path pos p
apply (forgets path) p = forget path p
apply (sets_journal c) p = set_journal_cursor c p
apply (saves writes) p = (save writes p).0

unfoldable pub run : List Op → Positions → Positions
run [] p = p
run (x ∷ xs) p = run xs (apply x p)

-- Every save in the list succeeds.
abbrev pub Written : List Op → Type 0
Written [] = Unit
Written (saves writes ∷ xs) = (writes ≡ true) × Written xs
Written (_ ∷ xs) = Written xs

-- The file is up to date unless the positions are dirty.
abbrev Current : Positions → Type 0
Current p = (p.has_path ≡ true) × (if p.dirty then Unit else or_empty p.disk ≡ p.memory)

-- A save behind a failed one writes nothing and reports no error, so the positions that the
-- failed one did not write stay unwritten until another one changes.
pub failed_save_forgotten :
    (writes : Bool) (p : Positions) → save writes (save false p).0 ≡ ((save false p).0, true)
unfolding save
failed_save_forgotten writes p = ground arith

same_position_iff : (p q : Position) → (same_position p q ≡ true) ↔ (p ≡ q)
same_position_iff p q = ground arith

-- Behind a call of `SetFile`, its path has the new position and every other path the one it had,
-- where a path that is not there counts as at position zero.
pub file-set_file :
    (path asked : Bytes) (pos : Position) (p : Positions)
    → or_zero (file asked (set_file path pos p))
      ≡ (if equal path asked then pos else or_zero (file asked p))
unfolding file set_file
file-set_file path asked pos p = ground (
  arith,
  lookup-insert path asked pos p.memory.files,
  equal_iff path asked,
  same_position_iff (or_zero (lookup path p.memory.files)) pos,
)
