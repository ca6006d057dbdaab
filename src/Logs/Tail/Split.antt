-- ===== src/Logs/Tail/Split.antt =====
-- The lines of a text, independently of how it is read, and how the loop of `read` finds them.
use yomins_agent.Go.Text.{Bytes, cut}
use yomins_agent.Go.Bufio.{with_byte, lines_of}
use yomins_agent.Prelude.{
  ℕ, zero, suc, ◌+◌, ◌≤◌, ◌<◌, none, some, List, [], ◌∷◌, ◌++◌, length, ◌≡◌, refl, ap, ◌∙◌, arith,
  inl, inr, Option-cases,
}
use yomins_agent.Logs.Types.{Entry}
use yomins_agent.Logs.Tail.{TailedFile, emit, emit_lines}

-- The bytes of complete lines.
unfoldable pub joined : List Bytes → Bytes
joined [] = []
joined (l ∷ ls) = l ++ b'\n' ∷ joined ls

abbrev prepend : List Bytes → List Bytes × Bytes → List Bytes × Bytes
prepend ls (more, rest) = (ls ++ more, rest)

with_byte-joined :
    (c : ℕ) (r : List Bytes × Bytes)
    → joined (with_byte c r).0 ++ (with_byte c r).1 ≡ c ∷ joined r.0 ++ r.1
unfolding joined
with_byte-joined c ([], rest) = ground arith
with_byte-joined c (l ∷ ls, rest) = ground arith

-- Splitting keeps every byte.
pub joined-lines_of : (s : Bytes) → joined (lines_of s).0 ++ (lines_of s).1 ≡ s
unfolding lines_of joined
joined-lines_of [] = refl
joined-lines_of (c ∷ s) = with_byte-joined c (lines_of s) ∙ ap (λ t. c ∷ t) (joined-lines_of s)

lines_of-uncut : (s : Bytes) → cut b'\n' s ≡ none → lines_of s ≡ ([], s)
unfolding lines_of cut
lines_of-uncut [] h = refl
lines_of-uncut (c ∷ s) h = elim (Option-cases (cut b'\n' s)) [
  | inl e ↦ ground (arith, lines_of-uncut s e, e)
  | inr ((l, r), e) ↦ ground (arith, e)
]

lines_of-cut :
    (s l r : Bytes) → cut b'\n' s ≡ some (l, r) → lines_of s ≡ (l ∷ (lines_of r).0, (lines_of r).1)
unfolding lines_of cut
lines_of-cut [] l r h = absurd (ground arith)
lines_of-cut (c ∷ s) l r h = elim (Option-cases (cut b'\n' s)) [
  | inl e ↦ ground (arith, e)
  | inr ((l', r'), e) ↦ ground (arith, e, lines_of-cut s l' r' e)
]

length-cut : (s l r : Bytes) → cut b'\n' s ≡ some (l, r) → length r < length s
unfolding cut
length-cut [] l r h = absurd (ground arith)
length-cut (c ∷ s) l r h = elim (Option-cases (cut b'\n' s)) [
  | inl e ↦ ground (arith, e)
  | inr ((l', r'), e) ↦ ground (arith, e, length-cut s l' r' e)
]

module _ (parse : Bytes → Entry) where
  -- The complete lines one after another.
  unfoldable pub emit_all : TailedFile → List Bytes → TailedFile × List Entry
  emit_all tf [] = (tf, [])
  emit_all tf (l ∷ ls) =
      let (tf', es) = emit parse tf l (length l + 1) in
      let (tf'', more) = emit_all tf' ls in (tf'', es ++ more)

  -- The loop of `read` emits exactly the complete lines, in order, and leaves what follows them.
  pub emit_lines_lem :
      (fuel : ℕ) (tf : TailedFile) (s : Bytes)
      → length s ≤ fuel
      → emit_lines parse fuel tf s
        ≡ ((emit_all tf (lines_of s).0).0, (emit_all tf (lines_of s).0).1, (lines_of s).1)
  unfolding emit_lines emit_all lines_of
  emit_lines_lem zero tf [] h = refl
  emit_lines_lem zero tf (c ∷ s) h = absurd (omega arith)
  emit_lines_lem (suc fuel) tf s h = elim (Option-cases (cut b'\n' s)) [
    | inl e ↦ rw (e, emit_lines, lines_of-uncut s e) refl
    | inr ((l, r), e) ↦
        let shorter = length-cut s l r e in
        rw
          (
            e,
            emit_lines,
            lines_of-cut s l r e,
            emit_lines_lem fuel (emit parse tf l (length l + 1)).0 r (omega arith),
          )
          refl
  ]
