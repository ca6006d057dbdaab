-- ===== src/Logs/Tail/Calm.antt =====
-- A round of reading in which no partial line is given up.
use yomins_agent.Go.Text.{Bytes, is_empty, trim_space, trim_right}
use yomins_agent.Prelude.{
  ℕ, zero, suc, ◌+◌, ◌≤◌, ◌<◌, false, List, [], ◌∷◌, ◌++◌, ◌==◌, ltb, length, if◌then◌else◌, ◌≡◌,
  refl, sym, ap, ◌∙◌, arith, inl, inr, Bool-cases, append_assoc, append-nil, length-append, take,
  drop, ◌⊎◌,
}
use yomins_agent.Logs.Types.{Entry}
use yomins_agent.Logs.Tail.{
  TailedFile, entry_of_line, with_container, emit, keep_partial, rewind, chunk, taken, read_data,
  closing, read_from, read, read_chunk, max_line_bytes, partial_flush,
}
use yomins_agent.Logs.Tail.Split.{joined, emit_all, emit_lines_lem}
use yomins_agent.Go.Bufio.{lines_of, with_byte}
use yomins_agent.Logs.Tail.Account.{drop-append, moved_to, emit_moves, emit_all_moves}

take-all : (n : ℕ) (xs : Bytes) → length xs ≤ n → take n xs ≡ xs
take-all zero [] h = refl
take-all zero (x ∷ xs) h = absurd (omega arith)
take-all (suc n) [] h = refl
take-all (suc n) (x ∷ xs) h = ap (λ ys. x ∷ ys) (take-all n xs (omega arith))

-- Reading a text in two parts finds the same lines.
abbrev pub ahead : List Bytes → List Bytes × Bytes → List Bytes × Bytes
ahead ls (more, rest) = (ls ++ more, rest)

pub lines_of-append :
    (s t : Bytes) → lines_of (s ++ t) ≡ ahead (lines_of s).0 (lines_of ((lines_of s).1 ++ t))
unfolding lines_of
lines_of-append [] t = refl
lines_of-append (c ∷ s) t = by (lines_of s) (lines_of-append s t)
  where
    by :
        (r : List Bytes × Bytes)
        → lines_of (s ++ t) ≡ ahead r.0 (lines_of (r.1 ++ t))
        → with_byte c (lines_of (s ++ t))
          ≡ ahead (with_byte c r).0 (lines_of ((with_byte c r).1 ++ t))
    by ([], rest) h = elim (Bool-cases (c == b'\n')) [
      | inl end ↦ rw (end, h) refl
      | inr other ↦ rw (other, h) (rw other refl)
    ]
    by (l ∷ ls, rest) h = elim (Bool-cases (c == b'\n')) [
      | inl end ↦ rw (end, h) refl
      | inr other ↦ rw (other, h) refl
    ]

pub lines_of-rest : (s : Bytes) → lines_of (lines_of s).1 ≡ ([], (lines_of s).1)
unfolding lines_of
lines_of-rest [] = refl
lines_of-rest (c ∷ s) = by (lines_of s) (lines_of-rest s)
  where
    by :
        (r : List Bytes × Bytes)
        → lines_of r.1 ≡ ([], r.1)
        → lines_of (with_byte c r).1 ≡ ([], (with_byte c r).1)
    by ([], rest) h = elim (Bool-cases (c == b'\n')) [
      | inl end ↦ rw (end, h) refl
      | inr other ↦ rw (other, h) (rw other refl)
    ]
    by (l ∷ ls, rest) h = elim (Bool-cases (c == b'\n')) [
      | inl end ↦ rw (end, h) refl
      | inr other ↦ rw (other, h) refl
    ]

-- A round in which the partial line stays where it is: it is short, the file is still there, and
-- the partial line has not waited for too long.
abbrev pub Calm : ℕ → TailedFile → Bytes → Type 0
Calm now tf rest =
    (length rest < max_line_bytes)
    × (tf.gone ≡ false)
    × ((tf.part_at ≡ 0) ⊎ (now ≤ tf.part_at + partial_flush))

abbrev pub next_part_at : ℕ → ℕ → Bytes → ℕ
next_part_at now part_at [] = 0
next_part_at now part_at (c ∷ rest) = if part_at == 0 then now else part_at

-- `tf` at another place, with another partial line.
abbrev pub at_place : TailedFile → ℕ → Bytes → ℕ → ℕ → TailedFile
at_place tf offset partial part_at cursor = record tf {
  offset = offset;
  partial = partial;
  part_at = part_at;
  cursor = cursor;
}

-- The file behind a calm round.
abbrev pub after_calm : ℕ → Bytes → TailedFile → TailedFile
after_calm now more tf =
    at_place tf (tf.offset + length (joined (lines_of (tf.partial ++ more)).0))
      (lines_of (tf.partial ++ more)).1
      (next_part_at now tf.part_at (lines_of (tf.partial ++ more)).1) (tf.cursor + length more)

-- The file is read to its end.
abbrev pub IsReadUp : Bytes → TailedFile → Type 0
IsReadUp content tf = (tf.cursor ≡ tf.offset + length tf.partial) × (tf.cursor ≡ length content)

chunk-IsReadUp :
    (content more : Bytes) (tf : TailedFile)
    → IsReadUp content tf
    → length more ≤ read_chunk
    → chunk (content ++ more) tf ≡ more
unfolding chunk
chunk-IsReadUp content more tf (c, d) h =
    ap (λ n. take read_chunk (drop n (content ++ more))) d
    ∙ ap (take read_chunk) (drop-append content more)
    ∙ take-all read_chunk more h

rewind-IsReadUp :
    (content more : Bytes) (tf : TailedFile)
    → IsReadUp content tf
    → rewind (content ++ more) tf ≡ tf
unfolding rewind
rewind-IsReadUp content more tf (c, d) =
    let sizes = length-append content more in
    let long : ltb (length (content ++ more)) (tf.offset + length tf.partial) ≡ false =
      ground (arith, sizes, c, d) in
    rw long refl

module _ (parse : Bytes → Entry) where
  keep_partial-Calm :
      (now : ℕ) (tf : TailedFile) (rest : Bytes)
      → Calm now tf rest
      → tf.partial ≡ []
      → keep_partial parse now tf rest
        ≡ (at_place tf tf.offset rest (next_part_at now tf.part_at rest) tf.cursor, [])
  unfolding keep_partial is_empty
  keep_partial-Calm now tf [] (short, here, fresh) e = ground (arith, e)
  keep_partial-Calm now tf (c ∷ rest) (short, here, fresh) e = ground (arith, e, fresh, here)

  read_data-Calm :
      (now : ℕ) (tf : TailedFile) (s : Bytes)
      → Calm now tf (lines_of s).1
      → tf.partial ≡ []
      → read_data parse now tf s ≡ (
        at_place tf
            (tf.offset + length (joined (lines_of s).0))
            (lines_of s).1
            (next_part_at now tf.part_at (lines_of s).1)
            tf.cursor,
        (emit_all parse tf (lines_of s).0).1,
      )
  unfolding read_data
  read_data-Calm now tf s calm e =
      rw
        (
          emit_lines_lem parse (length s) tf s (omega arith),
          emit_all_moves parse tf (lines_of s).0,
          keep_partial-Calm now (moved_to tf (tf.offset + length (joined (lines_of s).0)))
              (lines_of s).1 calm e,
          append-nil (emit_all parse tf (lines_of s).0).1,
        )
        refl

  emit-at_place :
      (tf : TailedFile) (offset part_at cursor n : ℕ) (partial l : Bytes)
      → (emit parse (at_place tf offset partial part_at cursor) l n).1
        ≡ (emit parse (moved_to tf offset) l n).1
  unfolding emit entry_of_line with_container
  emit-at_place tf offset part_at cursor n partial l =
      elim (Bool-cases (is_empty (trim_space (trim_right (λ c. c == b'\r') l)))) [
        | inl blank ↦ rw blank refl
        | inr full ↦ rw full refl
      ]

  -- Only the offset of a file shows in the entries of its lines.
  pub emit_all-at_place :
      (tf : TailedFile) (offset part_at cursor : ℕ) (partial : Bytes) (ls : List Bytes)
      → (emit_all parse (at_place tf offset partial part_at cursor) ls).1
        ≡ (emit_all parse (moved_to tf offset) ls).1
  unfolding emit_all emit
  emit_all-at_place tf offset part_at cursor partial [] = refl
  emit_all-at_place tf offset part_at cursor partial (l ∷ ls) =
      let n = length l + 1 in
      rw
        (
          emit_moves parse (at_place tf offset partial part_at cursor) l n,
          emit_moves parse (moved_to tf offset) l n,
          emit-at_place tf offset part_at cursor n partial l,
          emit_all-at_place tf (offset + n) part_at cursor partial ls,
        )
        refl

  pub emit_all-append :
      (tf : TailedFile) (ls ms : List Bytes)
      → (emit_all parse tf (ls ++ ms)).1
        ≡ (emit_all parse tf ls).1
          ++ (emit_all parse (moved_to tf (tf.offset + length (joined ls))) ms).1
  unfolding emit_all joined
  emit_all-append tf [] ms = ap (λ n. (emit_all parse (moved_to tf n) ms).1) (omega arith)
  emit_all-append tf (l ∷ ls) ms =
      let n = length l + 1 in
      let sizes = length-append l (b'\n' ∷ joined ls) in
      let far : tf.offset + n + length (joined ls) ≡ tf.offset + length (l ++ b'\n' ∷ joined ls) =
        omega (arith, sizes) in
      rw (emit_moves parse tf l n, emit_all-append (moved_to tf (tf.offset + n)) ls ms, sym far)
        (sym (
          append_assoc (emit parse tf l n).1 (emit_all parse (moved_to tf (tf.offset + n)) ls).1
            (emit_all parse (moved_to tf (tf.offset + n + length (joined ls))) ms).1))

  read_from-chunk :
      (now : ℕ) (content more : Bytes) (tf : TailedFile)
      → chunk content tf ≡ more
      → read_from parse now content tf
        ≡ closing (length more) (
            read_data parse now
              (at_place tf tf.offset [] tf.part_at (tf.cursor + length more))
              (tf.partial ++ more))
  unfolding read_from taken
  read_from-chunk now content more tf e =
      ap
        (λ s. closing (length s) (
          read_data parse now (at_place tf tf.offset [] tf.part_at (tf.cursor + length s))
            (tf.partial ++ s)))
        e

  closing-here :
      (n : ℕ) (tf : TailedFile) (es : List Entry)
      → tf.gone ≡ false
      → closing n (tf, es) ≡ (tf, es, false)
  unfolding closing
  closing-here n tf es here = rw here refl

  pub read-Calm :
      (now : ℕ) (content more : Bytes) (tf : TailedFile)
      → IsReadUp content tf
      → length more ≤ read_chunk
      → Calm now tf (lines_of (tf.partial ++ more)).1
      → read parse now (content ++ more) tf
        ≡ (after_calm now more tf, (emit_all parse tf (lines_of (tf.partial ++ more)).0).1, false)
  unfolding read
  read-Calm now content more tf up few calm =
      ap (read_from parse now (content ++ more)) (rewind-IsReadUp content more tf up)
      ∙ read_from-chunk now (content ++ more) more tf (chunk-IsReadUp content more tf up few)
      ∙ ap (closing (length more)) (
          read_data-Calm now (at_place tf tf.offset [] tf.part_at (tf.cursor + length more))
            (tf.partial ++ more) calm refl)
      ∙ closing-here (length more) _ _ calm.1
      ∙ ap (λ es. (after_calm now more tf, es, false))
          (emit_all-at_place tf tf.offset tf.part_at (tf.cursor + length more) []
            (lines_of (tf.partial ++ more)).0)
