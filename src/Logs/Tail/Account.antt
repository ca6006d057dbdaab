-- ===== src/Logs/Tail/Account.antt =====
-- Every byte of a followed file is accounted for: it is behind the offset, in the partial line, or
-- still to be read.
use yomins_agent.Go.Text.{Bytes, is_empty, trim_right, trim_space}
use yomins_agent.Prelude.{
  ℕ, zero, suc, ◌+◌, ◌<◌, not, ◌&&◌, ◌||◌, List, [], ◌∷◌, ◌++◌, ◌==◌, leb, ltb, length, ◌≡◌, refl,
  sym, ap, ◌∙◌, arith, inl, inr, Bool-cases, append_assoc, length-append, drop, take-append-drop,
  ◌⊎◌,
}
use yomins_agent.Logs.Types.{Entry}
use yomins_agent.Logs.Tail.{
  TailedFile, emit, keep_partial, rewind, chunk, taken, read_data, closing, read_from, read,
  read_chunk, max_line_bytes, partial_flush,
}
use yomins_agent.Logs.Tail.Split.{joined, joined-lines_of, emit_all, emit_lines_lem}
use yomins_agent.Go.Bufio.{lines_of}

drop-nil : (n : ℕ) → drop {A = ℕ} n [] ≡ []
drop-nil zero = refl
drop-nil (suc n) = refl

drop_add : (m n : ℕ) (xs : Bytes) → drop (m + n) xs ≡ drop n (drop m xs)
drop_add zero n xs = ap (λ k. drop k xs) (omega arith)
drop_add (suc m) n [] = drop-nil (suc m + n) ∙ sym (drop-nil n)
drop_add (suc m) n (x ∷ xs) =
    let shift : suc m + n ≡ suc (m + n) = omega arith in
    ap (λ k. drop k (x ∷ xs)) shift ∙ drop_add m n xs

pub drop-append : (xs ys : Bytes) → drop (length xs) (xs ++ ys) ≡ ys
drop-append [] ys = refl
drop-append (x ∷ xs) ys = drop-append xs ys

-- A text at an offset, followed by more of the content.
drop-behind :
    (content s rest : Bytes) (offset : ℕ)
    → drop offset content ≡ s ++ rest
    → drop (offset + length s) content ≡ rest
drop-behind content s rest offset h =
    drop_add offset (length s) content ∙ ap (drop (length s)) h ∙ drop-append s rest

abbrev pub moved_to : TailedFile → ℕ → TailedFile
moved_to tf n = record tf { offset = n }

-- The partial line is what the file holds between the offset and the cursor.
abbrev pub Follows : Bytes → TailedFile → Type 0
Follows content tf =
    (tf.cursor ≡ tf.offset + length tf.partial)
    × (drop tf.offset content ≡ tf.partial ++ drop tf.cursor content)

settled :
    (content s : Bytes) (tf : TailedFile)
    → tf.partial ≡ []
    → tf.cursor ≡ tf.offset + length s
    → drop tf.offset content ≡ s ++ drop tf.cursor content
    → Follows content (moved_to tf (tf.offset + length s))
settled content s tf e c h =
    let empty = ap length e in
    (
      omega (arith, empty, c),
      drop-behind content s (drop tf.cursor content) tf.offset h
          ∙ ap (λ p. p ++ drop tf.cursor content) (sym e),
    )

module _ (parse : Bytes → Entry) where
  pub emit_moves :
      (tf : TailedFile) (line : Bytes) (consumed : ℕ)
      → (emit parse tf line consumed).0 ≡ record tf { offset = tf.offset + consumed }
  unfolding emit
  emit_moves tf line consumed =
      elim (Bool-cases (is_empty (trim_space (trim_right (λ c. c == b'\r') line)))) [
        | inl blank ↦ rw blank refl
        | inr full ↦ rw full refl
      ]

  pub emit_all_moves :
      (tf : TailedFile) (ls : List Bytes)
      → (emit_all parse tf ls).0 ≡ record tf { offset = tf.offset + length (joined ls) }
  unfolding emit_all joined
  emit_all_moves tf [] = ap (moved_to tf) (omega arith)
  emit_all_moves tf (l ∷ ls) =
      emit_all_moves (emit parse tf l (length l + 1)).0 ls
      ∙ ap (λ t. moved_to t (t.offset + length (joined ls))) (emit_moves tf l (length l + 1))
      ∙ ap (moved_to tf) (omega (arith, length-append l (b'\n' ∷ joined ls)))

  keep_partial-Follows :
      (now : ℕ) (content s : Bytes) (tf : TailedFile)
      → tf.partial ≡ []
      → tf.cursor ≡ tf.offset + length s
      → drop tf.offset content ≡ s ++ drop tf.cursor content
      → Follows content (keep_partial parse now tf s).0
  unfolding keep_partial is_empty
  keep_partial-Follows now content [] tf e c h =
      let empty = ap length e in
      (omega (arith, empty, c), h ∙ ap (λ p. p ++ drop tf.cursor content) (sym e))
  keep_partial-Follows now content (b ∷ s) tf e c h =
      let at_end = settled content (b ∷ s) tf e c h in
      let moved = emit_moves tf (b ∷ s) (length (b ∷ s)) in
      elim (Bool-cases (leb max_line_bytes (length (b ∷ s)))) [
        | inl long ↦ rw (long, moved) at_end
        | inr short ↦
            elim (Bool-cases
              (tf.gone || (not (tf.part_at == 0) && ltb (tf.part_at + partial_flush) now))) [
                | inl due ↦ rw (short, due, moved) at_end
                | inr waits ↦ rw (short, waits) (c, h)
              ]
      ]

  read_data-Follows :
      (now : ℕ) (content s : Bytes) (tf : TailedFile)
      → tf.partial ≡ []
      → tf.cursor ≡ tf.offset + length s
      → drop tf.offset content ≡ s ++ drop tf.cursor content
      → Follows content (read_data parse now tf s).0
  unfolding read_data
  read_data-Follows now content s tf e c h =
      let whole = joined-lines_of s in
      let sizes = length-append (joined (lines_of s).0) (lines_of s).1 in
      let size : length (joined (lines_of s).0 ++ (lines_of s).1) ≡ length s = ap length whole in
      let behind =
        drop-behind content (joined (lines_of s).0) ((lines_of s).1 ++ drop tf.cursor content)
          tf.offset
          (h
            ∙ ap (λ t. t ++ drop tf.cursor content) (sym whole)
            ∙ append_assoc (joined (lines_of s).0) (lines_of s).1 (drop tf.cursor content)) in
      rw (emit_lines_lem parse (length s) tf s (omega arith), emit_all_moves tf (lines_of s).0)
        (keep_partial-Follows now content (lines_of s).1
          (moved_to tf (tf.offset + length (joined (lines_of s).0))) e
          (omega (arith, sizes, size, c)) behind)

  read-Follows-rewound :
      (now : ℕ) (content : Bytes) (tf : TailedFile)
      → Follows content (rewind content tf)
      → Follows content (read parse now content tf).0
  unfolding read read_from closing taken
  read-Follows-rewound now content tf (c, h) =
      let t = rewind content tf in
      let split = take-append-drop read_chunk (drop t.cursor content) in
      let behind =
        drop-behind content (chunk content t) (drop read_chunk (drop t.cursor content)) t.cursor
          (sym split) in
      let sizes = length-append t.partial (chunk content t) in
      read_data-Follows now content (t.partial ++ chunk content t) (taken content t) refl
        (omega (arith, sizes, c))
        (h
          ∙ ap (λ x. t.partial ++ x) (sym split ∙ ap (λ x. chunk content t ++ x) (sym behind))
          ∙ sym (
              append_assoc t.partial (chunk content t)
                (drop (t.cursor + length (chunk content t)) content)))

  rewind-Follows :
      (content : Bytes) (tf : TailedFile)
      → Follows content tf ⊎ (length content < tf.offset + length tf.partial)
      → Follows content (rewind content tf)
  unfolding rewind
  rewind-Follows content tf h =
      elim (Bool-cases (ltb (length content) (tf.offset + length tf.partial))) [
        | inl short ↦ rw short (refl, refl)
        | inr long ↦ elim h [ inl f ↦ rw long f | inr short ↦ absurd (ground (arith, long, short)) ]
      ]

  -- Behind every round, whether it keeps a partial line, gives it up or cuts a long one, the
  -- bytes of the file from the offset on are the partial line and what is still to be read, if
  -- they were before the round or the file has become shorter than what was read of it.
  pub read-Follows :
      (now : ℕ) (content : Bytes) (tf : TailedFile)
      → Follows content tf ⊎ (length content < tf.offset + length tf.partial)
      → Follows content (read parse now content tf).0
  read-Follows now content tf h = read-Follows-rewound now content tf (rewind-Follows content tf h)
