-- ===== src/Logs/Tail.antt =====
-- internal/logs/tail.go: one followed file, from the bytes that are added to it to the entries of
-- its lines. The parser is a parameter. The content of the open file is an argument of `read`,
-- and so is the time, in nanoseconds. A send that the end of the agent interrupts is left out.
pub mod Split
pub mod Account
pub mod Calm
pub mod Rounds
use yomins_agent.Go.Text.{Bytes, codes, bytes_eq, cut, is_empty, trim_right, trim_space}
use yomins_agent.Prelude.Map.{insert}
use yomins_agent.Prelude.{
  ℕ, zero, suc, ◌+◌, Bool, true, false, not, ◌&&◌, ◌||◌, Option, none, some, List, [], ◌∷◌, ◌++◌,
  ◌==◌, ltb, leb, length, take, drop, if◌then◌else◌,
}
use yomins_agent.Logs.Positions.{Position}
use yomins_agent.Logs.Types.{Entry, file_at}

abbrev pub max_line_bytes : ℕ
max_line_bytes = 65_536

abbrev pub read_chunk : ℕ
read_chunk = 262_144

abbrev pub partial_flush : ℕ
partial_flush = 5_000_000_000

-- `tailedFile`; `source` is its spec's, and `cursor` is where the open file is read next.
pub record TailedFile : Type 0 where
  pub path : Bytes
  pub source : Bytes
  pub inode : ℕ
  pub offset : ℕ
  pub partial : Bytes
  pub part_at : ℕ
  pub gone : Bool
  pub ctr : Bytes
  pub image : Bytes
  pub cursor : ℕ

-- The mark behind a line that was cut.
abbrev truncated : Bytes
truncated = 226 ∷ 128 ∷ 166 ∷ codes "[truncated]"

unfoldable pub message : Bytes → Bytes
message line =
    if ltb max_line_bytes (length line) then take max_line_bytes line ++ truncated else line

unfoldable pub with_container : TailedFile → List (Bytes × Bytes) → List (Bytes × Bytes)
unfolding insert is_empty
with_container tf fields =
    let named = insert (codes "container") tf.ctr fields in
    if is_empty tf.ctr
    then fields
    else if is_empty tf.image
    then named
    else insert (codes "image") tf.image named

-- The test for a file that became shorter.
unfoldable pub rewind : Bytes → TailedFile → TailedFile
rewind content tf =
    if ltb (length content) (tf.offset + length tf.partial)
    then record tf { offset = 0; partial = []; cursor = 0 }
    else tf

-- `ReadFull` of at most a chunk.
unfoldable pub chunk : Bytes → TailedFile → Bytes
chunk content tf = take read_chunk (drop tf.cursor content)

unfoldable pub taken : Bytes → TailedFile → TailedFile
unfolding chunk
taken content tf = record tf { partial = []; cursor = tf.cursor + length (chunk content tf) }

-- The test at the end of `read`, for a round that took `n` bytes.
unfoldable pub closing : ℕ → TailedFile × List Entry → TailedFile × List Entry × Bool
unfolding is_empty
closing n (tf, es) = (tf, es, tf.gone && (ltb n read_chunk && is_empty tf.partial))

module _ (parse : Bytes → Entry) where
  unfoldable pub entry_of_line : TailedFile → Bytes → Entry
  unfolding with_container message
  entry_of_line tf line =
      let e = parse (message line) in
      record e {
        source = tf.source;
        path = tf.path;
        fields = with_container tf e.fields;
        ack = some (file_at tf.path (record { inode = tf.inode; offset = tf.offset }));
      }

  -- `emit`, for a line of which `consumed` bytes are taken.
  unfoldable pub emit : TailedFile → Bytes → ℕ → TailedFile × List Entry
  unfolding entry_of_line is_empty trim_space trim_right
  emit tf line consumed =
      let tf' = record tf { offset = tf.offset + consumed } in
      let line' = trim_right (λ c. c == b'\r') line in
      if is_empty (trim_space line') then (tf', []) else (tf', entry_of_line tf' line' ∷ [])

  -- The loop of `read` over the complete lines, with the bytes that are left; each round takes a
  -- byte at least, so the length of the text is fuel enough.
  unfoldable pub emit_lines : ℕ → TailedFile → Bytes → TailedFile × List Entry × Bytes
  unfolding emit cut
  emit_lines zero tf text = (tf, [], text)
  emit_lines (suc fuel) tf text = elim (cut b'\n' text) [
    | none ↦ (tf, [], text)
    | some (line, rest) ↦
        let (tf', es) = emit tf line (length line + 1) in
        let (tf'', more, left) = emit_lines fuel tf' rest in (tf'', es ++ more, left)
  ]

  -- The switch behind the loop: the text that no newline ends.
  unfoldable pub keep_partial : ℕ → TailedFile → Bytes → TailedFile × List Entry
  unfolding emit is_empty
  keep_partial now tf text =
      let (tf', es) = emit tf text (length text) in
      if leb max_line_bytes (length text)
      then (tf', es)
      else if is_empty text
      then (record tf { part_at = 0 }, [])
      else if tf.gone || (not (tf.part_at == 0) && ltb (tf.part_at + partial_flush) now)
      then (record tf' { part_at = 0 }, es)
      else (record tf { partial = text; part_at = if tf.part_at == 0 then now else tf.part_at }, [])

  unfoldable pub read_data : ℕ → TailedFile → Bytes → TailedFile × List Entry
  unfolding emit_lines keep_partial
  read_data now tf text =
      let (tf', es, rest) = emit_lines (length text) tf text in
      let (tf'', last) = keep_partial now tf' rest in (tf'', es ++ last)

  unfoldable pub read_from : ℕ → Bytes → TailedFile → TailedFile × List Entry × Bool
  unfolding taken chunk read_data closing
  read_from now content tf =
      closing (length (chunk content tf))
        (read_data now (taken content tf) (tf.partial ++ chunk content tf))

  -- `read`; the Boolean says that the file is closed and no longer followed.
  unfoldable pub read : ℕ → Bytes → TailedFile → TailedFile × List Entry × Bool
  unfolding rewind read_from
  read now content tf = read_from now content (rewind content tf)
