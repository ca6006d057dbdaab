-- ===== src/Logs/Tail/Rounds.antt =====
-- A file that grows while it is read round by round.
use yomins_agent.Go.Text.{Bytes}
use yomins_agent.Prelude.{ℕ, ◌≤◌, List, [], ◌∷◌, ◌++◌, length}
use yomins_agent.Logs.Types.{Entry}
use yomins_agent.Logs.Tail.{TailedFile, read, read_chunk}
use yomins_agent.Go.Bufio.{lines_of}
use yomins_agent.Logs.Tail.Calm.{Calm}

-- One round: the time, and what the writer appended before it.
pub record Round : Type 0 where
  pub now : ℕ
  pub more : Bytes

-- All that the writer appends.
unfoldable pub appended : List Round → Bytes
appended [] = []
appended (r ∷ rs) = r.more ++ appended rs

module _ (parse : Bytes → Entry) where
  -- The rounds one after another, on a file that holds `content` before the first of them.
  unfoldable pub read_all : List Round → Bytes → TailedFile → TailedFile × List Entry
  read_all [] content tf = (tf, [])
  read_all (r ∷ rs) content tf =
      let (tf', es, closed) = read parse r.now (content ++ r.more) tf in
      let (tf'', more) = read_all rs (content ++ r.more) tf' in (tf'', es ++ more)

  -- What is appended fits into a round, and no partial line is given up.
  abbrev pub AllCalm : List Round → Bytes → TailedFile → Type 0
  AllCalm [] content tf = Unit
  AllCalm (r ∷ rs) content tf =
      (length r.more ≤ read_chunk)
      × Calm r.now tf (lines_of (tf.partial ++ r.more)).1
      × AllCalm rs (content ++ r.more) (read parse r.now (content ++ r.more) tf).0
