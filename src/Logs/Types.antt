-- ===== src/Logs/Types.antt =====
-- internal/logs/entry.go, and what the acknowledgement of an entry does: it stands for the
-- closure that a source puts into the entry.
use yomins_agent.Go.Text.{Bytes}
use yomins_agent.Prelude.{ℕ, Option, List}
use yomins_agent.Logs.Positions.{Position}

pub data Ack : Type 0 where
  file_at : Bytes → Position → Ack
  journal_at : Bytes → Ack

-- `Entry`; a time of 0 is Go's zero time, and `none` a nil closure.
pub record Entry : Type 0 where
  pub time : ℕ
  pub msg : Bytes
  pub source : Bytes
  pub path : Bytes
  pub unit : Bytes
  pub level : Bytes
  pub fields : List (Bytes × Bytes)
  pub ack : Option Ack
