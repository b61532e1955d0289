-- ===== src/Audit.antt =====
-- internal/master/audit/audit.go: the audit log. `lines` are the entries that were appended to the
-- file; a write to it is taken to go through. A nil logger is `none`. A time is in nanoseconds since
-- 1970, and the zero time is `none`.
pub mod Bounds
use m_cloud.Base.{
  ℕ, ◌-◌, List, [], ◌∷◌, ◌++◌, Text, ltb, if◌then◌else◌, Option, none, some, length, drop,
}

pub record Entry : Type 0 where
  pub timestamp : Option ℕ
  pub action : Text
  pub user : Text
  pub ip : Text
  pub agent_id : Text
  pub detail : Text

pub record Logger : Type 0 where
  pub lines : List Entry
  pub entries : List Entry
  pub max_size : ℕ

-- The logger that NewLogger returns, where the file can be opened.
unfoldable pub new : Logger
new = record { lines = []; entries = []; max_size = 1000 }

-- if entry.Timestamp.IsZero() { entry.Timestamp = time.Now() }
unfoldable pub stamped : ℕ → Entry → Entry
stamped now entry = elim entry.timestamp [
  | none ↦ record entry { timestamp = some now }
  | some t ↦ entry
]

unfoldable pub log : ℕ → Entry → Option Logger → Option Logger
log now entry none = none
log now entry (some l) =
    let entry = stamped now entry in
    let entries = l.entries ++ entry ∷ [] in
    some (record l {
      lines = l.lines ++ entry ∷ [];
      entries =
          if ltb l.max_size (length entries)
          then drop (length entries - l.max_size) entries
          else entries;
    })

-- Recent, for a number that is not negative.
unfoldable pub recent : ℕ → Option Logger → List Entry
recent n none = []
recent n (some l) =
    let n = if ltb (length l.entries) n then length l.entries else n in
    drop (length l.entries - n) l.entries
