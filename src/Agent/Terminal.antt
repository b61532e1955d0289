-- ===== src/Agent/Terminal.antt =====
-- internal/agent/terminal/terminal.go: one shell behind a pseudo terminal. A session lives on while
-- its goroutines hold it, so that the agent keeps them in a list and names them by their place.
-- A write to an open terminal is taken to go through, and so is a resize of it; on a closed one both
-- fail, and the agent ignores these errors.
use m_cloud.Base.{
  ℕ, Bool, true, false, List, [], ◌∷◌, ◌++◌, Text, if◌then◌else◌, suc, Option, none, some,
}

-- `closed` is the flag of sync.Once, and `kills` counts the runs of the function that closes the
-- channel `done` and the terminal and kills the shell.
pub record Session : Type 0 where
  pub id : Text
  pub cols : ℕ
  pub rows : ℕ
  pub typed : List Text
  pub closed : Bool
  pub kills : ℕ

-- NewSession; `started` is whether pty.StartWithSize starts the shell.
unfoldable pub new_session : Bool → Text → ℕ → ℕ → Option Session
new_session started id cols rows =
    if started
    then some (record { id = id; cols = cols; rows = rows; typed = []; closed = false; kills = 0 })
    else none

unfoldable pub write_input : Text → Session → Session
write_input chunk s = if s.closed then s else record s { typed = s.typed ++ chunk ∷ [] }

unfoldable pub resize : ℕ → ℕ → Session → Session
resize cols rows s = if s.closed then s else record s { cols = cols; rows = rows }

unfoldable pub close : Session → Session
close s = if s.closed then s else record s { closed = true; kills = suc s.kills }

-- What StreamOutput's read gives: bytes, or an error, which is also how a shell that has ended
-- shows.
pub data Read : Type 0 where
  bytes : Text → Read
  failed : Read

-- One round of StreamOutput: the bytes for the channel, and the session. It stops once the session
-- is closed.
unfoldable pub stream_round : Read → Session → Option Text × Session
unfolding close
stream_round read s = if s.closed then (none, s) else at read
  where
    at : Read → Option Text × Session
    at failed = (none, close s)
    at (bytes []) = (none, s)
    at (bytes (c ∷ chunk)) = (some (c ∷ chunk), s)
