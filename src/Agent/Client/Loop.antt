-- ===== src/Agent/Client/Loop.antt =====
-- connectLoop and connect of cmd/agent/main.go: the agent from one connection to the next.
use m_cloud.Base.{ℕ, suc, Bool, List, [], ◌∷◌, if◌then◌else◌, Option, none, some, get_elem?, ◌>>=◌}
use m_cloud.Base.Int.{ℤ}
use m_cloud.Protocol.{Message, AgentInfo, MachineMetrics, new_message, type_terminal_output}
use m_cloud.Agent.Terminal.{Read, stream_round}
use m_cloud.Agent.Client.{
  Agent, Codec, World, send, at_shell, register, push_metrics, handle_message,
}

-- What the goroutines do: a frame is handled, which is the message that json.Unmarshal reads from
-- it or `none`, with whether a shell would start; a tick of either timer, with what is collected;
-- and a round of StreamOutput for the session at a place, whose bytes are sent on at once.
-- `exit_timer` is the moment at which the second that a "restart" waits is over: os.Exit then ends
-- the process.
pub data Event : Type 0 where
  frame : Bool → Option Message → Event
  heartbeat_tick : AgentInfo → Event
  metrics_tick : ℤ → MachineMetrics → Event
  shell_read : ℕ → Read → Event
  exit_timer : Event

-- One turn of connectLoop. `dialled` is the new connection, or `none` for a bad URL or a failed
-- dial; `during` happens until a read of the connection fails, and `resting` in the five seconds
-- that the loop sleeps.
pub record Attempt : Type 0 where
  pub dialled : Option ℕ
  pub info : AgentInfo
  pub during : List Event
  pub resting : List Event

-- How the loop is left: by a return, by the end of the process, or not yet.
pub data Ending : Type 0 where
  returned ended looping : Ending

module _ (codec : Codec) (world : World) where
  unfoldable pub stream : ℕ → Read → Agent → Agent
  unfolding stream_round send new_message
  stream place read a = elim (get_elem? a.shells place) [
    | none ↦ a
    | some s ↦
        let a' = at_shell place (λ t. (stream_round read t).1) a in
        elim (stream_round read s).0 [
          | none ↦ a'
          | some chunk ↦
              send
                (new_message type_terminal_output a'.id
                  (some (codec.terminal_output (record { session_id = s.id; output = chunk }))))
                a'
        ]
  ]

  unfoldable pub step : Event → Agent → Option Agent
  unfolding stream register push_metrics handle_message
  step (frame started none) a = some a
  step (frame started (some msg)) a = handle_message codec world started msg a
  step (heartbeat_tick info) a = some (register codec info a)
  step (metrics_tick now metrics) a = some (push_metrics codec now metrics a)
  step (shell_read place read) a = some (stream place read a)
  step exit_timer a = if a.restarting then none else some a

  unfoldable pub run : List Event → Agent → Option Agent
  unfolding step
  run [] a = some a
  run (e ∷ es) a = do b ← step e a; run es b

  -- connect, which never returns without an error: a dial that succeeds is followed by a read that
  -- fails in the end.
  unfoldable pub connect : Attempt → Agent → Option Agent
  unfolding run register
  connect t a = elim t.dialled [
    | none ↦ some a
    | some c ↦ do
      b ← run t.during (register codec t.info (record a { conn = some c }))
      some (record b { closed = c ∷ b.closed })
  ]

  -- The turns, how many of them dialled, and how the loop was left.
  unfoldable pub connect_loop : List Attempt → Agent → ℕ × Ending × Agent
  unfolding connect run
  connect_loop [] a = (0, looping, a)
  connect_loop (t ∷ ts) a =
      if a.stopped then (0, returned, a) else elim (do b ← connect t a; run t.resting b) [
        | none ↦ (1, ended, a)
        | some b ↦ let (dials, ending, last) = connect_loop ts b in (suc dials, ending, last)
      ]
