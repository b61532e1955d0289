-- ===== src/Agent/Client/Invariant/Runs.antt =====
-- Every run of the agent, over any number of connections, keeps the invariant.
use m_cloud.Base.{
  ℕ, inl, inr, Bool, true, false, List, [], ◌∷◌, Text, none, some, Option-cases, if◌then◌else◌,
  get_elem?, ◌>>=◌, Every, Every-some, Every-bind,
}
use m_cloud.Protocol.{new_message}
use m_cloud.Agent.Terminal.{Read, stream_round}
use m_cloud.Agent.Client.{Agent, Codec, World, at_shell}
use m_cloud.Agent.Client.Loop.{
  Event, frame, heartbeat_tick, metrics_tick, shell_read, exit_timer, stream, step, run, Attempt,
  Ending, connect, connect_loop,
}
use m_cloud.Agent.Client.Invariant.{Inv, stream_round-Keeps, at_shell-Inv, send-Inv}
use m_cloud.Agent.Client.Invariant.Steps.{
  outer-Inv, register-Inv, push_metrics-Inv, handle_message-Every,
}

module _ (id : Text) where
  stream-Inv :
      (codec : Codec) (world : World) (place : ℕ) (read : Read) (a : Agent)
      → Inv id a
      → Inv id (stream codec world place read a)
  unfolding stream
  stream-Inv codec world place read a h = elim (Option-cases (get_elem? a.shells place)) [
    | inl e ↦ rw (e, stream) h
    | inr (s, e) ↦
        let after : Agent = at_shell place (λ t. (stream_round read t).1) a in
        let kept : Inv id after = at_shell-Inv id _ place a (stream_round-Keeps read) h in
        elim (Option-cases (stream_round read s).0) [
          | inl r ↦ rw (e, r, stream) kept
          | inr (chunk, r) ↦
              rw (e, r, stream) (send-Inv id _ after (λ c. inl (unfold new_message in h.same)) kept)
        ]
  ]

  step-Every :
      (codec : Codec) (world : World) (e : Event) (a : Agent)
      → Inv id a
      → Every (Inv id) (step codec world e a)
  unfolding step
  step-Every codec world (frame started none) a h = Every-some (Inv id) a h
  step-Every codec world (frame started (some msg)) a h =
      handle_message-Every id codec world started msg a h
  step-Every codec world (heartbeat_tick info) a h =
      Every-some (Inv id) _ (register-Inv id codec info a h)
  step-Every codec world (metrics_tick now metrics) a h =
      Every-some (Inv id) _ (push_metrics-Inv id codec now metrics a h)
  step-Every codec world (shell_read place read) a h =
      Every-some (Inv id) _ (stream-Inv codec world place read a h)
  step-Every codec world exit_timer a h = go a.restarting
    where
      go : (b : Bool) → Every (Inv id) (if b then none else some a)
      go true = record { kept = λ b e. cc }
      go false = Every-some (Inv id) a h

  pub run-Every :
      (codec : Codec) (world : World) (es : List Event) (a : Agent)
      → Inv id a
      → Every (Inv id) (run codec world es a)
  unfolding run
  run-Every codec world [] a h = Every-some (Inv id) a h
  run-Every codec world (e ∷ es) a h =
      Every-bind (Inv id) (Inv id) (step codec world e a) _ (step-Every codec world e a h)
        (λ b k. run-Every codec world es b k)

  connect-Every :
      (codec : Codec) (world : World) (t : Attempt) (a : Agent)
      → Inv id a
      → Every (Inv id) (connect codec world t a)
  unfolding connect
  connect-Every codec world t a h = elim (Option-cases t.dialled) [
    | inl e ↦ rw (e, connect) (Every-some (Inv id) a h)
    | inr (c, e) ↦
        rw (e, connect)
          (Every-bind (Inv id) (Inv id) _ _
            (run-Every codec world t.during _ (
              register-Inv id codec t.info _
                (outer-Inv id a (some c) a.closed a.stopped a.restarting h)))
            (λ b k.
              Every-some (Inv id) _
                (outer-Inv id b b.conn (c ∷ b.closed) b.stopped b.restarting k)))
  ]

-- Whatever connections are made and lost, whatever the gateway sends, whatever the system answers
-- and in whatever order the goroutines run, the agent keeps this: all it has sent names it, but for
-- empty messages in place of metrics that cannot be encoded; every entry of `sessions` leads to a
-- terminal session of that ID; each session has been closed and its shell killed once if it is
-- marked closed, and else never; and every file it has changed lies below one of the two permitted
-- directories.
pub connect_loop-Inv :
    (codec : Codec) (world : World) (ts : List Attempt) (id : Text) (a : Agent)
    → Inv id a
    → Inv id (connect_loop codec world ts a).2
unfolding connect_loop
connect_loop-Inv codec world [] id a h = h
connect_loop-Inv codec world (t ∷ ts) id a h =
    if-left a.stopped _ _ h
      (elim (Option-cases (connect codec world t a >>= λ b. run codec world t.resting b)) [
        | inl o ↦ rw o h
        | inr (b, o) ↦ rw o (
            connect_loop-Inv codec world ts id b (
              (Every-bind (Inv id) (Inv id) _ _ (connect-Every id codec world t a h)
                  (λ c k. run-Every id codec world t.resting c k)).kept
                b o))
      ])
  where
    if-left :
        (c : Bool) (x y : ℕ × Ending × Agent)
        → Inv id x.2
        → Inv id y.2
        → Inv id (if c then x else y).2
    if-left true x y hx hy = hx
    if-left false x y hx hy = hy
