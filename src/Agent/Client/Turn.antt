-- ===== src/Agent/Client/Turn.antt =====
-- One turn of the loop of the agent.
use m_cloud.Base.{
  ℕ, suc, ◌≡◌, refl, ap, ◌∙◌, inl, inr, Bool, true, false, List, [], ◌∷◌, ◌++◌, arith, codes, ◌==◌,
  ==_iff, Option, none, some, Option-cases, Bool-cases, if◌then◌else◌, Goes, Goes-some, Goes-bind,
  length, ◌>>=◌, eqb,
}
use m_cloud.Protocol.{
  Message, Command, type_command, type_terminal_input, type_terminal_resize, type_exec_request,
  type_file_upload, type_file_download,
}
use m_cloud.Agent.Client.{Agent, Codec, World, register, handle_command, handle_message}
use m_cloud.Agent.Client.Loop.{
  Event, frame, heartbeat_tick, metrics_tick, shell_read, exit_timer, step, run, Attempt, returned,
  looping, connect, connect_loop,
}
use m_cloud.Agent.Client.Stopping.{is_shutdown, IsQuiet, Flag, send_flag, step_quiet, run_quiet}

first_shutdown :
    (cmd : Command) (a : Agent)
    → (cmd.name == codes "shutdown") ≡ true
    → Flag false a
    → Goes (Flag true) (handle_command cmd a)
unfolding handle_command ◌==◌
first_shutdown cmd a e h =
    let name : cmd.name ≡ codes "shutdown" = (==_iff cmd.name (codes "shutdown")).0 e in
    let running : a.stopped ≡ false = ap (λ (p : Bool × Bool). p.0) h in
    rw (name, running, handle_command)
      (Goes-some (Flag true) (record a { stopped = true })
        (ap (λ (p : Bool × Bool). (true, p.1)) h))

module _ (codec : Codec) (world : World) where
  shutdown_message :
      (started : Bool) (msg : Message) (a : Agent)
      → is_shutdown codec (frame started (some msg)) ≡ true
      → Flag false a
      → Goes (Flag true) (handle_message codec world started msg a)
  unfolding handle_message ◌==◌ type_command type_terminal_input type_terminal_resize
      type_exec_request type_file_upload type_file_download
  shutdown_message started msg a asked h = elim (Bool-cases (msg.type == type_command)) [
    | inr q ↦ absurd (let no : false ≡ true = rw q at asked in cc no)
    | inl q ↦ elim (Option-cases (codec.command msg.payload)) [
      | inl d ↦ absurd (let no : false ≡ true = rw (q, d) at asked in cc no)
      | inr (cmd, d) ↦
          let type : msg.type ≡ type_command = (==_iff msg.type type_command).0 q in
          rw (type, d, handle_message) (first_shutdown cmd a (rw (q, d) at asked) h)
    ]
  ]

  step_shutdown :
      (e : Event) (a : Agent)
      → is_shutdown codec e ≡ true
      → Flag false a
      → Goes (Flag true) (step codec world e a)
  unfolding step
  step_shutdown (frame started none) a asked h = cc
  step_shutdown (frame started (some msg)) a asked h = shutdown_message started msg a asked h
  step_shutdown (heartbeat_tick info) a asked h = cc
  step_shutdown (metrics_tick now metrics) a asked h = cc
  step_shutdown (shell_read place read) a asked h = cc
  step_shutdown exit_timer a asked h = cc

  pub run_shutdown :
      (before : List Event) (e : Event) (after : List Event) (a : Agent)
      → IsQuiet codec before
      → is_shutdown codec e ≡ true
      → IsQuiet codec after
      → Flag false a
      → Goes (Flag true) (run codec world (before ++ e ∷ after) a)
  unfolding run
  run_shutdown [] e after a q asked r h =
      Goes-bind (Flag true) (Flag true) (step codec world e a) _ (step_shutdown e a asked h)
        (λ b k. run_quiet codec world true after b r k)
  run_shutdown (d ∷ before) e after a q asked r h =
      Goes-bind (Flag false) (Flag true) (step codec world d a) _
        (step_quiet codec world false d a q.0 h)
        (λ b k. run_shutdown before e after b q.1 asked r k)

  -- A turn of the loop, with the sleep at its end.
  abbrev pub turn : Attempt → Agent → Option Agent
  turn t a = connect codec world t a >>= λ b. run codec world t.resting b

  pub connected :
      (t : Attempt) (c : ℕ) (f g : Bool) (a : Agent)
      → t.dialled ≡ some c
      → Flag f a
      → ((b : Agent) → Flag f b → Goes (Flag g) (run codec world t.during b))
      → Goes (Flag g) (connect codec world t a)
  unfolding connect register
  connected t c f g a d h k =
      rw (d, connect)
        (Goes-bind (Flag g) (Flag g) _ _ (k _ (send_flag _ (record a { conn = some c }) ∙ h))
          (λ b e. Goes-some (Flag g) (record b { closed = c ∷ b.closed }) e))

  pub connect_quiet :
      (t : Attempt) (f : Bool) (a : Agent)
      → IsQuiet codec t.during
      → Flag f a
      → Goes (Flag f) (connect codec world t a)
  unfolding connect
  connect_quiet t f a q h = elim (Option-cases t.dialled) [
    | inl d ↦ rw (d, connect) (Goes-some (Flag f) a h)
    | inr (c, d) ↦ connected t c f f a d h (λ b e. run_quiet codec world f t.during b q e)
  ]

  pub turn_to :
      (t : Attempt) (f : Bool) (a : Agent)
      → IsQuiet codec t.resting
      → Goes (Flag f) (connect codec world t a)
      → Goes (Flag f) (turn t a)
  turn_to t f a q g =
      Goes-bind (Flag f) (Flag f) (connect codec world t a) _ g
        (λ b k. run_quiet codec world f t.resting b q k)

  pub loop_turn :
      (t : Attempt) (ts : List Attempt) (a b : Agent)
      → a.stopped ≡ false
      → turn t a ≡ some b
      → connect_loop codec world (t ∷ ts) a
        ≡ (let rest = connect_loop codec world ts b in (suc rest.0, rest.1, rest.2))
  unfolding connect_loop
  loop_turn t ts a b h e = rw (h, e, connect_loop) refl

  pub loop_stopped :
      (ts : List Attempt) (a : Agent)
      → a.stopped ≡ true
      → connect_loop codec world ts a ≡ (0, (if eqb (length ts) 0 then looping else returned), a)
  unfolding connect_loop
  loop_stopped [] a h = refl
  loop_stopped (t ∷ ts) a h = rw (h, connect_loop) (ground arith)

pub calm : (f : Bool) (a : Agent) → a.stopped ≡ f → a.restarting ≡ false → Flag f a
calm f a e r = both e ∙ with_first r
  where
    both : {b c : Bool} → b ≡ c → ◌≡◌ {A = Bool × Bool} (b, a.restarting) (c, a.restarting)
    both q = rw q refl

    with_first : {b c : Bool} → b ≡ c → ◌≡◌ {A = Bool × Bool} (f, b) (f, c)
    with_first q = rw q refl

pub first : (f : Bool) (a : Agent) → Flag f a → a.stopped ≡ f
first f a e = ap (λ (p : Bool × Bool). p.0) e

pub second : (f : Bool) (a : Agent) → Flag f a → a.restarting ≡ false
second f a e = ap (λ (p : Bool × Bool). p.1) e
