-- ===== src/Agent/Client/Restarting.antt =====
-- How a "restart" command ends the process.
use m_cloud.Base.{
  ◌≡◌, refl, ap, ◌∙◌, inl, inr, Bool, true, false, List, [], ◌∷◌, ◌++◌, arith, codes, ◌==◌, ==_iff,
  none, some, Option-cases, Bool-cases, Every, Every-some, Every-if, Every-decoded,
}
use m_cloud.Protocol.{
  Message, Command, type_command, type_terminal_input, type_terminal_resize, type_exec_request,
  type_file_upload, type_file_download,
}
use m_cloud.Agent.Client.Answers.{handle_terminal_input-IsInner, handle_terminal_resize-IsInner}
use m_cloud.Agent.Client.{
  Agent, Codec, World, register, push_metrics, handle_command, handle_message,
}
use m_cloud.Agent.Client.Loop.{
  Event, frame, heartbeat_tick, metrics_tick, shell_read, exit_timer, stream, step, run,
}
use m_cloud.Agent.Client.Stopping.{
  is_restart, IsQuiet, Flag, flags, send_flag, exec_flag, upload_flag, download_flag, stream_flag,
  step_quiet,
}

-- The second of a "restart" runs.
abbrev Restarts : Agent → Type 0
Restarts b = b.restarting ≡ true

by_flags : (a b : Agent) → flags b ≡ flags a → Restarts a → Restarts b
by_flags a b e h = ap (λ (p : Bool × Bool). p.1) e ∙ h

command_kept : (cmd : Command) (a : Agent) → Restarts a → Every Restarts (handle_command cmd a)
unfolding handle_command
command_kept cmd a h = record { kept = λ b e. ground arith }

module _ (codec : Codec) (world : World) where
  message_kept :
      (started : Bool) (msg : Message) (a : Agent)
      → Restarts a
      → Every Restarts (handle_message codec world started msg a)
  unfolding handle_message
  message_kept started msg a h =
      let same = λ (b : Agent) (e : flags b ≡ flags a). Every-some Restarts b (by_flags a b e h) in
      Every-if Restarts (msg.type == type_terminal_input) _ _
        (λ q.
          Every-decoded Restarts (codec.terminal_input msg.payload) a _ h
            (λ v. same _ (ap flags (handle_terminal_input-IsInner a started v))))
        (λ q.
          Every-if Restarts (msg.type == type_terminal_resize) _ _
            (λ q.
              Every-decoded Restarts (codec.terminal_resize msg.payload) a _ h
                (λ v. same _ (ap flags (handle_terminal_resize-IsInner a v))))
            (λ q.
              Every-if Restarts (msg.type == type_exec_request) _ _
                (λ q.
                  Every-decoded Restarts (codec.exec_request msg.payload) a _ h
                    (λ v. same _ (exec_flag codec world msg.req_id v a)))
                (λ q.
                  Every-if Restarts (msg.type == type_file_upload) _ _
                    (λ q.
                      Every-decoded Restarts (codec.file_upload msg.payload) a _ h
                        (λ v. same _ (upload_flag codec world msg.req_id v a)))
                    (λ q.
                      Every-if Restarts (msg.type == type_file_download) _ _
                        (λ q.
                          Every-decoded Restarts (codec.file_download msg.payload) a _ h
                            (λ v. same _ (download_flag codec world msg.req_id v a)))
                        (λ q.
                          Every-if Restarts (msg.type == type_command) _ _
                            (λ q.
                              Every-decoded Restarts (codec.command msg.payload) a _ h
                                (λ v. command_kept v a h))
                            (λ q. Every-some Restarts a h))))))

  step_kept : (e : Event) (a : Agent) → Restarts a → Every Restarts (step codec world e a)
  unfolding step register push_metrics
  step_kept (frame started none) a h = Every-some Restarts a h
  step_kept (frame started (some msg)) a h = message_kept started msg a h
  step_kept (heartbeat_tick info) a h =
      Every-some Restarts _ (by_flags a (register codec info a) (send_flag _ a) h)
  step_kept (metrics_tick now metrics) a h =
      Every-some Restarts _ (by_flags a (push_metrics codec now metrics a) (send_flag _ a) h)
  step_kept (shell_read place read) a h =
      Every-some Restarts _
        (by_flags a (stream codec world place read a) (stream_flag codec world true place read a) h)
  step_kept exit_timer a h = record { kept = λ b e. ground arith }

  exits : (a : Agent) → Restarts a → step codec world exit_timer a ≡ none
  unfolding step
  exits a h = ground arith

  -- Whatever else is handled before the second is over, the process ends with it at the latest.
  run_exits :
      (middle after : List Event) (a : Agent)
      → Restarts a
      → run codec world (middle ++ exit_timer ∷ after) a ≡ none
  unfolding run
  run_exits [] after a h = rw (exits a h) refl
  run_exits (e ∷ middle) after a h = elim (Option-cases (step codec world e a)) [
    | inl q ↦ rw q refl
    | inr (b, q) ↦ rw q (run_exits middle after b ((step_kept e a h).kept b q))
  ]

  restart_message :
      (started : Bool) (msg : Message) (a : Agent)
      → is_restart codec (frame started (some msg)) ≡ true
      → handle_message codec world started msg a ≡ some (record a { restarting = true })
  unfolding handle_message handle_command ◌==◌ type_command type_terminal_input type_terminal_resize
      type_exec_request type_file_upload type_file_download
  restart_message started msg a asked = elim (Bool-cases (msg.type == type_command)) [
    | inr q ↦ absurd (let no : false ≡ true = rw q at asked in cc no)
    | inl q ↦ elim (Option-cases (codec.command msg.payload)) [
      | inl d ↦ absurd (let no : false ≡ true = rw (q, d) at asked in cc no)
      | inr (cmd, d) ↦
          let type : msg.type ≡ type_command = (==_iff msg.type type_command).0 q in
          let name : cmd.name ≡ codes "restart" =
            (==_iff cmd.name (codes "restart")).0 (rw (q, d) at asked) in
          rw (type, d, name, handle_message) refl
    ]
  ]

  restart_step :
      (e : Event) (a : Agent)
      → is_restart codec e ≡ true
      → step codec world e a ≡ some (record a { restarting = true })
  unfolding step
  restart_step (frame started none) a asked = cc
  restart_step (frame started (some msg)) a asked = restart_message started msg a asked
  restart_step (heartbeat_tick info) a asked = cc
  restart_step (metrics_tick now metrics) a asked = cc
  restart_step (shell_read place read) a asked = cc
  restart_step exit_timer a asked = cc

  pub run_restart :
      (before : List Event) (e : Event) (middle after : List Event) (a : Agent)
      → IsQuiet codec before
      → is_restart codec e ≡ true
      → Flag false a
      → run codec world (before ++ e ∷ (middle ++ exit_timer ∷ after)) a ≡ none
  unfolding run
  run_restart [] e middle after a q asked h =
      rw (restart_step e a asked) (run_exits middle after (record a { restarting = true }) refl)
  run_restart (d ∷ before) e middle after a q asked h =
      let g = step_quiet codec world false d a q.0 h in
      rw g.is (run_restart before e middle after g.result q.1 asked g.good)
