-- ===== src/Agent/Client/Stopping.antt =====
-- How the loop of the agent goes on and how it ends.
use m_cloud.Base.{
  ℕ, ◌≡◌, refl, ap, ◌∙◌, inl, inr, Bool, true, false, List, [], ◌∷◌, arith, Text, codes, ◌==◌, All,
  none, some, Option-cases, Bool-cases, if◌then◌else◌, Goes, Goes-some, Goes-if, Goes-decoded,
  Goes-bind, get_elem?,
}
use m_cloud.Protocol.{
  Message, Command, ExecRequest, FileUpload, FileDownload, type_command, type_terminal_input,
  type_terminal_resize, type_exec_request, type_file_upload, type_file_download,
}
use m_cloud.Agent.Files.{handle_file_upload}
use m_cloud.Agent.Terminal.{Read, stream_round}
use m_cloud.Agent.Client.Answers.{
  IsInner, handle_terminal_input-IsInner, handle_terminal_resize-IsInner,
}
use m_cloud.Agent.Client.{
  Agent, Codec, World, at_shell, send, answer, register, push_metrics, upload, download,
  handle_exec_request, handle_command, handle_message,
}
use m_cloud.Agent.Client.Loop.{
  Event, frame, heartbeat_tick, metrics_tick, shell_read, exit_timer, stream, step, run,
}

abbrev pub shutdown : Command
shutdown = record { name = codes "shutdown" }

-- The first "shutdown" sets the flag and changes nothing else: the connection stays as it is, and so
-- do the sessions. The second panics, and so does every later one.
pub shutdown_lem :
    (a : Agent)
    → (a.stopped ≡ false → handle_command shutdown a ≡ some (record a { stopped = true }))
      × (a.stopped ≡ true → handle_command shutdown a ≡ none)
unfolding handle_command ◌==◌
shutdown_lem a = (λ e. rw (e, handle_command) refl, λ e. rw (e, handle_command) refl)

-- The event is the handling of the command of that name.
abbrev pub is_command : Codec → Text → Event → Bool
is_command codec name (frame started (some msg)) =
    if msg.type == type_command
    then elim (codec.command msg.payload) [ none ↦ false | some cmd ↦ cmd.name == name ]
    else false
is_command codec name _ = false

abbrev pub is_shutdown : Codec → Event → Bool
is_shutdown codec e = is_command codec (codes "shutdown") e

abbrev pub is_restart : Codec → Event → Bool
is_restart codec e = is_command codec (codes "restart") e

-- No event ends the agent or makes it end later.
abbrev pub IsQuiet : Codec → List Event → Type 0
IsQuiet codec = All (λ e. (is_shutdown codec e ≡ false) × (is_restart codec e ≡ false))

abbrev pub flags : Agent → Bool × Bool
flags b = (b.stopped, b.restarting)

-- The first flag is as given, and no exit is near.
abbrev pub Flag : Bool → Agent → Type 0
Flag f b = flags b ≡ (f, false)

other_command :
    (cmd : Command) (a : Agent) (f : Bool)
    → (cmd.name == codes "shutdown") ≡ false
    → (cmd.name == codes "restart") ≡ false
    → Flag f a
    → Goes (Flag f) (handle_command cmd a)
unfolding handle_command
other_command cmd a f other r h = elim (Bool-cases (cmd.name == codes "reconnect")) [
  | inr n ↦ rw (r, other, n, handle_command) (Goes-some (Flag f) a h)
  | inl n ↦ elim (Option-cases a.conn) [
    | inl c ↦ rw (r, other, n, c, handle_command) (Goes-some (Flag f) a h)
    | inr (c, e) ↦
        rw (r, other, n, e, handle_command)
          (Goes-some (Flag f) (record a { closed = c ∷ a.closed }) h)
  ]
]

pub send_flag : (m : Message) (a : Agent) → flags (send m a) ≡ flags a
unfolding send
send_flag m a = ground arith

module _ (codec : Codec) (world : World) (req_id : Text) where
  pub exec_flag :
      (req : ExecRequest) (a : Agent)
      → flags (handle_exec_request codec world.run req_id req a) ≡ flags a
  unfolding handle_exec_request answer
  exec_flag req a = send_flag _ a

  pub upload_flag :
      (req : FileUpload) (a : Agent) → flags (upload codec world.os req_id req a) ≡ flags a
  unfolding upload answer
  upload_flag req a =
      send_flag _ (record a { calls = (handle_file_upload world.os a.id req a.calls).1 })

  pub download_flag :
      (req : FileDownload) (a : Agent) → flags (download codec world.os req_id req a) ≡ flags a
  unfolding download answer
  download_flag req a = send_flag _ a

inner_flag : (a b : Agent) (f : Bool) → IsInner a b → Flag f a → Flag f b
inner_flag a b f inner h = ap flags inner ∙ h

module _ (codec : Codec) (world : World) (f : Bool) where
  handle_message_quiet :
      (started : Bool) (msg : Message) (a : Agent)
      → is_shutdown codec (frame started (some msg)) ≡ false
      → is_restart codec (frame started (some msg)) ≡ false
      → Flag f a
      → Goes (Flag f) (handle_message codec world started msg a)
  unfolding handle_message
  handle_message_quiet started msg a quiet calm h =
      Goes-if (Flag f) (msg.type == type_terminal_input) _ _
        (λ q. Goes-decoded (Flag f) (codec.terminal_input msg.payload) a _ h (λ v e.
          Goes-some (Flag f) _ (inner_flag a _ f (handle_terminal_input-IsInner a started v) h)))
        (λ qput.
          Goes-if (Flag f) (msg.type == type_terminal_resize) _ _
            (λ q. Goes-decoded (Flag f) (codec.terminal_resize msg.payload) a _ h (λ v e.
              Goes-some (Flag f) _ (inner_flag a _ f (handle_terminal_resize-IsInner a v) h)))
            (λ qize.
              Goes-if (Flag f) (msg.type == type_exec_request) _ _
                (λ q.
                  Goes-decoded (Flag f) (codec.exec_request msg.payload) a _ h
                    (λ v e. Goes-some (Flag f) _ (exec_flag codec world msg.req_id v a ∙ h)))
                (λ qest.
                  Goes-if (Flag f) (msg.type == type_file_upload) _ _
                    (λ q.
                      Goes-decoded (Flag f) (codec.file_upload msg.payload) a _ h
                        (λ v e. Goes-some (Flag f) _ (upload_flag codec world msg.req_id v a ∙ h)))
                    (λ qoad.
                      Goes-if (Flag f) (msg.type == type_file_download) _ _
                        (λ q. Goes-decoded (Flag f) (codec.file_download msg.payload) a _ h (λ v e.
                          Goes-some (Flag f) _ (download_flag codec world msg.req_id v a ∙ h)))
                        (λ qoad.
                          Goes-if (Flag f) (msg.type == type_command) _ _
                            (λ q. Goes-decoded (Flag f) (codec.command msg.payload) a _ h (λ v e.
                              other_command v a f (rw (q, e) at quiet) (rw (q, e) at calm) h))
                            (λ qand. Goes-some (Flag f) a h))))))

  pub stream_flag :
      (place : ℕ) (read : Read) (a : Agent) → flags (stream codec world place read a) ≡ flags a
  unfolding stream
  stream_flag place read a = elim (Option-cases (get_elem? a.shells place)) [
    | inl e ↦ rw (e, stream) refl
    | inr (s, e) ↦ elim (Option-cases (stream_round read s).0) [
      | inl r ↦ rw (e, r, stream) refl
      | inr (chunk, r) ↦
          rw (e, r, stream) (send_flag _ (at_shell place (λ t. (stream_round read t).1) a))
    ]
  ]

  pub step_quiet :
      (e : Event) (a : Agent)
      → (is_shutdown codec e ≡ false) × (is_restart codec e ≡ false)
      → Flag f a
      → Goes (Flag f) (step codec world e a)
  unfolding step register push_metrics
  step_quiet (frame started none) a quiet h = Goes-some (Flag f) a h
  step_quiet (frame started (some msg)) a quiet h =
      handle_message_quiet started msg a quiet.0 quiet.1 h
  step_quiet (heartbeat_tick info) a quiet h = Goes-some (Flag f) _ (send_flag _ a ∙ h)
  step_quiet (metrics_tick now metrics) a quiet h = Goes-some (Flag f) _ (send_flag _ a ∙ h)
  step_quiet (shell_read place read) a quiet h = Goes-some (Flag f) _ (stream_flag place read a ∙ h)
  step_quiet exit_timer a quiet h =
      let going : a.restarting ≡ false = ap (λ (p : Bool × Bool). p.1) h in go a.restarting going
    where
      go : (b : Bool) → b ≡ false → Goes (Flag f) (if b then none else some a)
      go b e = rw e (Goes-some (Flag f) a h)

  pub run_quiet :
      (es : List Event) (a : Agent)
      → IsQuiet codec es
      → Flag f a
      → Goes (Flag f) (run codec world es a)
  unfolding run
  run_quiet [] a quiet h = Goes-some (Flag f) a h
  run_quiet (e ∷ es) a quiet h =
      Goes-bind (Flag f) (Flag f) (step codec world e a) _ (step_quiet e a quiet.0 h)
        (λ b k. run_quiet es b quiet.1 k)
