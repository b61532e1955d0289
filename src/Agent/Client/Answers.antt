-- ===== src/Agent/Client/Answers.antt =====
-- What the agent answers to the messages it gets.
use m_cloud.Base.{
  ℕ, ◌≡◌, refl, ap, ◌⊎◌, inl, inr, Bool, true, false, [], ◌∷◌, ◌++◌, arith, Text, ◌==◌, some,
  Option-cases, Bool-cases, if◌then◌else◌, Every, Every-some, Every-if, Every-decoded, some_inj,
}
use m_cloud.Dict
use m_cloud.Protocol.{
  Message, TerminalInput, TerminalResize, Command, FileUpload, FileDownload, ExecRequest,
  new_message, type_terminal_input, type_terminal_resize, type_exec_request, type_exec_response,
  type_file_upload, type_file_upload_resp, type_file_download, type_file_download_resp,
  type_command,
}
use m_cloud.Gateway.Proxy.{is_closed}
use m_cloud.Agent.Files.{handle_file_upload}
use m_cloud.Agent.Terminal.{new_session}
use m_cloud.Agent.Client.{
  Agent, Codec, World, send, answer, open_session, deliver, handle_terminal_input,
  handle_terminal_resize, handle_command, handle_exec_request, upload, download, handle_message,
}

-- The type of the answer to each type of request.
abbrev pub reply_type : Text → Text
reply_type t =
    if t == type_exec_request
    then type_exec_response
    else if t == type_file_upload
    then type_file_upload_resp
    else type_file_download_resp

-- From `a` to `b` at most one message is sent: on the present connection, in the name of the agent,
-- of the type that answers `msg`, and with its request ID.
abbrev pub IsAnswered : Message → Agent → Agent → Type 0
IsAnswered msg a b =
    (b.sent ≡ a.sent)
    ⊎ ((c : ℕ) × (m : Message) × (a.conn ≡ some c)
        × (b.sent ≡ a.sent ++ (c, m) ∷ [])
        × (m.agent_id ≡ a.id)
        × (m.req_id ≡ msg.req_id)
        × (m.type ≡ reply_type msg.type))

answer-IsAnswered :
    (msg : Message) (a : Agent) (type payload : Text)
    → type ≡ reply_type msg.type
    → IsAnswered msg a (answer type msg.req_id payload a)
unfolding answer send new_message
answer-IsAnswered msg a type payload right = elim (Option-cases a.conn) [
  | inl e ↦ rw (e, answer) (inl refl)
  | inr (c, e) ↦ elim (Bool-cases (is_closed c a.closed)) [
    | inl b ↦ rw (e, b, answer) (inl refl)
    | inr b ↦ rw (e, b, answer) (inr (c, _, refl, refl, refl, refl, right))
  ]
]

-- The handlers of terminal messages change the sessions only.
module _ (a : Agent) where
  abbrev pub IsInner : Agent → Type 0
  IsInner b = b ≡ record a { shells = b.shells; sessions = b.sessions }

  deliver-IsInner :
      (p : ℕ) (input : TerminalInput) (b : Agent) → IsInner b → IsInner (deliver p input b)
  unfolding deliver
  deliver-IsInner p input b h = ground arith

  open_session-IsInner :
      (started : Bool) (k : Text) (made : ℕ × Agent)
      → open_session started k a ≡ some made
      → IsInner made.1
  unfolding open_session new_session
  open_session-IsInner true k made e = rw (← some_inj e) refl
  open_session-IsInner false k made e = cc

  pub handle_terminal_input-IsInner :
      (started : Bool) (input : TerminalInput) → IsInner (handle_terminal_input started input a)
  unfolding handle_terminal_input
  handle_terminal_input-IsInner started input =
      elim (Option-cases (Dict.get a.sessions input.session_id)) [
        | inr (p, e) ↦ rw (e, handle_terminal_input) (deliver-IsInner p input a refl)
        | inl e ↦ elim (Option-cases (open_session started input.session_id a)) [
          | inl o ↦ rw (e, o, handle_terminal_input) refl
          | inr (made, o) ↦
              rw (e, o, handle_terminal_input)
                (deliver-IsInner made.0 input made.1
                  (open_session-IsInner started input.session_id made o))
        ]
      ]

  pub handle_terminal_resize-IsInner : (r : TerminalResize) → IsInner (handle_terminal_resize r a)
  unfolding handle_terminal_resize
  handle_terminal_resize-IsInner r = elim (Option-cases (Dict.get a.sessions r.session_id)) [
    | inl e ↦ rw (e, handle_terminal_resize) refl
    | inr (p, e) ↦ rw (e, handle_terminal_resize) refl
  ]

  handle_command_silent :
      (msg : Message) (cmd : Command) → Every (IsAnswered msg a) (handle_command cmd a)
  unfolding handle_command
  handle_command_silent msg cmd = record { kept = λ b e. inl (ground arith) }

inner : (msg : Message) (a b : Agent) → IsInner a b → IsAnswered msg a b
inner msg a b h = inl (ap (λ x. x.sent) h)

module _ (codec : Codec) (world : World) (msg : Message) (a : Agent) where
  exec_answer :
      (req : ExecRequest)
      → (msg.type == type_exec_request) ≡ true
      → IsAnswered msg a (handle_exec_request codec world.run msg.req_id req a)
  unfolding handle_exec_request
  exec_answer req q = answer-IsAnswered msg a type_exec_response _ (rw q refl)

  upload_answer :
      (req : FileUpload)
      → (msg.type == type_exec_request) ≡ false
      → (msg.type == type_file_upload) ≡ true
      → IsAnswered msg a (upload codec world.os msg.req_id req a)
  unfolding upload
  upload_answer req q r =
      answer-IsAnswered msg (record a { calls = (handle_file_upload world.os a.id req a.calls).1 })
        type_file_upload_resp _ (rw (q, r) refl)

  download_answer :
      (req : FileDownload)
      → (msg.type == type_exec_request) ≡ false
      → (msg.type == type_file_upload) ≡ false
      → IsAnswered msg a (download codec world.os msg.req_id req a)
  unfolding download
  download_answer req q r = answer-IsAnswered msg a type_file_download_resp _ (rw (q, r) refl)

handle_message_answers :
    (codec : Codec) (world : World) (started : Bool) (msg : Message) (a : Agent)
    → Every (IsAnswered msg a) (handle_message codec world started msg a)
unfolding handle_message
handle_message_answers codec world started msg a =
    Every-if (IsAnswered msg a) (msg.type == type_terminal_input) _ _
      (λ q. Every-decoded (IsAnswered msg a) (codec.terminal_input msg.payload) a _ (inl refl) (λ v.
        Every-some (IsAnswered msg a) _
          (inner msg a _ (handle_terminal_input-IsInner a started v))))
      (λ qput.
        Every-if (IsAnswered msg a) (msg.type == type_terminal_resize) _ _
          (λ q.
            Every-decoded (IsAnswered msg a) (codec.terminal_resize msg.payload) a _ (inl refl)
              (λ v.
                Every-some (IsAnswered msg a) _
                  (inner msg a _ (handle_terminal_resize-IsInner a v))))
          (λ qize.
            Every-if (IsAnswered msg a) (msg.type == type_exec_request) _ _
              (λ q.
                Every-decoded (IsAnswered msg a) (codec.exec_request msg.payload) a _ (inl refl)
                  (λ v. Every-some (IsAnswered msg a) _ (exec_answer codec world msg a v q)))
              (λ qest.
                Every-if (IsAnswered msg a) (msg.type == type_file_upload) _ _
                  (λ q.
                    Every-decoded (IsAnswered msg a) (codec.file_upload msg.payload) a _ (inl refl)
                      (λ v.
                        Every-some (IsAnswered msg a) _ (upload_answer codec world msg a v qest q)))
                  (λ qoad.
                    Every-if (IsAnswered msg a) (msg.type == type_file_download) _ _
                      (λ q.
                        Every-decoded (IsAnswered msg a) (codec.file_download msg.payload) a _
                          (inl refl)
                          (λ v.
                            Every-some (IsAnswered msg a) _
                              (download_answer codec world msg a v qest qoad)))
                      (λ qoad.
                        Every-if (IsAnswered msg a) (msg.type == type_command) _ _
                          (λ q.
                            Every-decoded (IsAnswered msg a) (codec.command msg.payload) a _
                              (inl refl) (λ v. handle_command_silent a msg v))
                          (λ qand. Every-some (IsAnswered msg a) a (inl refl)))))))

-- Whatever message the agent handles, it sends at most one: on its present connection, in its own
-- name, with the request ID of the message and of the type that answers it.
pub handle_message-IsAnswered :
    (codec : Codec) (world : World) (started : Bool) (msg : Message) (a b : Agent)
    → handle_message codec world started msg a ≡ some b
    → IsAnswered msg a b
handle_message-IsAnswered codec world started msg a b e =
    (handle_message_answers codec world started msg a).kept b e
