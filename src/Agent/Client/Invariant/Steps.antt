-- ===== src/Agent/Client/Invariant/Steps.antt =====
-- Every handler of the agent keeps the invariant.
use m_cloud.Base.{
  ℕ, ◌≡◌, refl, ap, ◌∙◌, inl, inr, Bool, true, false, List, [], ◌∷◌, ◌++◌, arith, Text, ◌==◌,
  ==_iff, All-append, All-weaken, Option, none, some, Option-cases, Bool-cases, length, some_inj,
  Every, Every-some, Every-if, Every-decoded, get_elem?-append_end, get_elem?-append_left,
}
use m_cloud.Base.Int.{ℤ}
use m_cloud.Dict
use m_cloud.Dict.{Dict, get-put, get-remove}
use m_cloud.Protocol.{
  Message, AgentInfo, MachineMetrics, TerminalInput, TerminalResize, Command, FileUpload,
  ExecRequest, new_message, FileDownload, type_register, type_terminal_input, type_terminal_resize,
  type_exec_request, type_file_upload, type_file_download, type_command,
}
use m_cloud.Agent.CleanPath.{clean}
use m_cloud.Agent.Files.{Os, handle_file_upload}
use m_cloud.Agent.Files.Confined.{IsInside, target, handle_file_upload-IsInside}
use m_cloud.Agent.Executor.{Process}
use m_cloud.Agent.Terminal.{Session, new_session, write_input, resize, close}
use m_cloud.Agent.Client.{
  Agent, Codec, World, at_shell, open_session, deliver, handle_terminal_input,
  handle_terminal_resize, handle_command, register, push_metrics, handle_exec_request, upload,
  download, handle_message,
}
use m_cloud.Agent.Client.Invariant.{
  IsKilledOnce, Inv, write_input-Keeps, resize-Keeps, close-Keeps, at_shell-Inv, send-Inv,
  answer-Inv,
}

module _ (id : Text) where
  opened-Inv :
      (key : Text) (a : Agent) (s : Session)
      → s.id ≡ key
      → IsKilledOnce s
      → Inv id a
      → Inv id (record a {
        shells = a.shells ++ s ∷ [];
        sessions = Dict.put a.sessions key (length a.shells);
      })
  opened-Inv key a s name fresh h = record {
    same = h.same;
    own = h.own;
    named = λ k p e. elim (Bool-cases (key == k)) [
      | inl q ↦
          let place : length a.shells ≡ p = some_inj (rw (get-put, q) at e) in
          rw (← place) (s, get_elem?-append_end a.shells s, name ∙ (==_iff key k).0 q)
      | inr q ↦
          let (t, there, own) = h.named k p (rw (get-put, q) at e) in
          (t, get_elem?-append_left p a.shells (s ∷ []) t there, own)
    ];
    killed = All-append IsKilledOnce a.shells (s ∷ []) h.killed (fresh, tt);
    inside = h.inside;
  }

  removed-Inv :
      (key : Text) (a : Agent)
      → Inv id a
      → Inv id (record a { sessions = Dict.remove a.sessions key })
  removed-Inv key a h = record {
    same = h.same;
    own = h.own;
    named = λ k p e. elim (Bool-cases (key == k)) [
      | inl q ↦ absurd (let e' : none ≡ some p = (rw (get-remove, q) at e) in cc e')
      | inr q ↦ h.named k p (rw (get-remove, q) at e)
    ];
    killed = h.killed;
    inside = h.inside;
  }

  open_session-Inv :
      (started : Bool) (key : Text) (a : Agent) (p : ℕ) (b : Agent)
      → open_session started key a ≡ some (p, b)
      → Inv id a
      → Inv id b
  unfolding open_session new_session
  open_session-Inv false key a p b e h = cc
  open_session-Inv true key a p b e h = rw (← ap (λ x. x.1) (some_inj e)) (
      opened-Inv key a
        (record { id = key; cols = 80; rows = 24; typed = []; closed = false; kills = 0 }) refl refl
        h)

  deliver-Inv : (p : ℕ) (input : TerminalInput) (a : Agent) → Inv id a → Inv id (deliver p input a)
  unfolding deliver
  deliver-Inv p input a h = elim (Bool-cases (input.typed == 4 ∷ [])) [
    | inl e ↦
        rw (e, deliver)
          (removed-Inv input.session_id (at_shell p close a)
            (at_shell-Inv id close p a close-Keeps h))
    | inr e ↦
        rw (e, deliver)
          (at_shell-Inv id (write_input input.typed) p a (write_input-Keeps input.typed) h)
  ]

  handle_terminal_input-Inv :
      (started : Bool) (input : TerminalInput) (a : Agent)
      → Inv id a
      → Inv id (handle_terminal_input started input a)
  unfolding handle_terminal_input
  handle_terminal_input-Inv started input a h =
      elim (Option-cases (Dict.get a.sessions input.session_id)) [
        | inr (p, e) ↦ rw (e, handle_terminal_input) (deliver-Inv p input a h)
        | inl e ↦ elim (Option-cases (open_session started input.session_id a)) [
          | inl o ↦ rw (e, o, handle_terminal_input) h
          | inr (made, o) ↦
              rw (e, o, handle_terminal_input)
                (deliver-Inv made.0 input made.1
                  (open_session-Inv started input.session_id a made.0 made.1 o h))
        ]
      ]

  handle_terminal_resize-Inv :
      (r : TerminalResize) (a : Agent) → Inv id a → Inv id (handle_terminal_resize r a)
  unfolding handle_terminal_resize
  handle_terminal_resize-Inv r a h = elim (Option-cases (Dict.get a.sessions r.session_id)) [
    | inl e ↦ rw (e, handle_terminal_resize) h
    | inr (p, e) ↦
        rw (e, handle_terminal_resize)
          (at_shell-Inv id (resize r.cols r.rows) p a (resize-Keeps r.cols r.rows) h)
  ]

  -- A change of the connections and of the two flags alone.
  pub outer-Inv :
      (a : Agent) (conn : Option ℕ) (closed : List ℕ) (stopped restarting : Bool)
      → Inv id a
      → Inv id
          (record a { conn = conn; closed = closed; stopped = stopped; restarting = restarting })
  outer-Inv a conn closed stopped restarting h = record {
    same = h.same;
    own = h.own;
    named = h.named;
    killed = h.killed;
    inside = h.inside;
  }

  handle_command_lem :
      (cmd : Command) (a b : Agent)
      → handle_command cmd a ≡ some b
      → b ≡ record a { closed = b.closed; stopped = b.stopped; restarting = b.restarting }
  unfolding handle_command
  handle_command_lem cmd a b e = ground arith

  handle_command-Every :
      (cmd : Command) (a : Agent) → Inv id a → Every (Inv id) (handle_command cmd a)
  handle_command-Every cmd a h = record {
    kept = λ b e.
        rw (handle_command_lem cmd a b e) (outer-Inv a a.conn b.closed b.stopped b.restarting h);
  }

  upload-Inv :
      (codec : Codec) (os : Os) (req_id : Text) (req : FileUpload) (a : Agent)
      → Inv id a
      → Inv id (upload codec os req_id req a)
  unfolding upload
  upload-Inv codec os req_id req a h =
      let (calls, e, inside) = handle_file_upload-IsInside os a.id req a.calls in
      answer-Inv id _ req_id _ (record a { calls = (handle_file_upload os a.id req a.calls).1 })
        record {
          same = h.same;
          own = h.own;
          named = h.named;
          killed = h.killed;
          inside = rw e (
              All-append (λ c. IsInside (target c)) a.calls calls h.inside
                (All-weaken (λ c. (target c ≡ clean req.path) × IsInside (target c))
                  (λ c. IsInside (target c)) calls (λ c w. w.1) inside));
        }

  exec-Inv :
      (codec : Codec) (system : Text → Option ℤ → Process) (req_id : Text) (req : ExecRequest)
      (a : Agent)
      → Inv id a
      → Inv id (handle_exec_request codec system req_id req a)
  unfolding handle_exec_request
  exec-Inv codec system req_id req a h = answer-Inv id _ req_id _ a h

  download-Inv :
      (codec : Codec) (os : Os) (req_id : Text) (req : FileDownload) (a : Agent)
      → Inv id a
      → Inv id (download codec os req_id req a)
  unfolding download
  download-Inv codec os req_id req a h = answer-Inv id _ req_id _ a h

  pub handle_message-Every :
      (codec : Codec) (world : World) (started : Bool) (msg : Message) (a : Agent)
      → Inv id a
      → Every (Inv id) (handle_message codec world started msg a)
  unfolding handle_message
  handle_message-Every codec world started msg a h =
      Every-if (Inv id) (msg.type == type_terminal_input) _ _
        (λ _.
          Every-decoded (Inv id) (codec.terminal_input msg.payload) a _ h
            (λ v. Every-some (Inv id) _ (handle_terminal_input-Inv started v a h)))
        (λ _.
          Every-if (Inv id) (msg.type == type_terminal_resize) _ _
            (λ _.
              Every-decoded (Inv id) (codec.terminal_resize msg.payload) a _ h
                (λ v. Every-some (Inv id) _ (handle_terminal_resize-Inv v a h)))
            (λ _.
              Every-if (Inv id) (msg.type == type_exec_request) _ _
                (λ _.
                  Every-decoded (Inv id) (codec.exec_request msg.payload) a _ h
                    (λ v. Every-some (Inv id) _ (exec-Inv codec world.run msg.req_id v a h)))
                (λ _.
                  Every-if (Inv id) (msg.type == type_file_upload) _ _
                    (λ _.
                      Every-decoded (Inv id) (codec.file_upload msg.payload) a _ h
                        (λ v. Every-some (Inv id) _ (upload-Inv codec world.os msg.req_id v a h)))
                    (λ _.
                      Every-if (Inv id) (msg.type == type_file_download) _ _
                        (λ _. Every-decoded (Inv id) (codec.file_download msg.payload) a _ h (λ v.
                          Every-some (Inv id) _ (download-Inv codec world.os msg.req_id v a h)))
                        (λ _.
                          Every-if (Inv id) (msg.type == type_command) _ _
                            (λ _.
                              Every-decoded (Inv id) (codec.command msg.payload) a _ h
                                (λ v. handle_command-Every v a h))
                            (λ _. Every-some (Inv id) a h))))))

  pub register-Inv :
      (codec : Codec) (info : AgentInfo) (a : Agent) → Inv id a → Inv id (register codec info a)
  unfolding register new_message
  register-Inv codec info a h =
      send-Inv id (new_message type_register a.id (some (codec.info info))) a (λ c. inl h.same) h

  pub push_metrics-Inv :
      (codec : Codec) (now : ℤ) (metrics : MachineMetrics) (a : Agent)
      → Inv id a
      → Inv id (push_metrics codec now metrics a)
  unfolding push_metrics
  push_metrics-Inv codec now metrics a h =
      elim (Option-cases (codec.metrics (record metrics { timestamp = now }))) [
        | inl e ↦ rw (e, push_metrics) (send-Inv id _ a (λ c. inr (unfold new_message in refl)) h)
        | inr (raw, e) ↦
            rw (e, push_metrics) (send-Inv id _ a (λ c. inl (unfold new_message in h.same)) h)
      ]
