-- ===== src/Agent/Client/Invariant.antt =====
-- What holds of an agent whatever messages it gets and whatever the system answers.
pub mod Steps
pub mod Runs
use m_cloud.Base.{
  ℕ, zero, suc, ◌≡◌, refl, sym, ap, ◌∙◌, ◌≢◌, ◌⊎◌, inl, inr, Bool, true, false, List, [], ◌∷◌, ◌++◌,
  arith, Text, codes, ◌==◌, ==_iff, All, All-append, Option, none, some, Option-cases, Bool-cases,
  eqb, eqb→eq, if◌then◌else◌, get_elem?, modify_at, length, some_inj, ◌>>=◌, get_elem?-modify_at,
  get_elem?-modify_at_ne, get_elem?-append_end, get_elem?-append_left,
}
use m_cloud.Base.Int.{ℤ}
use m_cloud.Dict
use m_cloud.Dict.{Dict, get-put, get-remove}
use m_cloud.Protocol.{
  Message, AgentInfo, MachineMetrics, TerminalInput, TerminalResize, Command, FileUpload,
  ExecRequest, new_message,
}
use m_cloud.Gateway.Proxy.{is_closed}
use m_cloud.Agent.Files.{Call, Os, handle_file_upload}
use m_cloud.Agent.Files.Confined.{IsInside, target, handle_file_upload-IsInside}
use m_cloud.Agent.Executor.{Process}
use m_cloud.Agent.Terminal.{
  Session, Read, bytes, failed, new_session, write_input, resize, close, stream_round,
}
use m_cloud.Agent.Client.{
  Agent, Codec, World, send, answer, at_shell, open_session, deliver, handle_terminal_input,
  handle_terminal_resize, handle_command, register, push_metrics, handle_exec_request, upload,
  download, handle_message,
}
use m_cloud.Agent.Client.Loop.{
  Event, frame, heartbeat_tick, metrics_tick, shell_read, stream, step, run,
}

-- The message names this agent; NewMessage gives Message{} where the payload cannot be encoded.
abbrev pub IsOwn : Text → ℕ × Message → Type 0
IsOwn id m = (m.1.agent_id ≡ id) ⊎ (m.1 ≡ new_message [] [] none)

-- The function that closes the session has run once if the session is closed, and else not at all.
abbrev pub IsKilledOnce : Session → Type 0
IsKilledOnce s = s.kills ≡ (if s.closed then 1 else 0)

abbrev pub IsNamed : Agent → Text → ℕ → Type 0
IsNamed a k p = (s : Session) × (get_elem? a.shells p ≡ some s) × (s.id ≡ k)

pub record Inv (id : Text) (a : Agent) : Type 0 where
  pub same : a.id ≡ id
  pub own : All (IsOwn id) a.sent
  pub named : (k : Text) (p : ℕ) → Dict.get a.sessions k ≡ some p → IsNamed a k p
  pub killed : All IsKilledOnce a.shells
  pub inside : All (λ c. IsInside (target c)) a.calls

-- Changes of a session that keep its name and close it at most once.
abbrev pub Keeps : (Session → Session) → Type 0
Keeps f = (s : Session) → ((f s).id ≡ s.id) × (IsKilledOnce s → IsKilledOnce (f s))

pub write_input-Keeps : (chunk : Text) → Keeps (write_input chunk)
unfolding write_input
write_input-Keeps chunk s = ground arith

pub resize-Keeps : (cols rows : ℕ) → Keeps (resize cols rows)
unfolding resize
resize-Keeps cols rows s = ground arith

pub close-Keeps : Keeps close
unfolding close
close-Keeps s = ground arith

pub stream_round-Keeps : (read : Read) → Keeps (λ s. (stream_round read s).1)
unfolding stream_round close
stream_round-Keeps failed s = ground arith
stream_round-Keeps (bytes []) s = ground arith
stream_round-Keeps (bytes (c ∷ chunk)) s = ground arith

modify_at-All :
    (f : Session → Session) (p : ℕ) (ss : List Session)
    → Keeps f
    → All IsKilledOnce ss
    → All IsKilledOnce (modify_at p f ss)
modify_at-All f p [] k h = tt
modify_at-All f zero (s ∷ ss) k h = ((k s).1 h.0, h.1)
modify_at-All f (suc p) (s ∷ ss) k h = (h.0, modify_at-All f p ss k h.1)

modify_at_named :
    (f : Session → Session) (p q : ℕ) (ss : List Session) (s : Session)
    → Keeps f
    → get_elem? ss q ≡ some s
    → (t : Session) × (get_elem? (modify_at p f ss) q ≡ some t) × (t.id ≡ s.id)
modify_at_named f p q ss s k e = elim (Bool-cases (eqb p q)) [
  | inl same ↦
      let same : p ≡ q = eqb→eq p q same in (f s, rw same (get_elem?-modify_at q f ss s e), (k s).0)
  | inr other ↦ (s, get_elem?-modify_at_ne p q f ss (ground arith) ∙ e, refl)
]

module _ (id : Text) where
  pub at_shell-Inv :
      (f : Session → Session) (p : ℕ) (a : Agent) → Keeps f → Inv id a → Inv id (at_shell p f a)
  at_shell-Inv f p a k h = record {
    same = h.same;
    own = h.own;
    named = λ key q e.
        let (s, there, name) = h.named key q e in
        let (t, now, kept) = modify_at_named f p q a.shells s k there in (t, now, kept ∙ name);
    killed = modify_at-All f p a.shells k h.killed;
    inside = h.inside;
  }

  pub send-Inv :
      (msg : Message) (a : Agent) → ((c : ℕ) → IsOwn id (c, msg)) → Inv id a → Inv id (send msg a)
  unfolding send
  send-Inv msg a own h = elim (Option-cases a.conn) [
    | inl e ↦ rw (e, send) h
    | inr (c, e) ↦ elim (Bool-cases (is_closed c a.closed)) [
      | inl b ↦ rw (e, b, send) h
      | inr b ↦
          rw (e, b, send)
            record {
              same = h.same;
              own = All-append (IsOwn id) a.sent ((c, msg) ∷ []) h.own (own c, tt);
              named = h.named;
              killed = h.killed;
              inside = h.inside;
            }
    ]
  ]

  pub answer-Inv :
      (type req_id payload : Text) (a : Agent) → Inv id a → Inv id (answer type req_id payload a)
  unfolding answer new_message
  answer-Inv type req_id payload a h =
      send-Inv (record (new_message type a.id (some payload)) { req_id = req_id }) a
        (λ c. inl h.same) h
