-- ===== src/EndToEnd/Terminal.antt =====
-- A key on its way from a browser over internal/master/api/api.go and cmd/gateway/main.go to the
-- shell of cmd/agent/main.go, and what the shell prints on its way back.
use m_cloud.Base.{
  ℕ, ◌≡◌, ◌≢◌, ◌∙◌, refl, ap, Bool, true, false, List, [], ◌∷◌, ◌++◌, map, Text, ◌==◌, ==_iff,
  Option, some, modify_at,
}
use m_cloud.Dict
use m_cloud.Protocol.{
  Message, ExecRequest, TerminalInput, TerminalOutput, new_message, type_terminal_input,
  type_terminal_output, type_register,
}
use m_cloud.Auth.Jwt.{Claims}
use m_cloud.Gateway.Proxy.{Manager, is_closed, agent_frame}
use m_cloud.Gateway.Server.{dialed_frame}
use m_cloud.Agent.Terminal.{Session, bytes, stream_round, write_input}
use m_cloud.Agent.Client.{Agent, Codec, World, send, deliver, handle_terminal_input, handle_message}
use m_cloud.Agent.Client.Loop.{stream}
use m_cloud.Agent.Client.Sessions.{IsAt, IsPlain, typed-IsAt}
use m_cloud.Ws as Ws
use m_cloud.Ws.{Push, terminal_output, broadcast}
use m_cloud.Ws.Laws.{send_open}
use m_cloud.Api.{Server}
use m_cloud.Api.Frames.{Decoders, gateway_frame, on_terminal_output}
use m_cloud.Api.Dashboard.{dashboard_frame, relay}
use m_cloud.EndToEnd.Hops.{dialed_frame_lem, agent_frame_lem}

-- What the agent sends of the output of a session.
abbrev pub shown : Codec → Text → Text → Text → Message
shown codec name k chunk = record {
  type = type_terminal_output;
  agent_id = name;
  req_id = [];
  payload = codec.terminal_output (record { session_id = k; output = chunk });
}

relayed_lem :
    (decode : Text → Option ExecRequest) (id : Text) (claims : Claims) (conn now gc : ℕ)
    (msg : Message) (s : Server)
    → msg.type ≡ type_terminal_input
    → s.gateway.conn ≡ some gc
    → is_closed gc s.gateway.closed ≡ false
    → dashboard_frame decode id claims conn now (some msg) s
      ≡ record s { gateway = record (s.gateway) { sent = s.gateway.sent ++ (gc, msg) ∷ [] } }
unfolding dashboard_frame relay
relayed_lem decode id claims conn now gc msg s t up live =
    let is_input : (msg.type == type_terminal_input) ≡ true =
      (==_iff msg.type type_terminal_input).1 t in
    rw (is_input, dashboard_frame)
      (ap (λ (p : Ws.GatewayConn × Bool). record s { gateway = p.0 })
        (send_open msg gc s.gateway up live))

typed_message :
    (codec : Codec) (world : World) (started : Bool) (msg : Message) (a : Agent)
    (input : TerminalInput)
    → msg.type ≡ type_terminal_input
    → codec.terminal_input msg.payload ≡ some input
    → handle_message codec world started msg a ≡ some (handle_terminal_input started input a)
unfolding handle_message type_terminal_input ◌==◌
typed_message codec world started msg a input t d = rw (t, handle_message) (rw d refl)

streamed_lem :
    (codec : Codec) (world : World) (k : Text) (p ac x : ℕ) (chunk : Text) (s : Session) (a : Agent)
    → IsAt k p s a
    → s.closed ≡ false
    → a.conn ≡ some ac
    → is_closed ac a.closed ≡ false
    → (stream codec world p (bytes (x ∷ chunk)) a).sent
      ≡ a.sent ++ (ac, shown codec a.id s.id (x ∷ chunk)) ∷ []
unfolding stream stream_round send new_message
streamed_lem codec world k p ac x chunk s a h live conn open_conn =
    rw (h.1, stream) (rw (live, stream_round) (rw (conn, send) (rw open_conn refl)))

printed_lem :
    (frames : Decoders) (now : ℕ) (msg : Message) (output : TerminalOutput) (s : Server)
    → msg.type ≡ type_terminal_output
    → frames.output msg.payload ≡ some output
    → (gateway_frame frames now (some msg) s).hub
      ≡ broadcast (terminal_output msg.agent_id output) s.hub
unfolding gateway_frame on_terminal_output type_terminal_output type_register ◌==◌
printed_lem frames now msg output s t d = rw (t, gateway_frame) (rw (d, on_terminal_output) refl)

plain_output : (type_terminal_output == type_register) ≡ false
unfolding type_terminal_output type_register ◌==◌
plain_output = refl

input_sends :
    (started : Bool) (k t : Text) (p : ℕ) (a : Agent)
    → IsPlain t
    → Dict.get a.sessions k ≡ some p
    → ◌≡◌ {A = Agent}
        (handle_terminal_input started (record { session_id = k; typed = t }) a)
        (record a { shells = modify_at p (write_input t) a.shells })
unfolding handle_terminal_input deliver
input_sends started k t p a plain there = rw (there, plain, handle_terminal_input) refl

-- A key that a browser sends for a session that is open on an agent, over a gateway that is
-- connected: the master writes the browser's message to the gateway, the gateway to the agent's
-- connection, and the agent types it into the shell of that session, behind what was typed before.
-- When the shell then prints something, the agent sends it, the gateway writes it to the master, and
-- the master pushes it to every browser that is connected, as encoding/json reads it from the
-- agent's message: where a read of the terminal ends within a character, that need not be what was
-- printed.
pub terminal_round_trip :
    (decode : Text → Option ExecRequest) (id : Text) (claims : Claims) (bc now gc c mc ac : ℕ)
    (msg : Message) (k t : Text) (s : Server) (m : Manager) (codec : Codec) (world : World)
    (started : Bool) (frames : Decoders) (p : ℕ) (shell : Session) (a : Agent) (x : ℕ)
    (chunk : Text) (output : TerminalOutput)
    → msg.type ≡ type_terminal_input
    → codec.terminal_input msg.payload ≡ some (record { session_id = k; typed = t })
    → IsPlain t
    → s.gateway.conn ≡ some gc
    → is_closed gc s.gateway.closed ≡ false
    → msg.agent_id ≢ []
    → Dict.get m.agents msg.agent_id ≡ some c
    → is_closed c m.closed ≡ false
    → m.master_conn ≡ some mc
    → is_closed mc m.closed ≡ false
    → a.id ≡ msg.agent_id
    → a.conn ≡ some ac
    → is_closed ac a.closed ≡ false
    → IsAt k p shell a
    → shell.closed ≡ false
    → shell.id ≡ k
    → frames.output (codec.terminal_output (record { session_id = k; output = x ∷ chunk }))
      ≡ some output
    → let asked = dashboard_frame decode id claims bc now (some msg) s in
      let out = shown codec msg.agent_id k (x ∷ chunk) in
      (asked.gateway.sent ≡ s.gateway.sent ++ (gc, msg) ∷ [])
      × ((dialed_frame (some msg) m).to_agents ≡ m.to_agents ++ (c, msg) ∷ [])
      × ((b : Agent) × (handle_message codec world started msg a ≡ some b)
          × IsAt k p (record shell { typed = shell.typed ++ t ∷ [] }) b
          × ((stream codec world p (bytes (x ∷ chunk)) b).sent ≡ a.sent ++ (ac, out) ∷ []))
      × ((agent_frame msg.agent_id c (some out) m).to_master ≡ m.to_master ++ (mc, out) ∷ [])
      × ((gateway_frame frames now (some out) asked).hub.pushed
          ≡ s.hub.pushed
            ++ map
                (λ browser. (browser, terminal_output msg.agent_id output))
                (Dict.values s.hub.clients))
unfolding broadcast
terminal_round_trip decode id claims bc now gc c mc ac msg k t s m codec world started frames p
      shell a x chunk output keys reads plain up live named known open_agent up' live' same conn
      open_conn at running name written =
    let typed : Session = record shell { typed = shell.typed ++ t ∷ [] } in
    let b : Agent = handle_terminal_input started (record { session_id = k; typed = t }) a in
    let out : Message = shown codec msg.agent_id k (x ∷ chunk) in
    let asked = relayed_lem decode id claims bc now gc msg s keys up live in
    let there : IsAt k p typed b = typed-IsAt started k t p shell a plain running at in
    let sent_by : Text → Text → Agent → List (ℕ × Message) =
      λ i j q. q.sent ++ (ac, shown codec i j (x ∷ chunk)) ∷ [] in
    let same_but = input_sends started k t p a plain (at.0) in
    (
      ap (λ (q : Server). q.gateway.sent) asked,
      ap (λ (n : Manager). n.to_agents) (dialed_frame_lem msg c m named known open_agent),
      (
        b,
        typed_message codec world started msg a _ keys reads,
        there,
        streamed_lem codec world k p ac x chunk typed b there running
              (ap (λ (q : Agent). q.conn) same_but ∙ conn)
              (ap (λ (q : Agent). is_closed ac q.closed) same_but ∙ open_conn)
            ∙ ap (λ (q : Agent). sent_by q.id shell.id q) same_but
            ∙ ap (λ i. sent_by i shell.id a) same
            ∙ ap (λ i. sent_by msg.agent_id i a) name,
      ),
      ap (λ (n : Manager). n.to_master)
          (agent_frame_lem msg.agent_id c mc out m plain_output up' live'),
      ap (λ (h : Ws.Hub). h.pushed) (printed_lem frames now out _ _ refl written) ∙ rw asked refl,
    )
