-- ===== src/Api/Dashboard/Relayed.antt =====
-- What a browser can have done on the agents.
use m_cloud.Base.{
  ℕ, ◌<◌, ◌≡◌, ◌⊎◌, refl, ap, ◌∙◌, inl, inr, Bool, false, [], ◌∷◌, ◌++◌, map, map-map, Text, ◌==◌,
  Option, none, some,
}
use m_cloud.Protocol.{
  Message, ExecRequest, type_terminal_input, type_exec_request, type_file_upload,
  type_terminal_resize,
}
use m_cloud.History.{briefed, get}
use m_cloud.History.Added.{get-add}
use m_cloud.Auth.Jwt.{Claims}
use m_cloud.Gateway.Proxy.{is_closed}
use m_cloud.Ws.{GatewayConn}
use m_cloud.Ws.Laws.{send_open, send_all_lem}
use m_cloud.Api.{Server}
use m_cloud.Api.Batch.{record_of}
use m_cloud.Api.Dashboard.{on_exec_request, relay, dashboard_frame}

frame_exec :
    (decode : Text → Option ExecRequest) (id : Text) (claims : Claims) (conn now : ℕ)
    (msg : Message) (s : Server)
    → msg.type ≡ type_exec_request
    → dashboard_frame decode id claims conn now (some msg) s
      ≡ on_exec_request decode id claims now msg s
unfolding dashboard_frame type_exec_request type_terminal_input type_terminal_resize ◌==◌
frame_exec decode id claims conn now msg s t = rw t refl

frame_relay :
    (decode : Text → Option ExecRequest) (id : Text) (claims : Claims) (conn now : ℕ)
    (msg : Message) (s : Server)
    → (msg.type ≡ type_terminal_input) ⊎ (msg.type ≡ type_file_upload)
    → dashboard_frame decode id claims conn now (some msg) s ≡ relay msg s
unfolding dashboard_frame type_exec_request type_terminal_input type_terminal_resize
    type_file_upload ◌==◌
frame_relay decode id claims conn now msg s (inl t) = rw t refl
frame_relay decode id claims conn now msg s (inr t) = rw t refl

-- Any user whose browser is connected, of whatever role, can type in terminals and send files: while
-- the connection to the gateway is open the message is written to it as it came. Any user can also
-- run a script: each agent that the message lists is written the message under the ID of the new
-- run, and the history has a record of the run in the user's name, if the ID was new.
pub dashboard_frame_lem :
    (decode : Text → Option ExecRequest) (id : Text) (claims : Claims) (conn now c : ℕ)
    (msg : Message) (s : Server)
    → s.gateway.conn ≡ some c
    → is_closed c s.gateway.closed ≡ false
    → ((msg.type ≡ type_terminal_input) ⊎ (msg.type ≡ type_file_upload)
        → (dashboard_frame decode id claims conn now (some msg) s).gateway.sent
          ≡ s.gateway.sent ++ (c, msg) ∷ [])
      × ((req : ExecRequest)
          → msg.type ≡ type_exec_request
          → decode msg.payload ≡ some req
          → ((dashboard_frame decode id claims conn now (some msg) s).gateway.sent
              ≡ s.gateway.sent
                ++ map (λ agent. (c, record msg { req_id = id; agent_id = agent })) req.agent_ids)
            × (get id s.history ≡ none
                → 0 < s.history.max_size
                → get id (dashboard_frame decode id claims conn now (some msg) s).history
                  ≡ some (briefed (record_of id (some claims) now req))))
unfolding on_exec_request relay
dashboard_frame_lem decode id claims conn now c msg s e o = (
  λ t.
      ap (λ (x : Server). x.gateway.sent) (frame_relay decode id claims conn now msg s t)
      ∙ ap (λ (x : GatewayConn × Bool). x.0.sent) (send_open msg c s.gateway e o),
  λ req t d.
      let at = frame_exec decode id claims conn now msg s t in
      (
        ap (λ (x : Server). x.gateway.sent) at
            ∙ rw (d, on_exec_request)
                (ap (λ (g : GatewayConn). g.sent) (send_all_lem _ c s.gateway e o)
                  ∙ ap (λ l. s.gateway.sent ++ l) (map-map (λ m. (c, m)) _ req.agent_ids)),
        λ new room.
            ap (λ (x : Server). get id x.history) at
            ∙ rw (d, on_exec_request)
                (get-add (record_of id (some claims) now req) s.history new room),
      ),
)
