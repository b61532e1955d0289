-- ===== src/Api/Dashboard.antt =====
-- HandleDashboardWS: the connection of a browser, and what the master does with each of its frames.
-- The new connection is numbered `conn`, `client` is the UUID that it is given, and `id` is the UUID
-- for a run. Writes to a browser's own connection stand in the hub's list.
pub mod Relayed
use m_cloud.Base.{
  ℕ, Bool, true, false, not, ◌||◌, List, [], ◌∷◌, map, Text, codes, ◌==◌, if◌then◌else◌, Option,
  none, some, ok, err,
}
use m_cloud.Protocol.{
  Message, ExecRequest, type_terminal_input, type_terminal_resize, type_exec_request,
  type_file_upload,
}
use m_cloud.Store.{get_all_machines}
use m_cloud.History.{add}
use m_cloud.Auth.Jwt.{Jose, Claims, validate_token}
use m_cloud.Http.{Request, unauthorized}
use m_cloud.Http.Origin.{check_origin}
use m_cloud.Ws.{register, unregister, push_to, machine_list, subscribed, send, send_all}
use m_cloud.Api.{Server}
use m_cloud.Api.Batch.{record_of}

-- What becomes of the request: a status, a failed upgrade, or a loop for a user.
pub data Decision : Type 0 where
  reject : ℕ → Decision
  upgrade_failed : Decision
  serve : Claims → Decision

unfoldable pub dashboard_decision : Jose → Request → Server → Decision
dashboard_decision lib r s =
    let token = r.query (codes "token") in
    if token == [] then reject unauthorized else elim (validate_token lib r.time s.jwt token) [
      | err e ↦ reject unauthorized
      | ok claims ↦ if not (check_origin r) then upgrade_failed else serve claims
    ]

-- The handler up to its loop.
unfoldable pub dashboard_connects : Jose → Request → Text → ℕ → Server → Decision × Server
dashboard_connects lib r client conn s =
    let d = dashboard_decision lib r s in
    (
      d,
      elim d [
        | reject status ↦ s
        | upgrade_failed ↦ s
        | serve claims ↦ record s {
          hub = push_to conn (machine_list (get_all_machines s.store)) (register client conn s.hub);
        }
      ],
    )

-- The deferred calls, after a read error.
unfoldable pub dashboard_lost : Text → Server → Server
dashboard_lost client s = record s { hub = unregister client s.hub }

-- A run that a browser asks for.
unfoldable pub on_exec_request :
    (Text → Option ExecRequest) → Text → Claims → ℕ → Message → Server → Server
on_exec_request decode id claims now msg s = elim (decode msg.payload) [
  | none ↦ s
  | some req ↦ record s {
    history = add (record_of id (some claims) now req) s.history;
    gateway =
        send_all (map (λ agent. record msg { req_id = id; agent_id = agent }) req.agent_ids)
          s.gateway;
  }
]

unfoldable pub relay : Message → Server → Server
relay msg s = record s { gateway = (send msg s.gateway).0 }

-- The body of the loop, for a frame of the user `claims` on `conn`.
unfoldable pub dashboard_frame :
    (Text → Option ExecRequest) → Text → Claims → ℕ → ℕ → Option Message → Server → Server
dashboard_frame decode id claims conn now none s = s
dashboard_frame decode id claims conn now (some msg) s =
    if msg.type == type_terminal_input
    then relay msg s
    else if msg.type == type_terminal_resize
    then relay msg s
    else if msg.type == type_exec_request
    then on_exec_request decode id claims now msg s
    else if msg.type == type_file_upload
    then relay msg s
    else if msg.type == codes "subscribe"
    then record s { hub = push_to conn subscribed s.hub }
    else s
