-- ===== src/Ws.antt =====
-- internal/master/ws/ws.go: the browsers that are connected to the master, and the connection to the
-- gateway. `sent` is what was written, oldest first; `closed` the connections on which Close was
-- called, to which a write fails. Any other write is taken to go through.
pub mod Laws
use m_cloud.Base.{
  ℕ, Bool, true, false, List, [], ◌∷◌, ◌++◌, map, length, Text, if◌then◌else◌, Option, none, some,
}
use m_cloud.Dict
use m_cloud.Dict.{Dict}
use m_cloud.Protocol.{
  Message, AgentInfo, MachineMetrics, ExecResponse, FileUploadResp, FileDownloadResp,
  TerminalOutput,
}
use m_cloud.Gateway.Proxy.{is_closed}

-- The JSON objects that are sent to browsers.
pub data Push : Type 0 where
  machine_update : AgentInfo → Push
  terminal_output : Text → TerminalOutput → Push
  exec_response : Text → Text → ExecResponse → Push
  file_upload_resp : Text → Text → FileUploadResp → Push
  metrics_push : Text → MachineMetrics → Push
  file_download_resp : Text → Text → FileDownloadResp → Push
  machine_list : List AgentInfo → Push
  subscribed : Push

-- Each client is known by its connection.
pub record Hub : Type 0 where
  pub clients : Dict ℕ
  pub pushed : List (ℕ × Push)

unfoldable pub register : Text → ℕ → Hub → Hub
register id conn h = record h { clients = Dict.put h.clients id conn }

unfoldable pub unregister : Text → Hub → Hub
unregister id h = record h { clients = Dict.remove h.clients id }

unfoldable pub client_count : Hub → ℕ
client_count h = length (Dict.range h.clients)

-- Broadcast ignores the errors of the writes.
unfoldable pub broadcast : Push → Hub → Hub
broadcast p h = record h { pushed = h.pushed ++ map (λ c. (c, p)) (Dict.values h.clients) }

-- A write to one browser's connection.
unfoldable pub push_to : ℕ → Push → Hub → Hub
push_to conn p h = record h { pushed = h.pushed ++ (conn, p) ∷ [] }

pub record GatewayConn : Type 0 where
  pub conn : Option ℕ
  pub sent : List (ℕ × Message)
  pub closed : List ℕ

unfoldable pub set_conn : ℕ → GatewayConn → GatewayConn
set_conn c g = elim g.conn [
  | none ↦ record g { conn = some c }
  | some old ↦ record g { conn = some c; closed = old ∷ g.closed }
]

unfoldable pub clear_conn : GatewayConn → GatewayConn
clear_conn g = record g { conn = none }

-- The flag is false where the source returns an error.
unfoldable pub send : Message → GatewayConn → GatewayConn × Bool
send msg g = elim g.conn [
  | none ↦ (g, true)
  | some c ↦
      if is_closed c g.closed
      then (g, false)
      else (record g { sent = g.sent ++ (c, msg) ∷ [] }, true)
]

unfoldable pub is_connected : GatewayConn → Bool
is_connected g = elim g.conn [ none ↦ false | some c ↦ true ]

-- Send for each message of a list; the callers ignore the errors.
unfoldable pub send_all : List Message → GatewayConn → GatewayConn
unfolding send
send_all [] g = g
send_all (m ∷ ms) g = send_all ms (send m g).0
