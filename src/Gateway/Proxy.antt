-- ===== src/Gateway/Proxy.antt =====
-- internal/gateway/proxy/proxy.go. A connection is a number. `to_agents` and `to_master` are what
-- SendToAgent and SendToMaster have written, oldest first, and `closed` the connections on which
-- Close was called; a write to one of those fails, and any other is taken to go through. A frame is
-- the message that json.Unmarshal reads from it, or `none`. Each method runs under its lock.
pub mod Fields
pub mod Routing
pub mod Reconnect
use m_cloud.Base.{
  ℕ, Bool, true, false, not, ◌&&◌, ◌||◌, List, [], ◌∷◌, ◌++◌, Text, ◌==◌, eqb, if◌then◌else◌,
  Option, none, some, length,
}
use m_cloud.Dict
use m_cloud.Dict.{Dict}
use m_cloud.Protocol.{Message, ExecRequest, type_register, type_exec_request}

pub record Manager : Type 0 where
  pub agents : Dict ℕ
  pub master_conn : Option ℕ
  pub to_agents : List (ℕ × Message)
  pub to_master : List (ℕ × Message)
  pub closed : List ℕ

abbrev pub init : Manager
init = record {
  agents = Dict.empty;
  master_conn = none;
  to_agents = [];
  to_master = [];
  closed = [];
}

unfoldable pub is_closed : ℕ → List ℕ → Bool
is_closed c [] = false
is_closed c (d ∷ ds) = eqb c d || is_closed c ds

abbrev pub close : ℕ → Manager → Manager
close c m = record m { closed = c ∷ m.closed }

-- RegisterAgent: an older connection of the agent is closed.
unfoldable pub register_agent : Text → ℕ → Manager → Manager
register_agent id conn m = elim (Dict.get m.agents id) [
  | none ↦ record m { agents = Dict.put m.agents id conn }
  | some old ↦
      if not (eqb old conn)
      then record m { agents = Dict.put m.agents id conn; closed = old ∷ m.closed }
      else record m { agents = Dict.put m.agents id conn }
]

unfoldable pub unregister_agent : Text → Manager → Manager
unregister_agent id m = record m { agents = Dict.remove m.agents id }

unfoldable pub get_agent : Text → Manager → Option ℕ
get_agent id m = Dict.get m.agents id

unfoldable pub get_all_agent_ids : Manager → List Text
get_all_agent_ids m = Dict.keys m.agents

unfoldable pub set_master_conn : ℕ → Manager → Manager
set_master_conn conn m = elim m.master_conn [
  | none ↦ record m { master_conn = some conn }
  | some old ↦ record m { master_conn = some conn; closed = old ∷ m.closed }
]

unfoldable pub clear_master_conn : Manager → Manager
clear_master_conn m = record m { master_conn = none }

-- The flag is false where the source returns an error.
unfoldable pub send_to_agent : Text → Message → Manager → Manager × Bool
send_to_agent id msg m = elim (Dict.get m.agents id) [
  | none ↦ (m, true)
  | some conn ↦
      if is_closed conn m.closed
      then (m, false)
      else (record m { to_agents = m.to_agents ++ (conn, msg) ∷ [] }, true)
]

unfoldable pub broadcast_to_agents : List Text → Message → Manager → Manager
broadcast_to_agents [] msg m = m
broadcast_to_agents (id ∷ ids) msg m = broadcast_to_agents ids msg (send_to_agent id msg m).0

unfoldable pub send_to_master : Message → Manager → Manager × Bool
send_to_master msg m = elim m.master_conn [
  | none ↦ (m, true)
  | some conn ↦
      if is_closed conn m.closed
      then (m, false)
      else (record m { to_master = m.to_master ++ (conn, msg) ∷ [] }, true)
]

-- The body of the loop of ForwardAgentToMaster, for a frame from the agent `id` on `conn`.
unfoldable pub agent_frame : Text → ℕ → Option Message → Manager → Manager
agent_frame id conn none m = m
agent_frame id conn (some msg) m =
    let own = record msg { agent_id = id } in
    let m' = if own.type == type_register then register_agent id conn m else m in
    (send_to_master own m').0

-- The end of ForwardAgentToMaster, after a read error.
unfoldable pub agent_lost : Text → ℕ → Manager → Manager
agent_lost id conn m = close conn (unregister_agent id m)

-- The body of the loop of ForwardMasterToAgent; `decode` reads an ExecRequest.
unfoldable pub master_frame : (Text → Option ExecRequest) → Option Message → Manager → Manager
master_frame decode none m = m
master_frame decode (some msg) m =
    let m' = if not (msg.agent_id == []) then (send_to_agent msg.agent_id msg m).0 else m in
    if msg.type == type_exec_request
    then elim (decode msg.payload) [
      | none ↦ m'
      | some req ↦
          if eqb (length req.agent_ids) 0 then m' else broadcast_to_agents req.agent_ids msg m'
    ]
    else m'

unfoldable pub master_lost : ℕ → Manager → Manager
master_lost conn m = close conn (clear_master_conn m)
