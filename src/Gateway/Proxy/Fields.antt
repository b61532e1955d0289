-- ===== src/Gateway/Proxy/Fields.antt =====
-- Which fields of the manager each method leaves as they were.
use m_cloud.Base.{
  ℕ, ◌≡◌, refl, ◌∙◌, inl, inr, List, [], ◌∷◌, arith, Text, ◌==◌, eqb, if◌then◌else◌, some,
  Bool-cases, Option-cases,
}
use m_cloud.Dict
use m_cloud.Dict.{get-put}
use m_cloud.Protocol.{Message}
use m_cloud.Gateway.Proxy.{
  Manager, register_agent, get_agent, send_to_agent, broadcast_to_agents, send_to_master,
  set_master_conn,
}

pub get-register_agent :
    (id j : Text) (conn : ℕ) (m : Manager)
    → get_agent j (register_agent id conn m) ≡ (if id == j then some conn else get_agent j m)
unfolding get_agent register_agent
get-register_agent id j conn m = elim (Option-cases (Dict.get m.agents id)) [
  | inl e ↦ rw (e, register_agent) (get-put m.agents id j conn)
  | inr (old, e) ↦ elim (Bool-cases (eqb old conn)) [
    | inl q ↦ rw (e, q, register_agent) (get-put m.agents id j conn)
    | inr q ↦ rw (e, q, register_agent) (get-put m.agents id j conn)
  ]
]

pub to_master-register_agent :
    (id : Text) (conn : ℕ) (m : Manager) → (register_agent id conn m).to_master ≡ m.to_master
unfolding register_agent
to_master-register_agent id conn m = ground arith

pub agents-send_to_master :
    (msg : Message) (m : Manager) → (send_to_master msg m).0.agents ≡ m.agents
unfolding send_to_master
agents-send_to_master msg m = ground arith

-- A manager with the same agents and the same messages to the master.
pub record SameView (m m' : Manager) : Type 0 where
  pub agents : m'.agents ≡ m.agents
  pub to_master : m'.to_master ≡ m.to_master

pub send_to_agent-SameView :
    (id : Text) (msg : Message) (m : Manager) → SameView m (send_to_agent id msg m).0
unfolding send_to_agent
send_to_agent-SameView id msg m = record { agents = ground arith; to_master = ground arith }

pub broadcast-SameView :
    (ids : List Text) (msg : Message) (m : Manager) → SameView m (broadcast_to_agents ids msg m)
unfolding broadcast_to_agents
broadcast-SameView [] msg m = record { agents = refl; to_master = refl }
broadcast-SameView (id ∷ ids) msg m =
    let one = send_to_agent-SameView id msg m in
    let more = broadcast-SameView ids msg (send_to_agent id msg m).0 in
    record { agents = more.agents ∙ one.agents; to_master = more.to_master ∙ one.to_master }

pub set_master_conn-SameView : (conn : ℕ) (m : Manager) → SameView m (set_master_conn conn m)
unfolding set_master_conn
set_master_conn-SameView conn m = record { agents = ground arith; to_master = ground arith }
