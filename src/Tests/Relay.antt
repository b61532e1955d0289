-- ===== src/Tests/Relay.antt =====
-- The gateway with one agent and a master.
use m_cloud.Base.{
  ℕ, ◌≡◌, ◌≢◌, if◌then◌else◌, refl, inl, true, false, arith, [], ◌∷◌, ◌++◌, Text, codes, ◌==◌,
  ==_refl, ap, starts_with, Option, none, some, In, ◌↔◌,
}
use m_cloud.Base.Int.{pos}
use m_cloud.Dict.{empty, put, get-put, get-empty}
use mathlib.Core.Path.{subst}
use m_cloud.Flags.{flag, flag-set_of}
use m_cloud.Protocol.{Message, ExecRequest, AgentInfo, type_register, type_exec_request}
use m_cloud.Http.{Request}
use m_cloud.Http.Origin.{check_origin}
use m_cloud.Gateway.Proxy.{
  Manager, init, is_closed, register_agent, get_agent, send_to_agent, send_to_master,
  set_master_conn, agent_frame, agent_lost, master_frame,
}
use m_cloud.Gateway.Proxy.Routing.{Reaches, master_frame_lem, copies}
use m_cloud.Gateway.Proxy.Reconnect.{reconnect_loses_agent}
use m_cloud.Gateway.Server.{
  Authenticator, new_authenticator, Gateway, agent, master, connect, connect_decision,
  connect_master, validate_agent, validate_master, master_decision, read_frame, accept,
}
use m_cloud.Gateway.Server.Attribution.{
  Reach, here, next, agent_connects, master_connects, frame_read, start, to_master-genuine,
}

abbrev with_web1 : Manager
with_web1 = record init { agents = put empty (codes "web1") 7 }

web1_open : is_closed 7 with_web1.closed ≡ false
unfolding is_closed
web1_open = refl

get_web1 : get_agent (codes "web1") with_web1 ≡ some 7
unfolding get_agent
get_web1 = rw (get-put, ==_refl) refl

web1_reached : Reaches with_web1 (codes "web1") 7
web1_reached = record { registered = rw (get-put, ==_refl) refl; is_open = web1_open }

abbrev uptime : Message
uptime = record {
  type = type_exec_request;
  agent_id = codes "web1";
  req_id = codes "1";
  payload = codes "web1";
}

abbrev registration : Message
registration = record { type = type_register; agent_id = codes "web9"; req_id = []; payload = [] }

-- Each payload is the ID of the one agent of a request.
abbrev decode : Text → Option ExecRequest
decode payload =
    some (record { script = codes "uptime"; timeout = pos 60; agent_ids = payload ∷ [] })

abbrev no_info : AgentInfo → Text
no_info info = info.agent_id

abbrev tokens : Authenticator
tokens = new_authenticator (codes "secret" ∷ [])

abbrev agent_query : Text → Text
agent_query name = if name == codes "agent_id" then codes "web1" else codes "secret"

-- The upgrade of an agent, from a client that names the host as its origin.
abbrev upgrade : Request
upgrade = record {
  method = codes "GET";
  path = codes "/connect";
  header = λ name. if name == codes "Origin" then codes "https://gw" else codes "topsecret";
  cookie = λ name. none;
  query = agent_query;
  body = [];
  remote_addr = codes "8.8.8.8";
  host = codes "gw";
  time = 0;
}

master_frame_lem_example :
    (uptime.type ≢ type_exec_request
      → master_frame decode (some uptime) with_web1
        ≡ record with_web1 { to_agents = with_web1.to_agents ++ (7, uptime) ∷ [] })
    × ((req : ExecRequest)
        → uptime.type ≡ type_exec_request
        → decode uptime.payload ≡ some req
        → req.agent_ids ≢ []
        → (master_frame decode (some uptime) with_web1 ≡ record with_web1 {
          to_agents =
              with_web1.to_agents
              ++ (7, uptime) ∷ copies with_web1.agents with_web1.closed req.agent_ids uptime;
        })
          × ((w : ℕ × Message)
              → In w (copies with_web1.agents with_web1.closed req.agent_ids uptime) ↔ (
                  (id : Text) × (c : ℕ) × In id req.agent_ids
                  × Reaches with_web1 id c
                  × (w ≡ (c, uptime)))))
master_frame_lem_example = master_frame_lem decode uptime 7 with_web1 (λ e. cc) web1_reached

reconnect_loses_agent_example :
    (In 7 (register_agent (codes "web1") 8 with_web1).closed)
    × (get_agent (codes "web1") (register_agent (codes "web1") 8 with_web1) ≡ some 8)
    × (get_agent
          (codes "web1")
          (agent_lost (codes "web1") 7 (register_agent (codes "web1") 8 with_web1))
        ≡ none)
    × (send_to_agent
          (codes "web1")
          uptime
          (agent_lost (codes "web1") 7 (register_agent (codes "web1") 8 with_web1))
        ≡ (agent_lost (codes "web1") 7 (register_agent (codes "web1") 8 with_web1), true))
    × (get_agent (codes "web1") (
          agent_frame
            (codes "web1")
            8
            (some registration)
            (agent_lost (codes "web1") 7 (register_agent (codes "web1") 8 with_web1)))
        ≡ some 8)
reconnect_loses_agent_example =
    reconnect_loses_agent (codes "web1") 7 8 with_web1 uptime registration get_web1
      (λ e. omega arith) refl

abbrev with_master : Gateway
with_master = record {
  manager = record init { master_conn = some 1 };
  readers = master 1 ∷ [];
  admitted = [];
}

abbrev with_agent : Gateway
with_agent = record {
  manager = record init { agents = put empty (codes "web1") 7; master_conn = some 1 };
  readers = agent (codes "web1") 7 ∷ master 1 ∷ [];
  admitted = (codes "web1", codes "secret") ∷ [];
}

master_joins : connect_master (codes "topsecret") upgrade 1 start ≡ with_master
unfolding connect_master master_decision validate_master check_origin set_master_conn ◌==◌
    starts_with
master_joins = refl

valid_token : flag tokens (codes "secret") ≡ true
unfolding new_authenticator
valid_token = (flag-set_of (codes "secret" ∷ []) (codes "secret")).1 (inl refl)

agent_accepted : connect_decision tokens upgrade ≡ accept
unfolding connect_decision validate_agent check_origin ◌==◌ starts_with
agent_accepted = rw valid_token refl

first_registered : register_agent (codes "web1") 7 with_master.manager ≡ with_agent.manager
unfolding register_agent
first_registered = rw (get-empty, register_agent) refl

agent_joins : connect tokens upgrade 7 with_master ≡ with_agent
unfolding connect ◌==◌
agent_joins =
    rw (agent_accepted, connect)
      (ap (λ (m : Manager). record with_agent { manager = m }) first_registered)

reached : Reach tokens (codes "topsecret") decode no_info (record with_agent {
  manager = read_frame decode (agent (codes "web1") 7) (some uptime) with_agent.manager;
})
reached =
    let r1 =
      subst (Reach tokens (codes "topsecret") decode no_info) master_joins
        (next here (master_connects upgrade 1)) in
    let r2 =
      subst (Reach tokens (codes "topsecret") decode no_info) agent_joins
        (next r1 (agent_connects upgrade 7)) in
    next r2 (frame_read (agent (codes "web1") 7) (some uptime) (inl refl))

to_master-genuine_example :
    (uptime.agent_id ≢ [])
    × ((token : Text) × In (uptime.agent_id, token) with_agent.admitted
        × (flag tokens token ≡ true))
unfolding read_frame agent_frame send_to_master ◌==◌ type_exec_request type_register is_closed
to_master-genuine_example =
    to_master-genuine tokens (codes "topsecret") decode no_info
      (record with_agent {
        manager = read_frame decode (agent (codes "web1") 7) (some uptime) with_agent.manager;
      })
      1 uptime reached (inl refl)
