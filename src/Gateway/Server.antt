-- ===== src/Gateway/Server.antt =====
-- cmd/gateway/main.go and internal/gateway/auth/auth.go: the handlers, the loop that dials the
-- master, and a gateway as a whole that steps from event to event. `readers` are the loops that
-- read a connection; `admitted` remembers the IDs and tokens that the connect handler accepted.
pub mod Concerns
pub mod Attribution
use m_cloud.Base.{
  ℕ, Bool, true, false, not, ◌&&◌, ◌||◌, List, [], ◌∷◌, ◌++◌, Text, codes, split, ◌==◌, eqb,
  if◌then◌else◌, Option, none, some, In,
}
use m_cloud.Dict.{Dict}
use m_cloud.Flags.{set_of, flag}
use m_cloud.Protocol.{Message, ExecRequest, AgentInfo, zero_info, type_register}
use m_cloud.Http.{Request, bad_request, unauthorized}
use m_cloud.Http.Origin.{check_origin}
use m_cloud.Gateway.Proxy.{
  Manager, close, register_agent, get_all_agent_ids, set_master_conn, clear_master_conn,
  send_to_agent, send_to_master, agent_frame, agent_lost, master_frame, master_lost,
}

-- strings.Split(v, ","), or no token at all.
unfoldable pub get_env_slice : Text → Text → List Text
get_env_slice v fallback =
    if v == [] then if not (fallback == []) then split b',' fallback else [] else split b',' v

-- auth.New, ValidateAgent and ValidateMaster.
abbrev pub Authenticator : Type 0
Authenticator = Dict Bool

unfoldable pub new_authenticator : List Text → Authenticator
new_authenticator tokens = set_of tokens

unfoldable pub validate_agent : Authenticator → Text → Text → Bool
validate_agent a agent_id token = flag a token

unfoldable pub validate_master : Request → Text → Bool
validate_master r master_secret = r.header (codes "X-Master-Secret") == master_secret

pub data Reader : Type 0 where
  agent : Text → ℕ → Reader
  master : ℕ → Reader
  dialed : ℕ → Reader

pub record Gateway : Type 0 where
  pub manager : Manager
  pub readers : List Reader
  pub admitted : List (Text × Text)

-- What the handler of /connect decides: a status, or that the connection is taken.
pub data Decision : Type 0 where
  reject : ℕ → Decision
  upgrade_failed : Decision
  accept : Decision

unfoldable pub connect_decision : Authenticator → Request → Decision
connect_decision a r =
    let agent_id = r.query (codes "agent_id") in
    let token = r.query (codes "token") in
    if agent_id == []
    then reject bad_request
    else if not (validate_agent a agent_id token)
    then reject unauthorized
    else if not (check_origin r)
    then upgrade_failed
    else accept

unfoldable pub master_decision : Text → Request → Decision
master_decision master_secret r =
    if not (validate_master r master_secret)
    then reject unauthorized
    else if not (check_origin r)
    then upgrade_failed
    else accept

abbrev pub admit_agent : Text → Text → ℕ → Gateway → Gateway
admit_agent id token conn g = record g {
  manager = register_agent id conn g.manager;
  readers = agent id conn ∷ g.readers;
  admitted = (id, token) ∷ g.admitted;
}

unfoldable pub connect : Authenticator → Request → ℕ → Gateway → Gateway
connect a r conn g = elim (connect_decision a r) [
  | reject status ↦ g
  | upgrade_failed ↦ g
  | accept ↦ admit_agent (r.query (codes "agent_id")) (r.query (codes "token")) conn g
]

unfoldable pub connect_master : Text → Request → ℕ → Gateway → Gateway
connect_master master_secret r conn g = elim (master_decision master_secret r) [
  | reject status ↦ g
  | upgrade_failed ↦ g
  | accept ↦ record g {
    manager = set_master_conn conn g.manager;
    readers = master conn ∷ g.readers;
  }
]

-- The registration that connectToMaster sends for an agent; `info` encodes an AgentInfo.
abbrev pub re_registration : (AgentInfo → Text) → Text → Message
re_registration info id = record {
  type = type_register;
  agent_id = id;
  req_id = [];
  payload = info (record zero_info { agent_id = id; status = codes "online" });
}

unfoldable pub re_register : (AgentInfo → Text) → List Text → Manager → Manager
re_register info [] m = m
re_register info (id ∷ ids) m = re_register info ids (send_to_master (re_registration info id) m).0

-- A round of connectToMaster that got through to the master.
unfoldable pub dial_master : (AgentInfo → Text) → ℕ → Gateway → Gateway
dial_master info conn g =
    let m = set_master_conn conn g.manager in
    record g {
      manager = re_register info (get_all_agent_ids m) m;
      readers = dialed conn ∷ g.readers;
    }

-- A frame that the loop of connectToMaster reads goes to the agent that it names, and to no other.
unfoldable pub dialed_frame : Option Message → Manager → Manager
dialed_frame none m = m
dialed_frame (some msg) m =
    if not (msg.agent_id == []) then (send_to_agent msg.agent_id msg m).0 else m

unfoldable pub read_frame :
    (Text → Option ExecRequest) → Reader → Option Message → Manager → Manager
read_frame decode (agent id conn) frame m = agent_frame id conn frame m
read_frame decode (master conn) frame m = master_frame decode frame m
read_frame decode (dialed conn) frame m = dialed_frame frame m

unfoldable pub read_error : Reader → Manager → Manager
read_error (agent id conn) m = agent_lost id conn m
read_error (master conn) m = master_lost conn m
read_error (dialed conn) m = master_lost conn m
