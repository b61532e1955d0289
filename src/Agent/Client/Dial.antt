-- ===== src/Agent/Client/Dial.antt =====
-- The start of cmd/agent/main.go, and the request with which connect dials the gateway. net/url adds
-- the parameters and the standard dialler sends what it is given: `dialler` is the request of a dial
-- of the same URL with no parameter and no header of the agent's.
use m_cloud.Base.{
  ℕ, ◌≡◌, refl, true, false, not, [], ◌++◌, Text, codes, ◌==◌, if◌then◌else◌, Option, none, some,
}
use m_cloud.Base.Numbers.{decimal}
use m_cloud.Dict
use m_cloud.Env.{Env, get_env}
use m_cloud.Http.{Request}
use m_cloud.Gateway.Server.{Gateway}
use m_cloud.Agent.Client.{Agent}

-- `number` is rand.Intn(10000).
unfoldable pub generate_id : Text → ℕ → Text
unfolding decimal
generate_id hostname number = hostname ++ codes "-" ++ decimal number

unfoldable pub start : Env → Text → ℕ → Agent
unfolding get_env generate_id
start env hostname number = record {
  id = get_env env (codes "AGENT_ID") (generate_id hostname number);
  gateway = get_env env (codes "GATEWAY_URL") (codes "ws://localhost:8081/connect");
  token = get_env env (codes "AGENT_TOKEN") [];
  conn = none;
  closed = [];
  sessions = Dict.empty;
  shells = [];
  stopped = false;
  restarting = false;
  sent = [];
  calls = [];
}

-- close(agent.stopCh) on a signal; it panics if a "shutdown" command has closed the channel before.
unfoldable pub on_signal : Agent → Option Agent
on_signal a = if a.stopped then none else some (record a { stopped = true })

unfoldable pub dial_request : Agent → Request → Request
dial_request a dialler = record dialler {
  query = λ key.
      if key == codes "agent_id"
      then a.id
      else if key == codes "token"
      then if not (a.token == []) then a.token else dialler.query key
      else dialler.query key;
  header = λ key. if key == codes "X-Agent-ID" then a.id else dialler.header key;
}

origin_lem :
    (a : Agent) (dialler : Request)
    → (dial_request a dialler).header (codes "Origin") ≡ dialler.header (codes "Origin")
unfolding dial_request ◌==◌
origin_lem a dialler = refl
