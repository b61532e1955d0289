-- ===== src/Api/Batch.antt =====
-- HandleBatchExec: which machines a script is run on, and what is sent to them.
pub mod Targets
pub mod Sent
use m_cloud.Base.{
  ℕ, Bool, true, false, ◌&&◌, not, List, [], ◌∷◌, ◌++◌, map, filter, take, length, min, Text, codes,
  ◌==◌, eqb, if◌then◌else◌, Option, none, some,
}
use m_cloud.Dict
use m_cloud.Protocol.{Message, AgentInfo, ExecRequest, type_exec_request}
use m_cloud.Store.{Store, online, get_online_machines, get_machines_by_group}
use m_cloud.History.{ExecRecord, add, running}
use m_cloud.Auth.Jwt.{Claims}
use m_cloud.Audit.{log}
use m_cloud.Http.{Request}
use m_cloud.Ws.{send_all}
use m_cloud.Api.{Server}

-- The responses: 400 twice, and 200 with the ID and the list of agents.
pub data Reply : Type 0 where
  invalid_request script_required : Reply
  started : Text → List Text → Reply

-- The agents of the request; with none, the online machines of the group of the query; with none of
-- these, all online machines.
unfoldable pub in_group : Text → List Text → Store → List Text
in_group group ids s =
    if not (group == []) && eqb (length ids) 0
    then ids
      ++ map (λ m. m.agent_id) (filter (λ m. m.status == online) (get_machines_by_group group s))
    else ids

unfoldable pub or_online : List Text → Store → List Text
or_online ids s =
    if eqb (length ids) 0 then ids ++ map (λ m. m.agent_id) (get_online_machines s) else ids

unfoldable pub targets : Text → List Text → Store → List Text
unfolding in_group or_online
targets group ids s = or_online (in_group group ids s) s

abbrev pub user_of : Option Claims → Text
user_of none = []
user_of (some c) = c.username

-- The record that goes into the history.
abbrev pub record_of : Text → Option Claims → ℕ → ExecRequest → ExecRecord
record_of id ctx now req = record {
  id = id;
  script = req.script;
  script_brief = [];
  timeout = req.timeout;
  agent_ids = req.agent_ids;
  results = Dict.empty;
  status = running;
  started_at = now;
  finished_at = none;
  user = user_of ctx;
}

-- `decode` and `encode` are those of encoding/json for an ExecRequest, and `id` is the new UUID.
module _ (decode : Text → Option ExecRequest) (encode : ExecRequest → Text) (id : Text) where
  -- The messages, one for each agent.
  abbrev pub messages : ExecRequest → List Message
  messages req =
      map
        (λ agent. record {
          type = type_exec_request;
          agent_id = agent;
          req_id = id;
          payload = encode req;
        })
        req.agent_ids

  unfoldable pub start : ExecRequest → Option Claims → Request → Server → Server
  start req ctx r s = record s {
    history = add (record_of id ctx r.time req) s.history;
    gateway = send_all (messages req) s.gateway;
    audit_log =
        log r.time
          (record {
            timestamp = none;
            action = codes "batch_exec";
            user = user_of ctx;
            ip = [];
            agent_id = [];
            detail = take (min 100 (length req.script)) req.script;
          })
          s.audit_log;
  }

  unfoldable pub handle_batch_exec : Option Claims → Request → Server → Reply × Server
  unfolding targets start
  handle_batch_exec ctx r s = elim (decode r.body) [
    | none ↦ (invalid_request, s)
    | some req ↦
        if req.script == []
        then (script_required, s)
        else let ids = targets (r.query (codes "group")) req.agent_ids s.store in
          let req = record req { agent_ids = ids } in (started id ids, start req ctx r s)
  ]
