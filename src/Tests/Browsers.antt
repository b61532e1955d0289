-- ===== src/Tests/Browsers.antt =====
-- Browsers that ask the master for runs, and the list of the runs.
use m_cloud.Audit.{log}
use m_cloud.Dict
use m_cloud.History.Bounds.{IsBriefed}
use m_cloud.History.{ExecRecord, add}
use m_cloud.Base.{
  List, length, ◌≤◌, ℕ, ◌≡◌, ◌≢◌, ◌↔◌, ◌⊎◌, ◌<◌, refl, false, [], ◌∷◌, ◌++◌, map, Text, codes, ◌==◌,
  none, some, In, take,
}
use m_cloud.Base.Int.{pos}
use m_cloud.Protocol.{
  Message, AgentInfo, ExecRequest, type_exec_request, type_terminal_input, type_file_upload,
}
use m_cloud.Store.{online, get_machines_by_group, get_online_machines}
use m_cloud.History.{briefed, get}
use m_cloud.Auth.Jwt.{Claims}
use m_cloud.Gateway.Proxy.{is_closed}
use m_cloud.Api.Batch.{started, targets, record_of, handle_batch_exec}
use m_cloud.Api.Batch.Targets.{targets_lem}
use m_cloud.Api.Batch.Sent.{handle_batch_exec_lem}
use m_cloud.Api.Dashboard.{dashboard_frame}
use m_cloud.Api.Dashboard.Relayed.{dashboard_frame_lem}
use m_cloud.Api.Listing.{handle_exec_history}
use m_cloud.Api.Listing.Pages.{handle_exec_history_lem, preview}
use m_cloud.Tests.Web.{visit}
use m_cloud.Tests.Console.{console, uptime_on_web1, decode_run, encode_run}

targets_lem_example :
    ((codes "web1" ∷ []) ≢ []
      → targets (codes "db") (codes "web1" ∷ []) console.store ≡ (codes "web1" ∷ []))
    × ((m : AgentInfo)
        → (codes "db") ≢ []
        → In m (get_machines_by_group (codes "db") console.store)
        → m.status ≡ online
        → (id : Text)
        → In id (targets (codes "db") [] console.store) ↔ (
            (n : AgentInfo) × In n (get_machines_by_group (codes "db") console.store)
            × (n.status ≡ online)
            × (n.agent_id ≡ id)))
    × (((m : AgentInfo)
          → In m (get_machines_by_group (codes "db") console.store)
          → m.status ≢ online)
        → targets (codes "db") [] console.store
          ≡ map (λ m. m.agent_id) (get_online_machines console.store))
    × (targets [] [] console.store ≡ map (λ m. m.agent_id) (get_online_machines console.store))
targets_lem_example = targets_lem (codes "db") (codes "web1" ∷ []) console.store

handle_batch_exec_lem_example :
    ((handle_batch_exec decode_run encode_run (codes "run1") none visit console).0
      ≡ started (codes "run1") (codes "web1" ∷ []))
    × (get (codes "run1") console.history ≡ none
        → 0 < console.history.max_size
        → (filed : ExecRecord) × (get
              (codes "run1")
              (handle_batch_exec decode_run encode_run (codes "run1") none visit console).1.history
            ≡ some filed)
          × IsBriefed
              (record {
                id = (codes "run1");
                script = uptime_on_web1.script;
                script_brief = [];
                timeout = uptime_on_web1.timeout;
                agent_ids = (codes "web1" ∷ []);
                results = Dict.empty;
                status = codes "running";
                started_at = visit.time;
                finished_at = none;
                user = ([]);
              })
              filed)
    × ((c : ℕ)
        → console.gateway.conn ≡ some c
        → is_closed c console.gateway.closed ≡ false
        → (handle_batch_exec decode_run encode_run (codes "run1") none visit console).1.gateway.sent
          ≡ console.gateway.sent
            ++ map
                (λ agent. (
                  c,
                  record {
                    type = type_exec_request;
                    agent_id = agent;
                    req_id = (codes "run1");
                    payload =
                        encode_run (record uptime_on_web1 { agent_ids = (codes "web1" ∷ []) });
                  },
                ))
                (codes "web1" ∷ []))
    × ((handle_batch_exec decode_run encode_run (codes "run1") none visit console).1.audit_log
        ≡ log visit.time
            (record {
              timestamp = none;
              action = codes "batch_exec";
              user = ([]);
              ip = [];
              agent_id = [];
              detail = take 100 uptime_on_web1.script;
            })
            console.audit_log)
    × ((handle_batch_exec decode_run encode_run (codes "run1") none visit console).1.store
        ≡ console.store)
    × ((handle_batch_exec decode_run encode_run (codes "run1") none visit console).1.users
        ≡ console.users)
    × ((handle_batch_exec decode_run encode_run (codes "run1") none visit console).1.hub
        ≡ console.hub)
unfolding targets ◌==◌
handle_batch_exec_lem_example =
    handle_batch_exec_lem decode_run encode_run (codes "run1") none visit console uptime_on_web1
      (codes "web1" ∷ []) [] (λ c e. cc, λ e. refl) refl (λ e. cc) refl

-- A user who may only look.
abbrev viewer : Claims
viewer = record { username = codes "vic"; role = codes "viewer"; exp = pos 100; iat = pos 0 }

abbrev uptime_message : Message
uptime_message = record {
  type = type_exec_request;
  agent_id = [];
  req_id = [];
  payload = codes "run";
}

dashboard_frame_lem_example :
    ((uptime_message.type ≡ type_terminal_input) ⊎ (uptime_message.type ≡ type_file_upload)
      → (dashboard_frame decode_run
          (codes "run2")
          viewer
          3
          9
          (some uptime_message)
          console).gateway.sent
        ≡ console.gateway.sent ++ (1, uptime_message) ∷ [])
    × ((req : ExecRequest)
        → uptime_message.type ≡ type_exec_request
        → decode_run uptime_message.payload ≡ some req
        → ((dashboard_frame decode_run
              (codes "run2")
              viewer
              3
              9
              (some uptime_message)
              console).gateway.sent
            ≡ console.gateway.sent
              ++ map
                  (λ agent.
                    (1, record uptime_message { req_id = (codes "run2"); agent_id = agent }))
                  req.agent_ids)
          × (get (codes "run2") console.history ≡ none
              → 0 < console.history.max_size
              → get
                  (codes "run2")
                  (dashboard_frame decode_run
                    (codes "run2")
                    viewer
                    3
                    9
                    (some uptime_message)
                    console).history
                ≡ some (briefed (record_of (codes "run2") (some viewer) 9 req))))
unfolding is_closed
dashboard_frame_lem_example =
    dashboard_frame_lem decode_run (codes "run2") viewer 3 9 1 uptime_message console refl refl

abbrev uptime_record : ExecRecord
uptime_record = record_of (codes "run3") (some viewer) 9 uptime_on_web1

handle_exec_history_lem_example :
    (length (handle_exec_history visit console) ≤ 100)
    × (visit.query (codes "limit") ≡ []
        → visit.query (codes "offset") ≡ []
        → 0 < console.history.max_size
        → (rest : List ExecRecord) × (handle_exec_history visit
              (record console { history = add uptime_record console.history })
            ≡ record uptime_record { script = preview uptime_record; script_brief = [] } ∷ rest))
handle_exec_history_lem_example = handle_exec_history_lem visit console uptime_record
