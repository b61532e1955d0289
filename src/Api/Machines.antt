-- ===== src/Api/Machines.antt =====
-- The handlers of machines, tags and groups. `tags_of` reads the list of tags of a body. A handler
-- behind the guards has the claims of its user; `crashed` is the panic it ends with where it reads
-- claims that are not there.
pub mod Found
use m_cloud.Base.{
  ℕ, Bool, true, false, ◌||◌, List, [], ◌∷◌, Text, codes, ◌==◌, if◌then◌else◌, Option, none, some,
}
use m_cloud.Protocol.{AgentInfo}
use m_cloud.Store.{
  get_machine, get_all_machines, get_machines_by_tag, get_machines_by_group, set_tags, set_group,
  get_all_tags, get_all_groups,
}
use m_cloud.Auth.Jwt.{Claims}
use m_cloud.Audit.{log}
use m_cloud.Http.{Request}
use m_cloud.Api.{Server}

-- The responses: 400 with a text, 404, 200 with what was asked for, 200 with "ok", and a panic.
pub data Reply : Type 0 where
  refused : Text → Reply
  not_found : Reply
  machine : AgentInfo → Reply
  names : List Text → Reply
  done : Reply
  crashed : Reply

unfoldable pub handle_machines : Request → Server → List AgentInfo
handle_machines r s =
    let tag = r.query (codes "tag") in
    let group = r.query (codes "group") in
    if tag == []
    then if group == [] then get_all_machines s.store else get_machines_by_group group s.store
    else get_machines_by_tag tag s.store

unfoldable pub handle_machine_detail : Request → Server → Reply
handle_machine_detail r s =
    let id = r.query (codes "id") in
    if id == []
    then refused (codes "id required")
    else elim (get_machine id s.store) [ none ↦ not_found | some m ↦ machine m ]

unfoldable pub handle_machine_tags :
    (Text → Option (List Text)) → Option Claims → Request → Server → Reply × Server
handle_machine_tags tags_of ctx r s =
    let id = r.query (codes "id") in
    if id == []
    then (refused (codes "id required"), s)
    else if r.method == codes "PUT"
    then elim (tags_of r.body) [
      | none ↦ (refused (codes "invalid request"), s)
      | some tags ↦ elim ctx [
        | none ↦ (crashed, record s { store = set_tags id tags s.store })
        | some claims ↦ (
          done,
          record s {
            store = set_tags id tags s.store;
            audit_log =
                log r.time
                  (record {
                    timestamp = none;
                    action = codes "set_tags";
                    user = claims.username;
                    ip = [];
                    agent_id = id;
                    detail = [];
                  })
                  s.audit_log;
          },
        )
      ]
    ]
    else (names (get_all_tags s.store), s)

unfoldable pub handle_machine_group : Request → Server → Reply × Server
handle_machine_group r s =
    let id = r.query (codes "id") in
    let group = r.query (codes "group") in
    if id == [] || group == []
    then (refused (codes "id and group required"), s)
    else (done, record s { store = set_group id group s.store })

unfoldable pub handle_groups : Server → Reply
handle_groups s = names (get_all_groups s.store)
