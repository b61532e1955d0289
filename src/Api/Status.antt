-- ===== src/Api/Status.antt =====
-- HandleStatus, HandleAuditLog and HandleExecDetail: the state of the master as its pages show it.
use m_cloud.Base.{ℕ, List, [], codes, ◌==◌, ltb, if◌then◌else◌, Option, none, some, length}
use m_cloud.Base.Int.{ℤ, pos, negsuc}
use m_cloud.Store.{get_online_machines, get_all_machines}
use m_cloud.History.{ExecRecord, get}
use m_cloud.Audit.{Entry, recent}
use m_cloud.Http.{Request}
use m_cloud.Ws.{client_count}
use m_cloud.Api.{Server}
use m_cloud.Api.Listing.{parameter}

pub record Status : Type 0 where
  pub total_machines : ℕ
  pub online_machines : ℕ
  pub ws_clients : ℕ

unfoldable pub handle_status : Server → Status
handle_status s = record {
  total_machines = length (get_all_machines s.store);
  online_machines = length (get_online_machines s.store);
  ws_clients = client_count s.hub;
}

-- parsed > 0, else 100.
unfoldable pub count_of : Option ℤ → ℕ
count_of none = 100
count_of (some (negsuc n)) = 100
count_of (some (pos n)) = if ltb 0 n then n else 100

unfoldable pub handle_audit_log : Request → Server → List Entry
unfolding count_of
handle_audit_log r s = recent (count_of (parameter (codes "n") r)) s.audit_log

-- The responses of HandleExecDetail: 400, 404 and 200 with the record.
pub data Detail : Type 0 where
  id_required not_found : Detail
  found : ExecRecord → Detail

unfoldable pub handle_exec_detail : Request → Server → Detail
handle_exec_detail r s =
    let id = r.query (codes "id") in
    if id == []
    then id_required
    else elim (get id s.history) [ none ↦ not_found | some record_found ↦ found record_found ]
