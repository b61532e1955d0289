-- ===== src/Tests/Runs.antt =====
-- The history of script runs, with two runs and a history that keeps one.
use m_cloud.Base.{◌≡◌, ◌<◌, refl, true, List, [], ◌∷◌, ◌==◌, map, take_last, codes, none, some, ℕ}
use m_cloud.Base.Int.{pos, ◌≤ℤ◌}
use m_cloud.Dict
use m_cloud.Dict.{get-empty}
use m_cloud.History.{
  ExecResult, ExecRecord, ExecHistory, running, completed, new, briefed, add, update_result, find,
  get,
}
use m_cloud.History.Bounds.{add_all, records-add_all, IsBriefed}
use m_cloud.History.Results.{AllDone, update_result_completes}

-- A run of "uptime" on two agents.
abbrev uptime_run : ExecRecord
uptime_run = record {
  id = codes "exec-1";
  script = codes "uptime";
  script_brief = [];
  timeout = pos 60;
  agent_ids = codes "web1" ∷ codes "web2" ∷ [];
  results = Dict.empty;
  status = running;
  started_at = 0;
  finished_at = none;
  user = codes "admin";
}

abbrev df_run : ExecRecord
df_run = record uptime_run { id = codes "exec-2"; script = codes "df" }

abbrev two_runs : List ExecRecord
two_runs = uptime_run ∷ df_run ∷ []

abbrev last_only : ExecHistory
last_only = add_all two_runs (new (pos 1))

abbrev one_run : ExecHistory
one_run = add uptime_run (new (pos 500))

abbrev from_web1 : ExecResult
from_web1 = record {
  agent_id = codes "web1";
  exit_code = pos 0;
  output = codes "up";
  error = [];
  finished = true;
}

last_only_records : map (λ r. r.id) last_only.records ≡ codes "exec-2" ∷ []
unfolding add_all new add briefed ◌==◌
last_only_records = refl

one_run_uptime : get (codes "exec-1") one_run ≡ some uptime_run
unfolding get find add new briefed ◌==◌
one_run_uptime = refl

nothing_yet : AllDone uptime_run.results
nothing_yet a x e = absurd (cc (e, get-empty {V = ExecResult} a))

records-add_all_example :
    ((add_all two_runs (new (pos 1))).records
      ≡ take_last (new (pos 1)).max_size (map briefed two_runs))
    × ((pos 1) ≤ℤ pos 0 → (new (pos 1)).max_size ≡ 500)
    × ((k : ℕ) → 0 < k → (pos 1) ≡ pos k → (new (pos 1)).max_size ≡ k)
    × ((r : ExecRecord) → IsBriefed r (briefed r))
records-add_all_example = records-add_all (pos 1) two_runs

update_result_completes_example :
    (r' : ExecRecord) × (get (codes "exec-1") (update_result 7 (codes "exec-1") from_web1 one_run)
      ≡ some r')
    × (r'.status ≡ completed)
    × (r'.agent_ids ≡ uptime_run.agent_ids)
update_result_completes_example =
    update_result_completes 7 (codes "exec-1") from_web1 one_run uptime_run one_run_uptime
      nothing_yet refl
