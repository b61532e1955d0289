-- ===== src/Tests/Machines.antt =====
-- The machine table of the master on a table of one machine.
use m_cloud.Base.{ℕ, ◌≡◌, refl, arith, ◌*◌, ==_refl, [], ◌∷◌, codes, some}
use m_cloud.Base.Int.{pos}
use m_cloud.Dict.{get-empty, get-put}
use m_cloud.Protocol.{AgentInfo, zero_info}
use m_cloud.Store.{Store, init, online, update_machine, get_machine}
use m_cloud.Store.Invariant.{Run, start, call, register, cleanup, apply, IsValid, Run-IsValid}

abbrev pub web1 : AgentInfo
web1 = record zero_info {
  agent_id = codes "web1";
  hostname = codes "web1.example";
  tags = codes "web" ∷ [];
}

abbrev second : ℕ
second = 1_000_000_000

abbrev table : Store
table = update_machine second web1 init

abbrev web1_seen : AgentInfo
web1_seen = record web1 { last_seen = pos 1; status = online }

table_web1 : get_machine (codes "web1") table ≡ some web1_seen
unfolding get_machine update_machine
table_web1 = rw (get-empty, update_machine) (rw (get-put, ==_refl) refl)

cleaned_run :
    Run
      (100 * second)
      (apply (100 * second) (cleanup (90 * second)) (apply second (register web1) init))
cleaned_run =
    call (100 * second) (cleanup (90 * second)) (omega arith)
      (call second (register web1) (omega arith) start)

Run-IsValid_example :
    IsValid
      (100 * second)
      (apply (100 * second) (cleanup (90 * second)) (apply second (register web1) init))
Run-IsValid_example = Run-IsValid cleaned_run
