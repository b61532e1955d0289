-- ===== src/Store.antt =====
-- internal/master/store/store.go: the master's table of machines. Each method takes the time
-- in nanoseconds since 1970 where the source reads the clock; a method holds the store's lock for
-- its whole body, so a run is a sequence of calls.
pub mod Updates
pub mod Invariant
pub mod Queries
use m_cloud.Base.{
  ℕ, ◌-◌, ◌/◌, ◌^◌, Bool, true, ◌&&◌, ◌||◌, List, [], ◌∷◌, ◌++◌, Text, codes, ◌==◌, ltb,
  if◌then◌else◌, filter, Option, none, some,
}
use m_cloud.Base.Int.{ℤ, pos, ltb_ℤ}
use m_cloud.Dict
use m_cloud.Dict.{Dict}
use m_cloud.Protocol.{AgentInfo, MachineMetrics}

unfoldable pub online : Text
online = codes "online"

unfoldable pub offline : Text
offline = codes "offline"

-- time.Time.Unix
abbrev pub unix : ℕ → ℤ
unix now = pos (now / 1_000_000_000)

pub record Store : Type 0 where
  pub machines : Dict AgentInfo

abbrev pub init : Store
init = record { machines = Dict.empty }

-- if new != "" { old = new }
abbrev pub newer : Text → Text → Text
newer [] old = old
newer (c ∷ s) old = c ∷ s

-- if new > 0 { old = new }
abbrev pub newer_ℕ : ℕ → ℕ → ℕ
newer_ℕ new old = if ltb 0 new then new else old

abbrev pub newer_ℤ : ℤ → ℤ → ℤ
newer_ℤ new old = if ltb_ℤ (pos 0) new then new else old

-- The branch of UpdateMachine for a machine that is known.
unfoldable pub merge : AgentInfo → AgentInfo → AgentInfo
merge existing info = record existing {
  hostname = newer info.hostname existing.hostname;
  os = newer info.os existing.os;
  distributor_id = newer info.distributor_id existing.distributor_id;
  description = newer info.description existing.description;
  release = newer info.release existing.release;
  codename = newer info.codename existing.codename;
  public_ip = newer info.public_ip existing.public_ip;
  location = newer info.location existing.location;
  cpu_model = newer info.cpu_model existing.cpu_model;
  cpu_cores = newer_ℤ info.cpu_cores existing.cpu_cores;
  memory_mb = newer_ℕ info.memory_mb existing.memory_mb;
  disk_gb = newer_ℕ info.disk_gb existing.disk_gb;
  disk_used = newer_ℕ info.disk_used existing.disk_used;
  uptime = newer_ℕ info.uptime existing.uptime;
  last_seen = info.last_seen;
  status = info.status;
}

unfoldable pub update_machine : ℕ → AgentInfo → Store → Store
update_machine now info s =
    let seen = record info { last_seen = unix now; status = online } in
    elim (Dict.get s.machines info.agent_id) [
      | none ↦ record { machines = Dict.put s.machines info.agent_id seen }
      | some existing ↦ record {
        machines = Dict.put s.machines info.agent_id (merge existing seen);
      }
    ]

unfoldable pub set_offline : Text → Store → Store
set_offline id s = record {
  machines = Dict.modify s.machines id (λ m. record m { status = offline });
}

unfoldable pub get_machine : Text → Store → Option AgentInfo
get_machine id s = Dict.get s.machines id

unfoldable pub get_all_machines : Store → List AgentInfo
get_all_machines s = Dict.values s.machines

unfoldable pub get_online_machines : Store → List AgentInfo
get_online_machines s = filter (λ m. m.status == online) (Dict.values s.machines)

-- The loop body of CleanupStale.
unfoldable pub expire : ℤ → AgentInfo → AgentInfo
expire cutoff m =
    if ltb_ℤ m.last_seen cutoff && m.status == online then record m { status = offline } else m

-- The clock stands at least `threshold` after 1970.
unfoldable pub cleanup_stale : ℕ → ℕ → Store → Store
unfolding expire
cleanup_stale now threshold s = record {
  machines = Dict.update_all (expire (unix (now - threshold))) s.machines;
}

unfoldable pub set_tags : Text → List Text → Store → Store
set_tags id tags s = record { machines = Dict.modify s.machines id (λ m. record m { tags = tags }) }

unfoldable pub set_group : Text → Text → Store → Store
set_group id group s = record {
  machines = Dict.modify s.machines id (λ m. record m { group = group });
}

-- The inner loop of GetMachinesByTag.
unfoldable pub has_tag : Text → List Text → Bool
has_tag tag [] = Bool.false
has_tag tag (t ∷ ts) = t == tag || has_tag tag ts

unfoldable pub get_machines_by_tag : Text → Store → List AgentInfo
get_machines_by_tag tag s = filter (λ m. has_tag tag m.tags) (Dict.values s.machines)

unfoldable pub get_machines_by_group : Text → Store → List AgentInfo
get_machines_by_group group s = filter (λ m. m.group == group) (Dict.values s.machines)

-- The loops of GetAllTags over a machine's tags and over the machines.
unfoldable pub see_tags : List Text → Dict Bool → Dict Bool
see_tags [] seen = seen
see_tags (t ∷ ts) seen = see_tags ts (Dict.put seen t true)

unfoldable pub see_all_tags : List AgentInfo → Dict Bool → Dict Bool
unfolding see_tags
see_all_tags [] seen = seen
see_all_tags (m ∷ ms) seen = see_all_tags ms (see_tags m.tags seen)

unfoldable pub get_all_tags : Store → List Text
unfolding see_all_tags
get_all_tags s = Dict.keys (see_all_tags (Dict.values s.machines) Dict.empty)

unfoldable pub see_groups : List AgentInfo → Dict Bool → Dict Bool
see_groups [] seen = seen
see_groups (m ∷ ms) seen =
    see_groups ms (if m.group == [] then seen else Dict.put seen m.group true)

unfoldable pub get_all_groups : Store → List Text
unfolding see_groups
get_all_groups s = Dict.keys (see_groups (Dict.values s.machines) Dict.empty)

unfoldable pub update_metrics : ℕ → Text → MachineMetrics → Store → Store
update_metrics now id metrics s = record {
  machines =
      Dict.modify s.machines id
        (λ m. record m { metrics = some metrics; last_seen = unix now; status = online });
}
