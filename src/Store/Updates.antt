-- ===== src/Store/Updates.antt =====
-- What each method of the store does to what get_machine returns.
use m_cloud.Base.{
  ℕ, ◌-◌, ◌≡◌, ◌≢◌, refl, inl, inr, List, [], Text, ◌==◌, ==_iff, ==_refl, if◌then◌else◌, Option,
  none, some, arith, Option-cases,
}
use mathlib.Core.Option
use m_cloud.Dict
use m_cloud.Dict.{get-put, get-modify, get-update_all}
use m_cloud.Protocol.{AgentInfo, MachineMetrics, zero_info}
use m_cloud.Store.{
  Store, online, offline, unix, merge, expire, update_machine, get_machine, set_offline,
  cleanup_stale, set_tags, set_group, update_metrics,
}

-- The entry that a registration leaves, over the entry that was there.
abbrev pub entered : ℕ → AgentInfo → Option AgentInfo → AgentInfo
entered now info none = record info { last_seen = unix now; status = online }
entered now info (some m) = merge m (record info { last_seen = unix now; status = online })

-- The entry for `j` after a change of the entry for `id`.
abbrev pub edited : (AgentInfo → AgentInfo) → Text → Text → Option AgentInfo → Option AgentInfo
edited f id j o = if id == j then Option.map f o else o

module _ (s : Store) where
  pub get-update_machine :
      (now : ℕ) (info : AgentInfo) (j : Text)
      → get_machine j (update_machine now info s) ≡ (
          if info.agent_id == j then some (entered now info (get_machine j s)) else get_machine j s)
  unfolding update_machine get_machine
  get-update_machine now info j = elim (Option-cases (Dict.get s.machines info.agent_id)) [
    | inl e ↦
        rw (e, update_machine)
          (ground (
            arith,
            get-put s.machines info.agent_id j (entered now info none),
            ==_iff info.agent_id j,
          ))
    | inr (m, e) ↦
        rw (e, update_machine)
          (ground (
            arith,
            get-put s.machines info.agent_id j (entered now info (some m)),
            ==_iff info.agent_id j,
          ))
  ]

  pub get-set_offline :
      (id j : Text)
      → get_machine j (set_offline id s)
        ≡ edited (λ m. record m { status = offline }) id j (get_machine j s)
  unfolding set_offline get_machine
  get-set_offline id j = get-modify s.machines id j _

  pub get-set_tags :
      (id j : Text) (tags : List Text)
      → get_machine j (set_tags id tags s)
        ≡ edited (λ m. record m { tags = tags }) id j (get_machine j s)
  unfolding set_tags get_machine
  get-set_tags id j tags = get-modify s.machines id j _

  pub get-set_group :
      (id j group : Text)
      → get_machine j (set_group id group s)
        ≡ edited (λ m. record m { group = group }) id j (get_machine j s)
  unfolding set_group get_machine
  get-set_group id j group = get-modify s.machines id j _

  pub get-update_metrics :
      (now : ℕ) (id j : Text) (x : MachineMetrics)
      → get_machine j (update_metrics now id x s)
        ≡ edited
            (λ m. record m { metrics = some x; last_seen = unix now; status = online })
            id
            j
            (get_machine j s)
  unfolding update_metrics get_machine
  get-update_metrics now id j x = get-modify s.machines id j _

  pub get-cleanup_stale :
      (now threshold : ℕ) (j : Text)
      → get_machine j (cleanup_stale now threshold s)
        ≡ Option.map (expire (unix (now - threshold))) (get_machine j s)
  unfolding cleanup_stale get_machine
  get-cleanup_stale now threshold j = get-update_all _ s.machines j

-- A registration of a known machine marks it online at the present second and keeps its tags, its
-- group, its metrics and its ID, whatever the agent sends in those fields. Its hostname becomes
-- the one sent, unless that is empty. No other machine changes.
pub update_machine_known :
    (now : ℕ) (info m : AgentInfo) (s : Store)
    → get_machine info.agent_id s ≡ some m
    → (m' : AgentInfo) × (get_machine info.agent_id (update_machine now info s) ≡ some m')
      × (m'.status ≡ online)
      × (m'.last_seen ≡ unix now)
      × (m'.tags ≡ m.tags)
      × (m'.group ≡ m.group)
      × (m'.metrics ≡ m.metrics)
      × (m'.agent_id ≡ m.agent_id)
      × (info.hostname ≢ [] → m'.hostname ≡ info.hostname)
      × (info.hostname ≡ [] → m'.hostname ≡ m.hostname)
      × ((j : Text)
          → info.agent_id ≢ j
          → get_machine j (update_machine now info s) ≡ get_machine j s)
unfolding merge
update_machine_known now info m s known = (
  merge m (record info { last_seen = unix now; status = online }),
  rw (get-update_machine, ==_refl, known) refl,
  refl,
  refl,
  refl,
  refl,
  refl,
  refl,
  ground arith,
  ground arith,
  λ j ne. ground (arith, get-update_machine s now info j, ==_iff info.agent_id j),
)

-- A heartbeat, which is a registration with nothing but the ID filled in, changes of a known
-- machine the status and the time it was last seen, and nothing else.
pub heartbeat_lem :
    (now : ℕ) (id : Text) (m : AgentInfo) (s : Store)
    → get_machine id s ≡ some m
    → get_machine id (update_machine now (record zero_info { agent_id = id; status = online }) s)
      ≡ some (record m { status = online; last_seen = unix now })
unfolding merge
heartbeat_lem now id m s known = rw (get-update_machine, ==_refl, known) refl
