-- ===== src/Api/Batch/Targets.antt =====
-- The machines that a batch run is sent to.
use m_cloud.Base.{
  ◌≡◌, ◌≢◌, ◌↔◌, refl, sym, inl, inr, false, List, [], ◌∷◌, map, arith, length, Text, ◌==◌, ==_iff,
  eqb, In, In-map, In-map_split, In-filter, In-filter_split, filter, Bool-cases,
}
use mathlib.Core.Path.{subst}
use m_cloud.Protocol.{AgentInfo}
use m_cloud.Store.{Store, online, get_online_machines, get_machines_by_group}
use m_cloud.Api.Batch.{in_group, or_online, targets}

-- The IDs of the machines of a group that are online.
abbrev online_in : Text → Store → List Text
online_in group s =
    map (λ m. m.agent_id) (filter (λ m. m.status == online) (get_machines_by_group group s))

abbrev all_online : Store → List Text
all_online s = map (λ m. m.agent_id) (get_online_machines s)

or_online-some : (ids : List Text) (s : Store) → ids ≢ [] → or_online ids s ≡ ids
unfolding or_online
or_online-some [] s h = absurd (h refl)
or_online-some (i ∷ ids) s h = let n : eqb (length (i ∷ ids)) 0 ≡ false = ground arith in rw n refl

in_group-nil : (group : Text) (s : Store) → group ≢ [] → in_group group [] s ≡ online_in group s
unfolding in_group ◌==◌ get_machines_by_group
in_group-nil [] s h = absurd (h refl)
in_group-nil (c ∷ g) s h = refl

in_group-some : (group : Text) (ids : List Text) (s : Store) → ids ≢ [] → in_group group ids s ≡ ids
unfolding in_group
in_group-some group [] s h = absurd (h refl)
in_group-some group (i ∷ ids) s h =
    let n : eqb (length (i ∷ ids)) 0 ≡ false = ground arith in
    elim (Bool-cases (group == [])) [ inl e ↦ rw e refl | inr e ↦ rw (e, n) refl ]

In-online_in :
    (group : Text) (s : Store) (id : Text)
    → In id (online_in group s) ↔ (
        (n : AgentInfo) × In n (get_machines_by_group group s)
        × (n.status ≡ online)
        × (n.agent_id ≡ id))
In-online_in group s id =
    let ms = get_machines_by_group group s in
    (
      λ i.
          let (n, j, e) = In-map_split (λ (m : AgentInfo). m.agent_id) id _ i in
          let (k, b) = In-filter_split (λ m. m.status == online) n ms j in
          (n, k, (==_iff n.status online).0 b, sym e),
      λ w.
          let (n, k, o, e) = w in
          subst (λ t. In t (online_in group s)) e
            (In-map (λ (m : AgentInfo). m.agent_id) n _
              (In-filter (λ m. m.status == online) n ms k ((==_iff n.status online).1 o))),
    )

none_online :
    (ms : List AgentInfo)
    → ((m : AgentInfo) → In m ms → m.status ≢ online)
    → filter (λ m. m.status == online) ms ≡ []
none_online [] h = refl
none_online (m ∷ ms) h =
    let off : (m.status == online) ≡ false =
      ground (arith, h m (inl refl), ==_iff m.status online) in
    rw off (none_online ms (λ n i. h n (inr i)))

none_named : (s : Store) → or_online (in_group [] [] s) s ≡ all_online s
unfolding or_online in_group ◌==◌
none_named s = refl

or_online-nil : (s : Store) → or_online [] s ≡ all_online s
unfolding or_online
or_online-nil s = refl

-- A batch run goes to the agents that the request lists. If it lists none and names a group, it goes
-- to the machines of that group that are online; but if none of them is, it goes to all machines
-- that are online, as it does if no group is named.
pub targets_lem :
    (group : Text) (ids : List Text) (s : Store)
    → (ids ≢ [] → targets group ids s ≡ ids)
      × ((m : AgentInfo)
          → group ≢ []
          → In m (get_machines_by_group group s)
          → m.status ≡ online
          → (id : Text)
          → In id (targets group [] s) ↔ (
              (n : AgentInfo) × In n (get_machines_by_group group s)
              × (n.status ≡ online)
              × (n.agent_id ≡ id)))
      × (((m : AgentInfo) → In m (get_machines_by_group group s) → m.status ≢ online)
          → targets group [] s ≡ all_online s)
      × (targets [] [] s ≡ all_online s)
unfolding targets
targets_lem group ids s = (
  λ some_id. rw (in_group-some group ids s some_id) (or_online-some ids s some_id),
  λ m named i on id.
      let found : In m.agent_id (online_in group s) =
        (In-online_in group s m.agent_id).1 (m, i, on, refl) in
      let filled : online_in group s ≢ [] = λ e. elim (rw e at found) [ ] in
      rw (in_group-nil group s named, or_online-some (online_in group s) s filled)
        (In-online_in group s id),
  λ off. elim (Bool-cases (group == [])) [
    | inl e ↦ rw ((==_iff group []).0 e) (none_named s)
    | inr e ↦
        let named : group ≢ [] = λ q. cc ((==_iff group []).1 q, e) in
        rw (in_group-nil group s named, none_online (get_machines_by_group group s) off)
          (or_online-nil s)
  ],
  none_named s,
)
