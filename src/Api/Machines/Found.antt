-- ===== src/Api/Machines/Found.antt =====
-- Which machines a request lists, also after one that sets tags.
use m_cloud.Base.{◌≡◌, ◌≢◌, ◌↔◌, inl, inr, [], Text, codes, ◌==◌, ==_iff, some, In, Bool-cases}
use m_cloud.Protocol.{AgentInfo}
use m_cloud.Store.{get_machine}
use m_cloud.Store.Queries.{
  get_machines_by_tag_lem, get_machines_by_group_lem, In-get_all_machines,
  In-get_all_machines_known,
}
use m_cloud.Http.{Request}
use m_cloud.Api.{Server}
use m_cloud.Api.Machines.{handle_machines}

-- HandleMachines lists exactly the machines of the table that bear the tag of the query; with no tag,
-- those of its group; and with neither, all of them.
pub handle_machines_lem :
    (r : Request) (s : Server) (m : AgentInfo)
    → In m (handle_machines r s) ↔ (
        ((id : Text) × (get_machine id s.store ≡ some m))
        × (r.query (codes "tag") ≢ [] → In (r.query (codes "tag")) m.tags)
        × (r.query (codes "tag") ≡ []
            → r.query (codes "group") ≢ []
            → m.group ≡ r.query (codes "group")))
unfolding handle_machines
handle_machines_lem r s m = elim (Bool-cases (r.query (codes "tag") == [])) [
  | inr t ↦
      let by_tag = get_machines_by_tag_lem (r.query (codes "tag")) s.store m in
      let tagged : r.query (codes "tag") ≢ [] =
        λ e. cc ((==_iff (r.query (codes "tag")) []).1 e, t) in
      (
        λ i.
            let (found, bears) = by_tag.0 (rw (t, handle_machines) at i) in
            (found, (λ h. bears), λ h. absurd (tagged h)),
        λ w.
            let (found, bears, rest) = w in
            rw (t, handle_machines) (by_tag.1 (found, bears tagged)),
      )
  | inl t ↦
      let untagged : r.query (codes "tag") ≡ [] = (==_iff (r.query (codes "tag")) []).0 t in
      elim (Bool-cases (r.query (codes "group") == [])) [
        | inr g ↦
            (let by_group = get_machines_by_group_lem (r.query (codes "group")) s.store m in
              let named : r.query (codes "group") ≢ [] =
                λ e. cc ((==_iff (r.query (codes "group")) []).1 e, g) in
              (
                λ i.
                    let (found, inside) = by_group.0 (rw (t, g, handle_machines) at i) in
                    (found, (λ h. absurd (h untagged)), λ h k. inside),
                λ w.
                    let (found, bears, rest) = w in
                    rw (t, g, handle_machines) (by_group.1 (found, rest untagged named)),
              ))
        | inl g ↦
            (let ungrouped : r.query (codes "group") ≡ [] =
                (==_iff (r.query (codes "group")) []).0 g in
              (
                λ i. (
                  In-get_all_machines s.store m (rw (t, g, handle_machines) at i),
                  (λ h. absurd (h untagged)),
                  λ h k. absurd (k ungrouped),
                ),
                λ w.
                    let ((id, e), bears, rest) = w in
                    rw (t, g, handle_machines) (In-get_all_machines_known s.store id m e),
              ))
      ]
]
