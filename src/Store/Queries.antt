-- ===== src/Store/Queries.antt =====
-- What the queries of the store list.
use m_cloud.Base.{
  ℕ, ◌-◌, ◌≡◌, ◌≢◌, ◌↔◌, ◌⊎◌, refl, ap, ◌∙◌, ◌&&◌, inl, inr, true, Bool, List, [], ◌∷◌, Text, ◌==◌,
  ==_iff, if◌then◌else◌, some, arith, Option-cases, Bool-cases, In, In-filter, In-filter_split,
  Distinct, some_inj,
}
use mathlib.Core.Path.{subst}
use m_cloud.Base.Int.{ℤ, ◌≤ℤ◌, ltb_ℤ}
use m_cloud.Dict
use m_cloud.Dict.{
  Dict, In-values, In-values_split, In-keys, In-keys_split, keys-Distinct, get-put, get-empty,
}
use m_cloud.Protocol.{AgentInfo}
use m_cloud.Store.Updates.{get-cleanup_stale}
use m_cloud.Store.{
  Store, online, offline, unix, expire, get_machine, cleanup_stale, get_online_machines,
  get_all_machines, get_machines_by_tag, get_machines_by_group, has_tag, see_tags, see_all_tags,
  get_all_tags,
}

offline-ne-online : offline ≢ online
unfolding online offline
offline-ne-online e = cc e

module _ (s : Store) where
  pub In-get_all_machines :
      (m : AgentInfo) → In m (get_all_machines s) → (id : Text) × (get_machine id s ≡ some m)
  unfolding get_all_machines get_machine
  In-get_all_machines m h = In-values_split s.machines m h

  pub In-get_all_machines_known :
      (id : Text) (m : AgentInfo) → get_machine id s ≡ some m → In m (get_all_machines s)
  unfolding get_all_machines get_machine
  In-get_all_machines_known id m e = In-values s.machines id m e

  In-get_online_machines :
      (m : AgentInfo)
      → In m (get_online_machines s)
      → (id : Text) × (get_machine id s ≡ some m) × (m.status ≡ online)
  unfolding get_online_machines get_machine
  In-get_online_machines m h =
      let (h', e) = In-filter_split (λ m. m.status == online) m (Dict.values s.machines) h in
      let (id, q) = In-values_split s.machines m h' in (id, q, (==_iff _ _).0 e)

  get_online_machines-In :
      (id : Text) (m : AgentInfo)
      → get_machine id s ≡ some m
      → m.status ≡ online
      → In m (get_online_machines s)
  unfolding get_online_machines get_machine
  get_online_machines-In id m q e =
      In-filter (λ m. m.status == online) m (Dict.values s.machines) (In-values s.machines id m q)
        ((==_iff _ _).1 e)

expire-online :
    (cutoff : ℤ) (m m' : AgentInfo)
    → expire cutoff m ≡ m'
    → m'.status ≡ online
    → (m ≡ m') × (cutoff ≤ℤ m'.last_seen)
unfolding expire
expire-online cutoff m m' e o = elim (Bool-cases (ltb_ℤ m.last_seen cutoff)) [
  | inl p ↦ elim (Bool-cases (m.status == online)) [
    | inl q ↦ absurd (offline-ne-online (ap (λ (x : AgentInfo). x.status) (rw (p, q) at e) ∙ o))
    | inr q ↦
        let e' : m ≡ m' = rw (p, q) at e in
        absurd (cc (q, (==_iff m.status online).1 (ap (λ (x : AgentInfo). x.status) e' ∙ o)))
  ]
  | inr p ↦
      let e' : m ≡ m' = rw p at e in
      (e', subst (λ (x : AgentInfo). cutoff ≤ℤ x.last_seen) e' (ground arith))
]

expire_kept : (cutoff : ℤ) (m : AgentInfo) → cutoff ≤ℤ m.last_seen → expire cutoff m ≡ m
unfolding expire
expire_kept cutoff m h = ground arith

-- After CleanupStale the machines listed as online are exactly those that were listed as online
-- before and whose machine was seen in the second of `now - threshold` or later, unchanged.
pub cleanup_stale_online :
    (now threshold : ℕ) (s : Store) (m : AgentInfo)
    → In m (get_online_machines (cleanup_stale now threshold s))
      ↔ (In m (get_online_machines s) × (unix (now - threshold) ≤ℤ m.last_seen))
cleanup_stale_online now threshold s m = (
  λ h.
      let (id, q, o) = In-get_online_machines (cleanup_stale now threshold s) m h in
      elim (Option-cases (get_machine id s)) [
        | inl e ↦ absurd (cc (rw (get-cleanup_stale, e) at q))
        | inr (m₀, e) ↦
            let (same, fresh) =
              expire-online (unix (now - threshold)) m₀ m
                (some_inj (rw (get-cleanup_stale, e) at q)) o in
            (get_online_machines-In s id m (e ∙ ap some same) o, fresh)
      ],
  λ h.
      let (id, q, o) = In-get_online_machines s m h.0 in
      get_online_machines-In (cleanup_stale now threshold s) id m
        (rw (get-cleanup_stale, q) (ap some (expire_kept _ m h.1))) o,
)

-- CleanupStale drops no machine and, of each, changes nothing but the status.
pub cleanup_stale_keeps :
    (now threshold : ℕ) (s : Store) (id : Text) (m : AgentInfo)
    → get_machine id s ≡ some m
    → (status : Text) × (get_machine id (cleanup_stale now threshold s)
        ≡ some (record m { status = status }))
unfolding expire
cleanup_stale_keeps now threshold s id m q =
    elim (Bool-cases (ltb_ℤ m.last_seen (unix (now - threshold)) && m.status == online)) [
      | inl p ↦ (offline, rw (get-cleanup_stale, q) (ap some (rw p)))
      | inr p ↦ (m.status, rw (get-cleanup_stale, q) (ap some (rw p)))
    ]

has_tag-In : (tag : Text) (ts : List Text) → (has_tag tag ts ≡ true) ↔ In tag ts
unfolding has_tag
has_tag-In tag [] = (λ h. cc, λ m. elim m [ ])
has_tag-In tag (t ∷ ts) = ground (arith, has_tag-In tag ts, ==_iff t tag)

-- GetMachinesByTag lists exactly the machines of the table that bear the tag.
pub get_machines_by_tag_lem :
    (tag : Text) (s : Store) (m : AgentInfo)
    → In m (get_machines_by_tag tag s)
      ↔ (((id : Text) × (get_machine id s ≡ some m)) × In tag m.tags)
unfolding get_machines_by_tag get_machine
get_machines_by_tag_lem tag s m = (
  λ h.
      let (h', e) = In-filter_split (λ m. has_tag tag m.tags) m (Dict.values s.machines) h in
      (In-values_split s.machines m h', (has_tag-In tag m.tags).0 e),
  λ h.
      In-filter (λ m. has_tag tag m.tags) m (Dict.values s.machines)
        (In-values s.machines h.0.0 m h.0.1) ((has_tag-In tag m.tags).1 h.1),
)

-- GetMachinesByGroup lists exactly the machines of the table that are in the group.
pub get_machines_by_group_lem :
    (group : Text) (s : Store) (m : AgentInfo)
    → In m (get_machines_by_group group s)
      ↔ (((id : Text) × (get_machine id s ≡ some m)) × (m.group ≡ group))
unfolding get_machines_by_group get_machine
get_machines_by_group_lem group s m = (
  λ h.
      let (h', e) = In-filter_split (λ m. m.group == group) m (Dict.values s.machines) h in
      (In-values_split s.machines m h', (==_iff m.group group).0 e),
  λ h.
      In-filter (λ m. m.group == group) m (Dict.values s.machines)
        (In-values s.machines h.0.0 m h.0.1) ((==_iff m.group group).1 h.1),
)

get-see_tags :
    (t : Text) (ts : List Text) (seen : Dict Bool)
    → Dict.get (see_tags ts seen) t ≡ (if has_tag t ts then some true else Dict.get seen t)
unfolding see_tags has_tag
get-see_tags t [] seen = refl
get-see_tags t (u ∷ ts) seen =
    ground (arith, get-see_tags t ts (Dict.put seen u true), get-put seen u t true)

-- Some machine of the list bears the tag.
abbrev Bears : Text → List AgentInfo → Type 0
Bears t ms = (m : AgentInfo) × In m ms × In t m.tags

see_all_tags_sound :
    (t : Text) (ms : List AgentInfo) (seen : Dict Bool) (b : Bool)
    → Dict.get (see_all_tags ms seen) t ≡ some b
    → Bears t ms ⊎ (Dict.get seen t ≡ some b)
unfolding see_all_tags
see_all_tags_sound t [] seen b h = inr h
see_all_tags_sound t (m ∷ ms) seen b h = elim (see_all_tags_sound t ms (see_tags m.tags seen) b h) [
  | inl (m', i, g) ↦ inl (m', inr i, g)
  | inr e ↦ elim (Bool-cases (has_tag t m.tags)) [
    | inl q ↦ inl (m, inl refl, (has_tag-In t m.tags).0 q)
    | inr q ↦ inr (rw (get-see_tags, q) at e)
  ]
]

see_all_tags_old :
    (t : Text) (ms : List AgentInfo) (seen : Dict Bool)
    → Dict.get seen t ≡ some true
    → Dict.get (see_all_tags ms seen) t ≡ some true
unfolding see_all_tags
see_all_tags_old t [] seen h = h
see_all_tags_old t (m ∷ ms) seen h =
    see_all_tags_old t ms (see_tags m.tags seen) (ground (arith, get-see_tags t m.tags seen))

see_all_tags_complete :
    (t : Text) (ms : List AgentInfo) (seen : Dict Bool) (m : AgentInfo)
    → In m ms
    → In t m.tags
    → Dict.get (see_all_tags ms seen) t ≡ some true
unfolding see_all_tags
see_all_tags_complete t [] seen m i g = elim i [ ]
see_all_tags_complete t (m' ∷ ms) seen m (inl e) g =
    see_all_tags_old t ms (see_tags m'.tags seen) (
      rw (get-see_tags, (has_tag-In t m'.tags).1 (subst (λ (x : AgentInfo). In t x.tags) e g)) refl)
see_all_tags_complete t (m' ∷ ms) seen m (inr i) g =
    see_all_tags_complete t ms (see_tags m'.tags seen) m i g

-- GetAllTags lists a tag exactly when some machine bears it, and lists none twice.
pub get_all_tags_lem :
    (s : Store)
    → Distinct (get_all_tags s)
      × ((t : Text)
          → In t (get_all_tags s) ↔ ((m : AgentInfo) × In m (get_all_machines s) × In t m.tags))
unfolding get_all_tags get_all_machines
get_all_tags_lem s = (
  keys-Distinct (see_all_tags (Dict.values s.machines) Dict.empty),
  λ t. (
    λ h.
        let (b, e) = In-keys_split (see_all_tags (Dict.values s.machines) Dict.empty) t h in
        elim (see_all_tags_sound t (Dict.values s.machines) Dict.empty b e) [
          | inl w ↦ w
          | inr q ↦ absurd (cc (q, get-empty {V = Bool} t))
        ],
    λ w.
        In-keys (see_all_tags (Dict.values s.machines) Dict.empty) t true
          (see_all_tags_complete t (Dict.values s.machines) Dict.empty w.0 w.1 w.2),
  ),
)
