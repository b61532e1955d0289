-- ===== src/Gateway/Proxy/Routing.antt =====
-- Which connections a message from the master reaches.
use m_cloud.Base.{
  ℕ, ◌≡◌, ◌≢◌, ◌↔◌, refl, sym, ap, ◌∙◌, inl, inr, true, false, List, [], ◌∷◌, ◌++◌, append_assoc,
  append-nil, arith, Text, ◌==◌, ==_iff, eqb, if◌then◌else◌, Option, none, some, Bool-cases,
  Option-cases, In, length,
}
use m_cloud.Dict
use m_cloud.Protocol.{Message, ExecRequest, type_exec_request}
use m_cloud.Gateway.Proxy.{Manager, is_closed, send_to_agent, broadcast_to_agents, master_frame}

-- The agent is registered on this connection, which is open.
pub record Reaches (m : Manager) (id : Text) (conn : ℕ) : Type 0 where
  pub registered : Dict.get m.agents id ≡ some conn
  pub is_open : is_closed conn m.closed ≡ false

-- What a broadcast to the agents writes, on the open connections where it finds them.
unfoldable pub copies : Dict.Dict ℕ → List ℕ → List Text → Message → List (ℕ × Message)
copies agents closed [] msg = []
copies agents closed (id ∷ ids) msg = elim (Dict.get agents id) [
  | none ↦ copies agents closed ids msg
  | some conn ↦
      if is_closed conn closed
      then copies agents closed ids msg
      else (conn, msg) ∷ copies agents closed ids msg
]

send_reached :
    (m : Manager) (id : Text) (conn : ℕ) (msg : Message)
    → Reaches m id conn
    → send_to_agent id msg m ≡ (record m { to_agents = m.to_agents ++ (conn, msg) ∷ [] }, true)
unfolding send_to_agent
send_reached m id conn msg r = rw (r.registered, r.is_open, send_to_agent) refl

-- A broadcast changes nothing but what was written to agents.
broadcast_lem :
    (ids : List Text) (msg : Message) (m : Manager)
    → broadcast_to_agents ids msg m
      ≡ record m { to_agents = m.to_agents ++ copies m.agents m.closed ids msg }
unfolding broadcast_to_agents copies send_to_agent
broadcast_lem [] msg m = ap (λ l. record m { to_agents = l }) (sym (append-nil m.to_agents))
broadcast_lem (id ∷ ids) msg m = elim (Option-cases (Dict.get m.agents id)) [
  | inl e ↦ rw (e, send_to_agent, copies) (broadcast_lem ids msg m)
  | inr (conn, e) ↦ elim (Bool-cases (is_closed conn m.closed)) [
    | inl c ↦ rw (e, c, send_to_agent, copies) (broadcast_lem ids msg m)
    | inr c ↦
        rw (e, c, send_to_agent, copies)
          (broadcast_lem ids msg (record m { to_agents = m.to_agents ++ (conn, msg) ∷ [] })
            ∙ ap (λ l. record m { to_agents = l })
                (append_assoc m.to_agents ((conn, msg) ∷ []) (copies m.agents m.closed ids msg)))
  ]
]

In-copies :
    (m : Manager) (ids : List Text) (msg : Message) (id : Text) (conn : ℕ)
    → In id ids
    → Reaches m id conn
    → In (conn, msg) (copies m.agents m.closed ids msg)
unfolding copies
In-copies m [] msg id conn i r = elim i [ ]
In-copies m (j ∷ ids) msg id conn (inl e) r =
    let q : Dict.get m.agents j ≡ some conn = rw e at r.registered in
    rw (q, r.is_open, copies) (inl refl)
In-copies m (j ∷ ids) msg id conn (inr i) r = elim (Option-cases (Dict.get m.agents j)) [
  | inl e ↦ rw (e, copies) (In-copies m ids msg id conn i r)
  | inr (c, e) ↦ elim (Bool-cases (is_closed c m.closed)) [
    | inl q ↦ rw (e, q, copies) (In-copies m ids msg id conn i r)
    | inr q ↦ rw (e, q, copies) (inr (In-copies m ids msg id conn i r))
  ]
]

abbrev IsCopy : Manager → List Text → Message → ℕ × Message → Type 0
IsCopy m ids msg w = (id : Text) × (c : ℕ) × In id ids × Reaches m id c × (w ≡ (c, msg))

later-IsCopy :
    (m : Manager) (j : Text) (ids : List Text) (msg : Message) (w : ℕ × Message)
    → IsCopy m ids msg w
    → IsCopy m (j ∷ ids) msg w
later-IsCopy m j ids msg w (id, c, here, r, e) = (id, c, inr here, r, e)

In-copies_split :
    (m : Manager) (ids : List Text) (msg : Message) (w : ℕ × Message)
    → In w (copies m.agents m.closed ids msg)
    → IsCopy m ids msg w
unfolding copies
In-copies_split m [] msg w i = elim i [ ]
In-copies_split m (j ∷ ids) msg w i =
    let later : In w (copies m.agents m.closed ids msg) → IsCopy m (j ∷ ids) msg w =
      λ k. later-IsCopy m j ids msg w (In-copies_split m ids msg w k) in
    elim (Option-cases (Dict.get m.agents j)) [
      | inl e ↦ later (rw (e, copies) at i)
      | inr (c, e) ↦ elim (Bool-cases (is_closed c m.closed)) [
        | inl q ↦ later (rw (e, q, copies) at i)
        | inr q ↦ elim (rw (e, q, copies) at i) [
          | inl same ↦ (j, c, inl refl, record { registered = e; is_open = q }, same)
          | inr k ↦ later k
        ]
      ]
    ]

-- A message of the master to a reachable agent is written to that agent's connection. If it is no
-- request to run a script, that is the only write. If it is one with a list of agents, it is then
-- written to each entry of the list that is reachable, in the order of the list, and to no other
-- connection: to the agent it was addressed to a second time, where the list names that agent.
-- Nothing else changes.
pub master_frame_lem :
    (decode : Text → Option ExecRequest) (msg : Message) (conn : ℕ) (m : Manager)
    → msg.agent_id ≢ []
    → Reaches m msg.agent_id conn
    → (msg.type ≢ type_exec_request
        → master_frame decode (some msg) m
          ≡ record m { to_agents = m.to_agents ++ (conn, msg) ∷ [] })
      × ((req : ExecRequest)
          → msg.type ≡ type_exec_request
          → decode msg.payload ≡ some req
          → req.agent_ids ≢ []
          → (master_frame decode (some msg) m ≡ record m {
            to_agents = m.to_agents ++ (conn, msg) ∷ copies m.agents m.closed req.agent_ids msg;
          })
            × ((w : ℕ × Message)
                → In w (copies m.agents m.closed req.agent_ids msg) ↔ (
                    (id : Text) × (c : ℕ) × In id req.agent_ids × Reaches m id c × (w ≡ (c, msg)))))
unfolding master_frame
master_frame_lem decode msg conn m addressed r =
    let a : (msg.agent_id == []) ≡ false = ground (arith, ==_iff msg.agent_id []) in
    let sent = send_reached m msg.agent_id conn msg r in
    (
      λ other.
          let t : (msg.type == type_exec_request) ≡ false =
            ground (arith, ==_iff msg.type type_exec_request) in
          rw (t, a, sent, master_frame) refl,
      λ req exec d many.
          let t : (msg.type == type_exec_request) ≡ true =
            (==_iff msg.type type_exec_request).1 exec in
          let n : eqb (length req.agent_ids) 0 ≡ false = length_ne_zero req.agent_ids many in
          (
            rw (t, d, n, a, sent, master_frame)
                (broadcast_lem req.agent_ids msg
                    (record m { to_agents = m.to_agents ++ (conn, msg) ∷ [] })
                  ∙ ap (λ l. record m { to_agents = l })
                      (append_assoc m.to_agents ((conn, msg) ∷ [])
                        (copies m.agents m.closed req.agent_ids msg))),
            λ w. (
              In-copies_split m req.agent_ids msg w,
              λ (id, c, i, q, e). rw e (In-copies m req.agent_ids msg id c i q),
            ),
          ),
    )
  where
    length_ne_zero : (ids : List Text) → ids ≢ [] → eqb (length ids) 0 ≡ false
    length_ne_zero [] ne = absurd (ne refl)
    length_ne_zero (id ∷ ids) ne = ground arith
