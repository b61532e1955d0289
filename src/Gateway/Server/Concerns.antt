-- ===== src/Gateway/Server/Concerns.antt =====
-- A property of agents' IDs that each step of the manager keeps true of the agents it knows and of
-- those that it names to the master.
use m_cloud.Base.{
  ℕ, ◌≡◌, refl, ap, sym, inl, inr, ◌⊎◌, not, List, [], ◌∷◌, Text, ◌==◌, ==_iff, eqb, length,
  if◌then◌else◌, Option, none, some, In, In-append_split, Bool-cases, Option-cases,
}
use mathlib.Core.Path.{subst}
use m_cloud.Dict.{get-remove}
use m_cloud.Protocol.{Message, ExecRequest, AgentInfo, type_register, type_exec_request}
use m_cloud.Gateway.Proxy.{
  Manager, is_closed, register_agent, unregister_agent, get_agent, clear_master_conn, send_to_agent,
  send_to_master, agent_frame, agent_lost, master_frame, master_lost,
}
use m_cloud.Gateway.Proxy.Fields.{
  SameView, get-register_agent, to_master-register_agent, agents-send_to_master,
  send_to_agent-SameView, broadcast-SameView,
}
use m_cloud.Gateway.Server.{
  Reader, agent, master, dialed, re_registration, re_register, dialed_frame, read_frame, read_error,
}

-- The agents that the manager knows, and those that it names to the master, have the property.
pub record Concerns (P : Text → Type 0) (m : Manager) : Type 0 where
  pub known : (id : Text) (conn : ℕ) → get_agent id m ≡ some conn → P id
  pub named : (conn : ℕ) (msg : Message) → In (conn, msg) m.to_master → P msg.agent_id

In-send_to_master :
    (msg : Message) (m : Manager) (k : ℕ) (msg' : Message)
    → In (k, msg') (send_to_master msg m).0.to_master
    → In (k, msg') m.to_master ⊎ (msg'.agent_id ≡ msg.agent_id)
unfolding send_to_master
In-send_to_master msg m k msg' i = elim (Option-cases m.master_conn) [
  | inl e ↦ inl (rw (e, send_to_master) at i)
  | inr (c, e) ↦ elim (Bool-cases (is_closed c m.closed)) [
    | inl q ↦ inl (rw (e, q, send_to_master) at i)
    | inr q ↦
        elim (In-append_split (k, msg') m.to_master ((c, msg) ∷ [])
          (rw (e, q, send_to_master) at i)) [
            | inl old ↦ inl old
            | inr (inl new) ↦ inr (ap (λ (x : ℕ × Message). x.1.agent_id) new)
            | inr (inr n) ↦ elim n [ ]
          ]
  ]
]

module _ (P : Text → Type 0) where
  pub same-Concerns : (m m' : Manager) → SameView m m' → Concerns P m → Concerns P m'
  unfolding get_agent
  same-Concerns m m' v c = record {
    known = λ id conn e. c.known id conn (rw v.agents at e);
    named = λ conn msg i. c.named conn msg (rw v.to_master at i);
  }

  pub register_agent-Concerns :
      (id : Text) (conn : ℕ) (m : Manager)
      → P id
      → Concerns P m
      → Concerns P (register_agent id conn m)
  register_agent-Concerns id conn m p c = record {
    known = λ j k e. elim (Bool-cases (id == j)) [
      | inl q ↦ subst P ((==_iff id j).0 q) p
      | inr q ↦ c.known j k (rw (get-register_agent, q) at e)
    ];
    named = λ k msg i. c.named k msg (rw to_master-register_agent at i);
  }

  agent_lost-Concerns :
      (id : Text) (conn : ℕ) (m : Manager) → Concerns P m → Concerns P (agent_lost id conn m)
  unfolding agent_lost unregister_agent get_agent
  agent_lost-Concerns id conn m c = record {
    known = λ j k e. elim (Bool-cases (id == j)) [
      | inl q ↦ absurd (cc (rw (get-remove, q) at e))
      | inr q ↦ c.known j k (rw (get-remove, q) at e)
    ];
    named = c.named;
  }

  send_to_master-Concerns :
      (msg : Message) (m : Manager)
      → P msg.agent_id
      → Concerns P m
      → Concerns P (send_to_master msg m).0
  unfolding get_agent
  send_to_master-Concerns msg m p c = record {
    known = λ id conn e. c.known id conn (rw agents-send_to_master at e);
    named = λ k msg' i. elim (In-send_to_master msg m k msg' i) [
      | inl old ↦ c.named k msg' old
      | inr same ↦ subst P (sym same) p
    ];
  }

  agent_frame-Concerns :
      (id : Text) (conn : ℕ) (f : Option Message) (m : Manager)
      → P id
      → Concerns P m
      → Concerns P (agent_frame id conn f m)
  unfolding agent_frame
  agent_frame-Concerns id conn none m p c = c
  agent_frame-Concerns id conn (some msg) m p c = elim (Bool-cases (msg.type == type_register)) [
    | inl q ↦
        rw (q, agent_frame) (send_to_master-Concerns _ _ p (register_agent-Concerns id conn m p c))
    | inr q ↦ rw (q, agent_frame) (send_to_master-Concerns _ _ p c)
  ]

  route-Concerns :
      (msg : Message) (m : Manager)
      → Concerns P m
      → Concerns P (if not (msg.agent_id == []) then (send_to_agent msg.agent_id msg m).0 else m)
  route-Concerns msg m c = elim (Bool-cases (msg.agent_id == [])) [
    | inl q ↦ rw q c
    | inr q ↦ rw q (same-Concerns m _ (send_to_agent-SameView msg.agent_id msg m) c)
  ]

  master_frame-Concerns :
      (decode : Text → Option ExecRequest) (f : Option Message) (m : Manager)
      → Concerns P m
      → Concerns P (master_frame decode f m)
  unfolding master_frame
  master_frame-Concerns decode none m c = c
  master_frame-Concerns decode (some msg) m c = elim (Bool-cases (msg.type == type_exec_request)) [
    | inr t ↦ rw (t, master_frame) (route-Concerns msg m c)
    | inl t ↦ elim (Option-cases (decode msg.payload)) [
      | inl d ↦ rw (t, d, master_frame) (route-Concerns msg m c)
      | inr (req, d) ↦ elim (Bool-cases (eqb (length req.agent_ids) 0)) [
        | inl n ↦ rw (t, d, n, master_frame) (route-Concerns msg m c)
        | inr n ↦
            rw (t, d, n, master_frame)
              (same-Concerns _ _ (broadcast-SameView req.agent_ids msg _) (route-Concerns msg m c))
      ]
    ]
  ]

  pub read_frame-Concerns :
      (decode : Text → Option ExecRequest) (reader : Reader) (f : Option Message) (m : Manager)
      → ((id : Text) (conn : ℕ) → reader ≡ agent id conn → P id)
      → Concerns P m
      → Concerns P (read_frame decode reader f m)
  unfolding read_frame dialed_frame
  read_frame-Concerns decode (agent id conn) f m p c =
      agent_frame-Concerns id conn f m (p id conn refl) c
  read_frame-Concerns decode (master conn) f m p c = master_frame-Concerns decode f m c
  read_frame-Concerns decode (dialed conn) none m p c = c
  read_frame-Concerns decode (dialed conn) (some msg) m p c = route-Concerns msg m c

  pub read_error-Concerns :
      (reader : Reader) (m : Manager) → Concerns P m → Concerns P (read_error reader m)
  unfolding read_error master_lost clear_master_conn
  read_error-Concerns (agent id conn) m c = agent_lost-Concerns id conn m c
  read_error-Concerns (master conn) m c =
      same-Concerns m _ (record { agents = refl; to_master = refl }) c
  read_error-Concerns (dialed conn) m c =
      same-Concerns m _ (record { agents = refl; to_master = refl }) c

  pub re_register-Concerns :
      (info : AgentInfo → Text) (ids : List Text) (m : Manager)
      → ((id : Text) → In id ids → P id)
      → Concerns P m
      → Concerns P (re_register info ids m)
  unfolding re_register
  re_register-Concerns info [] m p c = c
  re_register-Concerns info (id ∷ ids) m p c =
      re_register-Concerns info ids _ (λ j i. p j (inr i))
        (send_to_master-Concerns (re_registration info id) m (p id (inl refl)) c)
