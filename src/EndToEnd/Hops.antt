-- ===== src/EndToEnd/Hops.antt =====
-- One frame over the gateway, in each direction.
use m_cloud.Base.{
  ℕ, ◌≡◌, ◌≢◌, refl, ap, Bool, true, false, [], ◌∷◌, ◌++◌, arith, Text, ◌==◌, ==_iff, some,
}
use m_cloud.Dict
use m_cloud.Dict.{Dict, get-empty}
use m_cloud.Protocol.{Message, type_register}
use m_cloud.Gateway.Proxy.{Manager, is_closed, send_to_agent, send_to_master, agent_frame}
use m_cloud.Gateway.Server.{dialed_frame}

to_agent_open :
    (id : Text) (msg : Message) (c : ℕ) (m : Manager)
    → Dict.get m.agents id ≡ some c
    → is_closed c m.closed ≡ false
    → send_to_agent id msg m ≡ (record m { to_agents = m.to_agents ++ (c, msg) ∷ [] }, true)
unfolding send_to_agent
to_agent_open id msg c m known live = rw (known, live, send_to_agent) refl

to_master_open :
    (msg : Message) (c : ℕ) (m : Manager)
    → m.master_conn ≡ some c
    → is_closed c m.closed ≡ false
    → send_to_master msg m ≡ (record m { to_master = m.to_master ++ (c, msg) ∷ [] }, true)
unfolding send_to_master
to_master_open msg c m up live = simp (up, live, send_to_master) refl

-- The gateway writes a frame of the master to the agent that the frame names.
pub dialed_frame_lem :
    (msg : Message) (c : ℕ) (m : Manager)
    → msg.agent_id ≢ []
    → Dict.get m.agents msg.agent_id ≡ some c
    → is_closed c m.closed ≡ false
    → dialed_frame (some msg) m ≡ record m { to_agents = m.to_agents ++ (c, msg) ∷ [] }
unfolding dialed_frame
dialed_frame_lem msg c m named known live =
    let named : (msg.agent_id == []) ≡ false = ground (arith, ==_iff msg.agent_id []) in
    rw (named, to_agent_open msg.agent_id msg c m known live, dialed_frame) refl

-- The gateway writes an agent's frame to the master; only a registration does more.
pub agent_frame_lem :
    (name : Text) (c mc : ℕ) (msg : Message) (m : Manager)
    → (msg.type == type_register) ≡ false
    → m.master_conn ≡ some mc
    → is_closed mc m.closed ≡ false
    → agent_frame name c (some msg) m
      ≡ record m { to_master = m.to_master ++ (mc, record msg { agent_id = name }) ∷ [] }
unfolding agent_frame
agent_frame_lem name c mc msg m plain up live =
    rw (plain, agent_frame)
      (ap (λ (p : Manager × Bool). p.0)
        (to_master_open (record msg { agent_id = name }) mc m up live))
