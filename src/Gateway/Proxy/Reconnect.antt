-- ===== src/Gateway/Proxy/Reconnect.antt =====
-- What becomes of an agent that connects again while its old connection is still there.
use m_cloud.Base.{
  ℕ, ◌≡◌, ◌≢◌, refl, ap, ◌∙◌, inl, true, false, arith, Text, ◌==◌, ==_iff, ==_refl, eqb, none, some,
  In,
}
use m_cloud.Dict
use m_cloud.Dict.{get-put, get-remove}
use m_cloud.Protocol.{Message, type_register}
use m_cloud.Gateway.Proxy.Fields.{get-register_agent, agents-send_to_master}
use m_cloud.Gateway.Proxy.{
  Manager, register_agent, unregister_agent, get_agent, send_to_agent, agent_frame, agent_lost,
}

send_missing :
    (id : Text) (msg : Message) (m : Manager)
    → get_agent id m ≡ none
    → send_to_agent id msg m ≡ (m, true)
unfolding send_to_agent
send_missing id msg m e = go (unfold get_agent in e)
  where
    go : Dict.get m.agents id ≡ none → send_to_agent id msg m ≡ (m, true)
    go q = rw (q, send_to_agent) refl

get-agent_frame :
    (id : Text) (conn : ℕ) (reg : Message) (m : Manager)
    → reg.type ≡ type_register
    → get_agent id (agent_frame id conn (some reg) m) ≡ some conn
unfolding agent_frame get_agent
get-agent_frame id conn reg m t =
    let q : (reg.type == type_register) ≡ true = (==_iff reg.type type_register).1 t in
    rw (q, agent_frame)
      (ap (λ (d : Dict.Dict ℕ). Dict.get d id)
          (agents-send_to_master (record reg { agent_id = id }) (register_agent id conn m))
        ∙ get-register_agent id id conn m
        ∙ rw (==_refl) refl)

get-agent_lost : (id : Text) (conn : ℕ) (m : Manager) → get_agent id (agent_lost id conn m) ≡ none
unfolding get_agent agent_lost unregister_agent
get-agent_lost id conn m = rw (get-remove, ==_refl) refl

closed-register_agent :
    (id : Text) (old new : ℕ) (m : Manager)
    → get_agent id m ≡ some old
    → old ≢ new
    → In old (register_agent id new m).closed
unfolding register_agent
closed-register_agent id old new m here ne = go (unfold get_agent in here)
  where
    go : Dict.get m.agents id ≡ some old → In old (register_agent id new m).closed
    go q = let n : eqb old new ≡ false = ground arith in rw (q, register_agent) (rw n (inl refl))

-- When an agent connects again, its old connection is closed; the loop that reads the old connection
-- then ends and takes the agent's entry away, though that is the new connection's by now. From
-- then on messages to the agent are dropped and reported as sent, until the agent registers again
-- on the new connection.
pub reconnect_loses_agent :
    (id : Text) (old new : ℕ) (m : Manager) (msg reg : Message)
    → get_agent id m ≡ some old
    → old ≢ new
    → reg.type ≡ type_register
    → (In old (register_agent id new m).closed)
      × (get_agent id (register_agent id new m) ≡ some new)
      × (get_agent id (agent_lost id old (register_agent id new m)) ≡ none)
      × (send_to_agent id msg (agent_lost id old (register_agent id new m))
          ≡ (agent_lost id old (register_agent id new m), true))
      × (get_agent id (agent_frame id new (some reg) (agent_lost id old (register_agent id new m)))
          ≡ some new)
reconnect_loses_agent id old new m msg reg here ne t =
    let gone : get_agent id (agent_lost id old (register_agent id new m)) ≡ none =
      get-agent_lost id old (register_agent id new m) in
    (
      closed-register_agent id old new m here ne,
      rw (get-register_agent, ==_refl) refl,
      gone,
      send_missing id msg _ gone,
      get-agent_frame id new reg _ t,
    )
