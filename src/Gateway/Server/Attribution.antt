-- ===== src/Gateway/Server/Attribution.antt =====
-- Which agents the master hears from.
use m_cloud.Base.{
  ℕ, ◌≡◌, ◌≢◌, refl, ap, sym, ◌∙◌, inl, inr, true, List, [], ◌∷◌, arith, Text, codes, ==_iff,
  Option, none, some, In,
}
use m_cloud.Dict.{get-empty, In-keys_split}
use m_cloud.Flags.{flag}
use m_cloud.Protocol.{Message, ExecRequest, AgentInfo}
use m_cloud.Http.{Request}
use m_cloud.Gateway.Proxy.{Manager, init, get_agent, get_all_agent_ids, set_master_conn}
use m_cloud.Gateway.Proxy.Fields.{set_master_conn-SameView}
use m_cloud.Gateway.Server.Concerns.{
  Concerns, same-Concerns, register_agent-Concerns, read_frame-Concerns, read_error-Concerns,
  re_register-Concerns,
}
use m_cloud.Gateway.Server.{
  Authenticator, Reader, agent, Gateway, Decision, reject, upgrade_failed, accept, validate_agent,
  connect_decision, master_decision, connect, connect_master, dial_master, read_frame, read_error,
  admit_agent,
}

abbrev pub start : Gateway
start = record { manager = init; readers = []; admitted = [] }

module _ (tokens : Authenticator) (secret : Text) (decode : Text → Option ExecRequest)
    (info : AgentInfo → Text) where
  -- What can happen to a gateway. A loop that has ended reads no more: `rest` is any part of the
  -- loops that were there.
  pub data Step (g : Gateway) : Gateway → Type 0 where
    agent_connects : (r : Request) (conn : ℕ) → Step g (connect tokens r conn g)
    master_connects : (r : Request) (conn : ℕ) → Step g (connect_master secret r conn g)
    master_dialed : (conn : ℕ) → Step g (dial_master info conn g)
    frame_read :
        (reader : Reader) (frame : Option Message)
        → In reader g.readers
        → Step g (record g { manager = read_frame decode reader frame g.manager })
    loop_ends :
        (reader : Reader) (rest : List Reader)
        → In reader g.readers
        → ((x : Reader) → In x rest → In x g.readers)
        → Step g (record g { manager = read_error reader g.manager; readers = rest })

  pub data Reach : Gateway → Type 0 where
    here : Reach start
    next : {g h : Gateway} → Reach g → Step g h → Reach h

  -- The connect handler has accepted the ID with some token of the list.
  abbrev Admitted : List (Text × Text) → Text → Type 0
  Admitted admitted id = (token : Text) × In (id, token) admitted

  record Attributed (g : Gateway) : Type 0 where
    concerns : Concerns (Admitted g.admitted) g.manager
    reading : (id : Text) (conn : ℕ) → In (agent id conn) g.readers → Admitted g.admitted id
    genuine : (id token : Text) → In (id, token) g.admitted → (flag tokens token ≡ true) × (id ≢ [])

  accepted :
      (r : Request)
      → connect_decision tokens r ≡ accept
      → (flag tokens (r.query (codes "token")) ≡ true) × (r.query (codes "agent_id") ≢ [])
  unfolding connect_decision validate_agent
  accepted r e = ground (arith, ==_iff (r.query (codes "agent_id")) [])

  reader_id :
      (j id : Text) (k conn : ℕ) {token : Text}
      → agent j k ≡ agent id conn
      → ◌≡◌ {A = Text × Text} (j, token) (id, token)
  reader_id j id k conn e = cc

  more-Concerns :
      (x : Text × Text) (admitted : List (Text × Text)) (m : Manager)
      → Concerns (Admitted admitted) m
      → Concerns (Admitted (x ∷ admitted)) m
  more-Concerns x admitted m c = record {
    known = λ id conn e. let (t, i) = c.known id conn e in (t, inr i);
    named = λ conn msg i. let (t, j) = c.named conn msg i in (t, inr j);
  }

  admit_agent-Attributed :
      (id token : Text) (conn : ℕ) (g : Gateway)
      → flag tokens token ≡ true
      → id ≢ []
      → Attributed g
      → Attributed (admit_agent id token conn g)
  admit_agent-Attributed id token conn g ok_token named a = record {
    concerns =
        register_agent-Concerns (Admitted ((id, token) ∷ g.admitted)) id conn g.manager
          (token, inl refl) (more-Concerns (id, token) g.admitted g.manager a.concerns);
    reading = λ j k i. elim i [
      | inl e ↦ (token, inl (reader_id j id k conn e))
      | inr i' ↦ let (t, n) = a.reading j k i' in (t, inr n)
    ];
    genuine = λ j t i. elim i [
      | inl e ↦ (
        rw (ap (λ (x : Text × Text). x.1) e) ok_token,
        λ empty. named (ap (λ (x : Text × Text). x.0) (sym e) ∙ empty),
      )
      | inr i' ↦ a.genuine j t i'
    ];
  }

  connect-Attributed :
      (r : Request) (conn : ℕ) (g : Gateway) → Attributed g → Attributed (connect tokens r conn g)
  unfolding connect
  connect-Attributed r conn g a = go (connect_decision tokens r) refl
    where
      go : (d : Decision) → connect_decision tokens r ≡ d → Attributed (connect tokens r conn g)
      go (reject status) e = rw (e, connect) a
      go upgrade_failed e = rw (e, connect) a
      go accept e =
          let (valid, named) = accepted r e in
          rw (e, connect) (admit_agent-Attributed _ _ conn g valid named a)

  connect_master-Attributed :
      (r : Request) (conn : ℕ) (g : Gateway)
      → Attributed g
      → Attributed (connect_master secret r conn g)
  unfolding connect_master
  connect_master-Attributed r conn g a = go (master_decision secret r) refl
    where
      go :
          (d : Decision)
          → master_decision secret r ≡ d
          → Attributed (connect_master secret r conn g)
      go (reject status) e = rw (e, connect_master) a
      go upgrade_failed e = rw (e, connect_master) a
      go accept e =
          rw (e, connect_master)
            (record {
              concerns =
                  same-Concerns (Admitted g.admitted) g.manager _
                    (set_master_conn-SameView conn g.manager) a.concerns;
              reading = λ id k i. elim i [ inl q ↦ cc q | inr i' ↦ a.reading id k i' ];
              genuine = a.genuine;
            })

  dial_master-Attributed :
      (conn : ℕ) (g : Gateway) → Attributed g → Attributed (dial_master info conn g)
  unfolding dial_master
  dial_master-Attributed conn g a =
      let c =
        same-Concerns (Admitted g.admitted) g.manager (set_master_conn conn g.manager)
          (set_master_conn-SameView conn g.manager) a.concerns in
      record {
        concerns =
            re_register-Concerns (Admitted g.admitted) info _ (set_master_conn conn g.manager)
              (λ id i. let (k, e) = registered id i in c.known id k e) c;
        reading = λ id k i. elim i [ inl q ↦ cc q | inr i' ↦ a.reading id k i' ];
        genuine = a.genuine;
      }
    where
      registered :
          (id : Text)
          → In id (get_all_agent_ids (set_master_conn conn g.manager))
          → (k : ℕ) × (get_agent id (set_master_conn conn g.manager) ≡ some k)
      registered id i = unfold get_all_agent_ids get_agent in In-keys_split _ id i

  Step-Attributed : {g h : Gateway} → Step g h → Attributed g → Attributed h
  Step-Attributed {g} (agent_connects r conn) a = connect-Attributed r conn g a
  Step-Attributed {g} (master_connects r conn) a = connect_master-Attributed r conn g a
  Step-Attributed {g} (master_dialed conn) a = dial_master-Attributed conn g a
  Step-Attributed {g} (frame_read reader frame i) a = record {
    concerns =
        read_frame-Concerns (Admitted g.admitted) decode reader frame g.manager
          (λ id conn e. a.reading id conn (rw e at i)) a.concerns;
    reading = a.reading;
    genuine = a.genuine;
  }
  Step-Attributed {g} (loop_ends reader rest i part) a = record {
    concerns = read_error-Concerns (Admitted g.admitted) reader g.manager a.concerns;
    reading = λ id conn j. a.reading id conn (part (agent id conn) j);
    genuine = a.genuine;
  }

  no_agent : (id : Text) → get_agent id start.manager ≡ none
  unfolding get_agent
  no_agent id = get-empty {V = ℕ} id

  start-Attributed : Attributed start
  start-Attributed = record {
    concerns = record {
      known = λ id conn e. absurd (cc (e, no_agent id));
      named = λ conn msg i. elim i [ ];
    };
    reading = λ id conn i. elim i [ ];
    genuine = λ id token i. elim i [ ];
  }

  Reach-Attributed : {g : Gateway} → Reach g → Attributed g
  Reach-Attributed here = start-Attributed
  Reach-Attributed (next r s) = Step-Attributed s (Reach-Attributed r)

-- Whatever happens to a gateway, every message that it writes to the master names, as the agent it
-- is from, an ID that is not empty and that the connect handler accepted with a token of the
-- list. An agent cannot speak under an ID that no such connection was made for.
pub to_master-genuine :
    (tokens : Authenticator) (secret : Text) (decode : Text → Option ExecRequest)
    (info : AgentInfo → Text) (g : Gateway) (conn : ℕ) (msg : Message)
    → Reach tokens secret decode info g
    → In (conn, msg) g.manager.to_master
    → (msg.agent_id ≢ [])
      × ((token : Text) × In (msg.agent_id, token) g.admitted × (flag tokens token ≡ true))
to_master-genuine tokens secret decode info g conn msg r i =
    let a = Reach-Attributed tokens secret decode info r in
    let (token, in_list) = a.concerns.named conn msg i in
    let (valid, named) = a.genuine msg.agent_id token in_list in (named, (token, in_list, valid))
