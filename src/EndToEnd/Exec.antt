-- ===== src/EndToEnd/Exec.antt =====
-- A batch run on its way from internal/master/api/api.go over cmd/gateway/main.go to
-- cmd/agent/main.go and back into the history of the master.
use m_cloud.Base.{
  ℕ, ◌<◌, ◌≡◌, ◌≢◌, ◌∙◌, refl, sym, ap, Bool, true, false, List, [], ◌∷◌, ◌++◌, arith, Text, codes,
  ◌==◌, ==_refl, Option, none, some, some_inj, In, In-map, In-append_right,
}
use m_cloud.Dict
use m_cloud.Dict.{Dict, get-empty}
use m_cloud.Protocol.{
  Message, ExecRequest, ExecResponse, type_exec_request, type_exec_response, type_register,
  type_terminal_output,
}
use m_cloud.History.{ExecRecord, ExecResult, briefed, get, completed, update_result}
use m_cloud.History.Results.{AllDone, update_result_lem, update_result_completes}
use m_cloud.Auth.Jwt.{Claims}
use m_cloud.Http.{Request}
use m_cloud.Gateway.Proxy.{Manager, is_closed, agent_frame}
use m_cloud.Gateway.Server.{dialed_frame}
use m_cloud.Agent.Client.{Agent, Codec, World, handle_message}
use m_cloud.Agent.Client.Responses.{response_to, exec_answered}
use m_cloud.Api.{Server}
use m_cloud.EndToEnd.Hops.{dialed_frame_lem, agent_frame_lem}
use m_cloud.Api.Batch.{targets, user_of, record_of, handle_batch_exec}
use m_cloud.Api.Batch.Sent.{handle_batch_exec_lem, user_of-IsUser, get-handle_batch_exec}
use m_cloud.Api.Frames.{Decoders, on_exec_response, gateway_frame}

-- The message for one target of a batch run, and the answer to it.
abbrev pub order : (ExecRequest → Text) → Text → Text → ExecRequest → Message
order encode id name req = record {
  type = type_exec_request;
  agent_id = name;
  req_id = id;
  payload = encode req;
}

abbrev pub reply : Codec → World → Text → Text → ExecRequest → Message
reply codec world id name req = record {
  type = type_exec_response;
  agent_id = name;
  req_id = id;
  payload = codec.exec_response (response_to world name req);
}

-- The master files an exec response as the final result of the agent that it comes from.
response_frame_lem :
    (decode : Decoders) (now : ℕ) (msg : Message) (resp : ExecResponse) (s : Server)
    → msg.type ≡ type_exec_response
    → decode.response msg.payload ≡ some resp
    → (gateway_frame decode now (some msg) s).history
      ≡ update_result now msg.req_id
          (record {
            agent_id = msg.agent_id;
            exit_code = resp.exit_code;
            output = resp.output;
            error = resp.error;
            finished = true;
          })
          s.history
unfolding gateway_frame on_exec_response type_exec_response type_register type_terminal_output ◌==◌
response_frame_lem decode now msg resp s t d = rw (t, gateway_frame) (rw (d, on_exec_response) refl)

none-ne-some : (x : ExecResult) → none ≡ some x → ⊥
none-ne-some x e = cc

briefed_lem :
    (r : ExecRecord) → ((briefed r).results ≡ r.results) × ((briefed r).agent_ids ≡ r.agent_ids)
unfolding briefed
briefed_lem r = ground arith

plain_response : (type_exec_response == type_register) ≡ false
unfolding type_exec_response type_register ◌==◌
plain_response = refl

filed_result :
    (decode : Decoders) (now : ℕ) (msg : Message) (resp : ExecResponse) (s : Server)
    (r : ExecRecord)
    → msg.type ≡ type_exec_response
    → decode.response msg.payload ≡ some resp
    → get msg.req_id s.history ≡ some r
    → AllDone r.results
    → (filed : ExecRecord) × (get msg.req_id (gateway_frame decode now (some msg) s).history
        ≡ some filed)
      × (Dict.get filed.results msg.agent_id
          ≡ some (record {
            agent_id = msg.agent_id;
            exit_code = resp.exit_code;
            output = resp.output;
            error = resp.error;
            finished = true;
          }))
      × (filed.status ≡ completed)
filed_result decode now msg resp s r t d found done =
    let x : ExecResult = record {
      agent_id = msg.agent_id;
      exit_code = resp.exit_code;
      output = resp.output;
      error = resp.error;
      finished = true;
    } in
    let (filed, now_found, entries, all, some_open, others, sizes) =
      update_result_lem now msg.req_id x s.history r found in
    let (other, other_found, complete, agents) =
      update_result_completes now msg.req_id x s.history r found done refl in
    let one : other ≡ filed = some_inj (sym other_found ∙ now_found) in
    (
      filed,
      ap (get msg.req_id) (response_frame_lem decode now msg resp s t d) ∙ now_found,
      entries msg.agent_id ∙ rw ==_refl refl,
      rw one at complete,
    )

-- A batch run for an agent that is connected, over a gateway that is connected: the master writes
-- the order for that agent to the gateway; the gateway writes it to the agent's connection; the agent
-- runs the script and answers with its exit code and all its output; the gateway writes the answer to
-- the master; and the master then has in the record of the run, under that agent, the exit code and
-- the outputs as encoding/json reads them from this answer, which for output that is not valid UTF-8
-- need not be what the script wrote, and the run is marked completed. It relies on encoding/json
-- reading this one request as it was written.
pub exec_round_trip :
    (decode : Text → Option ExecRequest) (encode : ExecRequest → Text) (id : Text)
    (ctx : Option Claims) (r : Request) (s : Server) (sent_req : ExecRequest) (ids : List Text)
    (name : Text) (gc c mc ac now : ℕ) (m : Manager) (codec : Codec) (world : World)
    (started : Bool) (a : Agent) (frames : Decoders) (result : ExecResponse)
    → decode r.body ≡ some sent_req
    → sent_req.script ≢ []
    → targets (r.query (codes "group")) sent_req.agent_ids s.store ≡ ids
    → In name ids
    → name ≢ []
    → get id s.history ≡ none
    → 0 < s.history.max_size
    → s.gateway.conn ≡ some gc
    → is_closed gc s.gateway.closed ≡ false
    → Dict.get m.agents name ≡ some c
    → is_closed c m.closed ≡ false
    → m.master_conn ≡ some mc
    → is_closed mc m.closed ≡ false
    → a.id ≡ name
    → a.conn ≡ some ac
    → is_closed ac a.closed ≡ false
    → codec.exec_request (encode (record sent_req { agent_ids = ids }))
      ≡ some (record sent_req { agent_ids = ids })
    → frames.response
        (codec.exec_response (response_to world name (record sent_req { agent_ids = ids })))
      ≡ some result
    → let req = record sent_req { agent_ids = ids } in
      let started_server = (handle_batch_exec decode encode id ctx r s).1 in
      let out = order encode id name req in
      let back = reply codec world id name req in
      In (gc, out) started_server.gateway.sent
      × ((dialed_frame (some out) m).to_agents ≡ m.to_agents ++ (c, out) ∷ [])
      × (handle_message codec world started out a
          ≡ some (record a { sent = a.sent ++ (ac, back) ∷ [] }))
      × ((agent_frame name c (some back) m).to_master ≡ m.to_master ++ (mc, back) ∷ [])
      × ((filed : ExecRecord) × (get id
              (gateway_frame frames now (some back) started_server).history
            ≡ some filed)
          × (Dict.get filed.results name
              ≡ some (record {
                agent_id = name;
                exit_code = result.exit_code;
                output = result.output;
                error = result.error;
                finished = true;
              }))
          × (filed.status ≡ completed))
exec_round_trip decode encode id ctx r s sent_req ids name gc c mc ac now m codec world started a
      frames result body script to member named new room up live known open_agent up' live' same
      conn open_conn reads reads' =
    let req : ExecRequest = record sent_req { agent_ids = ids } in
    let (first, files, sends, logs, stores, users, hubs) =
      handle_batch_exec_lem decode encode id ctx r s sent_req ids (user_of ctx) (user_of-IsUser ctx)
        body script to in
    let kept = get-handle_batch_exec decode encode id ctx r s sent_req ids body script to in
    let back : Message = reply codec world id name req in
    (
      rw (sends gc up live) (
          In-append_right (gc, order encode id name req) s.gateway.sent _
            (In-map (λ agent. (gc, order encode id agent req)) name ids member)),
      ap (λ (n : Manager). n.to_agents)
          (dialed_frame_lem (order encode id name req) c m named known open_agent),
      exec_answered codec world started (order encode id name req) req a ac refl reads conn
            open_conn
          ∙ rw same refl,
      ap (λ (n : Manager). n.to_master) (agent_frame_lem name c mc back m plain_response up' live'),
      filed_result frames now back result (handle_batch_exec decode encode id ctx r s).1
          (briefed (record_of id ctx r.time req)) refl reads' (kept new room)
          (λ agent x e. absurd (
            none-ne-some x
              (sym (rw ((briefed_lem (record_of id ctx r.time req)).0) (get-empty agent)) ∙ e))),
    )
