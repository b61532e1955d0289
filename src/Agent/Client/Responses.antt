-- ===== src/Agent/Client/Responses.antt =====
-- What the agent answers to an exec request.
use m_cloud.Base.{ℕ, ◌≡◌, refl, ap, Bool, false, [], ◌∷◌, ◌++◌, Text, ◌==◌, some}
use m_cloud.Protocol.{
  Message, ExecRequest, ExecResponse, new_message, type_terminal_input, type_terminal_resize,
  type_exec_request, type_exec_response,
}
use m_cloud.Gateway.Proxy.{is_closed}
use m_cloud.Agent.Executor.{deadline}
use m_cloud.Agent.Executor.Streamed.{outs, errors, code_of, error_of, run_script_lem}
use m_cloud.Agent.Client.{Agent, Codec, World, send, answer, handle_exec_request, handle_message}

-- What an exec request leads to: the exit code and all that the script wrote to its two outputs, or
-- the error of starting it.
abbrev pub response_to : World → Text → ExecRequest → ExecResponse
response_to world id req =
    let process = world.run req.script (deadline req.timeout) in
    record {
      agent_id = id;
      exit_code = code_of process.ended;
      output = outs process.chunks;
      error = error_of process.ended (errors process.chunks);
    }

exec_answer_lem :
    (codec : Codec) (world : World) (req_id : Text) (req : ExecRequest) (a : Agent)
    → handle_exec_request codec world.run req_id req a
      ≡ answer type_exec_response req_id (codec.exec_response (response_to world a.id req)) a
unfolding handle_exec_request
exec_answer_lem codec world req_id req a =
    ap
      (λ r.
        answer type_exec_response req_id
          (codec.exec_response (record {
            agent_id = a.id;
            exit_code = r.0.exit_code;
            output = r.0.output;
            error = r.0.error;
          }))
          a)
      (run_script_lem world.run req.script req.timeout false)

-- On an open connection an exec request is answered by exactly one message: the agent's exec
-- response with the request ID, the exit code and all that the script wrote to its two outputs, or
-- the error of starting it. Nothing else changes.
pub exec_answered :
    (codec : Codec) (world : World) (started : Bool) (msg : Message) (req : ExecRequest) (a : Agent)
    (c : ℕ)
    → msg.type ≡ type_exec_request
    → codec.exec_request msg.payload ≡ some req
    → a.conn ≡ some c
    → is_closed c a.closed ≡ false
    → handle_message codec world started msg a
      ≡ some (record a {
        sent =
            a.sent
            ++ (
              c,
              record {
                type = type_exec_response;
                agent_id = a.id;
                req_id = msg.req_id;
                payload = codec.exec_response (response_to world a.id req);
              },
            )
              ∷ [];
      })
unfolding handle_message answer send new_message type_exec_request type_terminal_input
    type_terminal_resize ◌==◌
exec_answered codec world started msg req a c t d conn live =
    rw (t, d, handle_message)
      (rw (exec_answer_lem codec world msg.req_id req a) (rw (conn, live, answer) refl))
