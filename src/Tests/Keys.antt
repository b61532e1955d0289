-- ===== src/Tests/Keys.antt =====
-- A browser types "ls" into a session that is open, and the shell prints "a".
use m_cloud.Base.{◌≡◌, refl, true, [], ◌∷◌, ◌++◌, map, codes, ◌==◌, some}
use m_cloud.Dict
use m_cloud.Dict.{get-put}
use m_cloud.Protocol.{Message, type_terminal_input}
use m_cloud.Gateway.Proxy.{is_closed, agent_frame}
use m_cloud.Gateway.Server.{dialed_frame}
use m_cloud.Agent.Terminal.{bytes}
use m_cloud.Agent.Client.{Agent, Codec, handle_message}
use m_cloud.Agent.Client.Loop.{stream}
use m_cloud.Agent.Client.Sessions.{IsAt}
use m_cloud.Ws.{terminal_output}
use m_cloud.Api.Frames.{Decoders, gateway_frame}
use m_cloud.Api.Dashboard.{dashboard_frame}
use m_cloud.EndToEnd.Terminal.{shown, terminal_round_trip}
use m_cloud.Tests.Console.{console, decode_run}
use m_cloud.Tests.Coding.{encode_output, decode_output, output_read}
use m_cloud.Tests.Agents as Agents
use m_cloud.Tests.Agents.{world, shell, with_shell}
use m_cloud.Tests.Journeys as Journeys
use m_cloud.Tests.Journeys.{proxy, ann_claims}

abbrev keys : Message
keys = record {
  type = type_terminal_input;
  agent_id = codes "web1";
  req_id = [];
  payload = codes "ls";
}

abbrev codec : Codec
codec = record Agents.codec { terminal_output = encode_output }

abbrev frames : Decoders
frames = record Journeys.frames { output = decode_output }

terminal_round_trip_example :
    let asked = dashboard_frame decode_run (codes "u1") ann_claims 7 0 (some keys) console in
    let out = shown codec (codes "web1") (codes "s") (codes "a") in
    (asked.gateway.sent ≡ console.gateway.sent ++ (1, keys) ∷ [])
    × ((dialed_frame (some keys) proxy).to_agents ≡ proxy.to_agents ++ (5, keys) ∷ [])
    × ((b : Agent) × (handle_message codec world true keys with_shell ≡ some b)
        × IsAt (codes "s") 0 (record shell { typed = shell.typed ++ codes "ls" ∷ [] }) b
        × ((stream codec world 0 (bytes (codes "a")) b).sent ≡ with_shell.sent ++ (3, out) ∷ []))
    × ((agent_frame (codes "web1") 5 (some out) proxy).to_master ≡ proxy.to_master ++ (6, out) ∷ [])
    × ((gateway_frame frames 0 (some out) asked).hub.pushed
        ≡ console.hub.pushed
          ++ map
              (λ browser. (
                browser,
                terminal_output
                    (codes "web1")
                    (record { session_id = codes "s"; output = codes "a" }),
              ))
              (Dict.values console.hub.clients))
unfolding ◌==◌ is_closed
terminal_round_trip_example =
    terminal_round_trip decode_run (codes "u1") ann_claims 7 0 1 5 6 3 keys (codes "s") (codes "ls")
      console proxy codec world true frames 0 shell with_shell b'a' []
      (record { session_id = codes "s"; output = codes "a" }) refl refl refl refl refl (λ e. cc)
      (simp get-put refl) refl refl refl refl refl refl (simp get-put refl, refl) refl refl
      (output_read _)
