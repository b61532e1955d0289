-- ===== src/Tests/Journeys.antt =====
-- What goes over several parts: a batch run to an agent and back, a second factor from its set-up to
-- a login, and a file for two agents.
use m_cloud.Base.{
  ◌≡◌, refl, inl, true, false, arith, [], ◌∷◌, ◌++◌, All, Lacks, map, length, split, Text, codes,
  ◌==◌, none, some, ok, In, ◌≤◌, ◌+◌,
}
use m_cloud.Base.Int.{pos}
use m_cloud.Dict
use m_cloud.Dict.{get-put}
use m_cloud.Protocol.{FileUpload, type_file_upload}
use m_cloud.History.{ExecRecord, get, completed, find}
use m_cloud.Audit.{log}
use m_cloud.Http.{Request}
use m_cloud.Auth.Jwt.{Claims, generate_token}
use m_cloud.Auth.Users.{User, get_user, add_user, stored, validate_password}
use m_cloud.Auth.Totp.{to_upper, generate_code, validate_code}
use m_cloud.Gateway.Proxy
use m_cloud.Gateway.Proxy.{Manager, is_closed, agent_frame}
use m_cloud.Gateway.Server.{dialed_frame}
use m_cloud.Agent.Client.{handle_message}
use m_cloud.Agent.Client.Responses.{response_to}
use m_cloud.Api.Login.{LoginRequest, granted, handle_login}
use m_cloud.Api.Batch.{targets, handle_batch_exec}
use m_cloud.Api.Frames.{Decoders, gateway_frame}
use m_cloud.Api.Files.{FileUploadRequest, upload_sent, handle_file_upload}
use m_cloud.Api.Files.Sent.{handle_file_upload_sends}
use m_cloud.Api.Account.{handle_setup_totp}
use m_cloud.Api.Account.Enrolled.{setup-login}
use m_cloud.EndToEnd.Exec.{order, reply, exec_round_trip}
use m_cloud.Tests.Logins.{staff, twenty}
use m_cloud.Tests.Web.{visit}
use m_cloud.Tests.Console.{console, libraries, uptime_on_web1}
use m_cloud.Tests.Coding.{encode_request, request_read, decode_response, response_read}
use m_cloud.Tests.Agents.{agent, codec, world}

abbrev pub proxy : Manager
proxy = record Proxy.init { agents = Dict.put Dict.empty (codes "web1") 5; master_conn = some 6 }

abbrev pub frames : Decoders
frames = record {
  info = λ p. none;
  output = λ p. none;
  response = decode_response;
  upload = λ p. none;
  metrics = λ p. none;
  download = λ p. none;
}

exec_round_trip_example :
    let req = record uptime_on_web1 { agent_ids = (codes "web1" ∷ []) } in
    let started_server =
      (handle_batch_exec
        (λ body. some uptime_on_web1)
        encode_request
        (codes "run1")
        none
        visit
        console).1 in
    let out = order encode_request (codes "run1") (codes "web1") req in
    let back = reply codec world (codes "run1") (codes "web1") req in
    In (1, out) started_server.gateway.sent
    × ((dialed_frame (some out) proxy).to_agents ≡ proxy.to_agents ++ (5, out) ∷ [])
    × (handle_message codec world true out agent
        ≡ some (record agent { sent = agent.sent ++ (3, back) ∷ [] }))
    × ((agent_frame (codes "web1") 5 (some back) proxy).to_master
        ≡ proxy.to_master ++ (6, back) ∷ [])
    × ((filed : ExecRecord) × (get
            (codes "run1")
            (gateway_frame frames 9 (some back) started_server).history
          ≡ some filed)
        × (Dict.get filed.results (codes "web1")
            ≡ some (record {
              agent_id = (codes "web1");
              exit_code =
                  (response_to world
                    (codes "web1")
                    (record uptime_on_web1 { agent_ids = codes "web1" ∷ [] })).exit_code;
              output =
                  (response_to world
                    (codes "web1")
                    (record uptime_on_web1 { agent_ids = codes "web1" ∷ [] })).output;
              error =
                  (response_to world
                    (codes "web1")
                    (record uptime_on_web1 { agent_ids = codes "web1" ∷ [] })).error;
              finished = true;
            }))
        × (filed.status ≡ completed))
unfolding targets ◌==◌ get find is_closed
exec_round_trip_example =
    exec_round_trip (λ body. some uptime_on_web1) encode_request (codes "run1") none visit console
      uptime_on_web1 (codes "web1" ∷ []) (codes "web1") 1 5 6 3 9 proxy codec world true agent
      frames
      (response_to world (codes "web1") (record uptime_on_web1 { agent_ids = codes "web1" ∷ [] }))
      refl (λ e. cc) refl (inl refl) (λ e. cc) refl (omega arith) refl refl (simp get-put refl) refl
      refl refl refl refl refl (request_read _) (response_read _)

-- Ann sets up a second factor, and logs in 80 seconds after 1970 with a code from 59 seconds.
abbrev pub ann_claims : Claims
ann_claims = record { username = codes "ann"; role = codes "admin"; exp = pos 100; iat = pos 0 }

abbrev plain_ann : User
plain_ann = record {
  username = codes "ann";
  password = codes "$pw";
  totp_secret = codes "S";
  role = codes "admin";
  enabled = true;
}

abbrev late_visit : Request
late_visit = record visit { time = 80_000_000_000 }

abbrev ann_login : LoginRequest
ann_login = record { username = codes "ann"; password = codes "pw"; totp_code = codes "459634" }

ann_known : get_user (codes "ann") staff ≡ some plain_ann
unfolding get_user add_user stored ◌==◌
ann_known = simp get-put refl

abbrev same_text : Text → Text
same_text t = t

setup-login_example :
    let after = (handle_setup_totp same_text (codes "S") (some ann_claims) visit console).1 in
    (validate_password libraries.bcrypt ann_login.username ann_login.password console.users ≡ true
      → ann_login.totp_code ≡ (codes "459634")
      → generate_code libraries.otp (codes "S") (pos 59) ≡ some (codes "459634")
      → 59 ≤ 80 + 30
      → 80 ≤ 59 + 30
      → generate_token libraries.jose late_visit.time console.jwt ann_login.username plain_ann.role
        ≡ ok (codes "t")
      → (handle_login libraries late_visit after).0 ≡ granted (codes "t"))
    × ((handle_login libraries late_visit after).0 ≡ granted (codes "t")
        → (validate_password libraries.bcrypt ann_login.username ann_login.password console.users
            ≡ true)
          × (validate_code libraries.otp (pos 80) (same_text (codes "S")) ann_login.totp_code
              ≡ some true))
unfolding to_upper
setup-login_example =
    setup-login libraries same_text (codes "S") ann_claims visit late_visit console plain_ann
      ann_login 59 80 (codes "459634") (codes "t") twenty refl (λ e. cc) ann_known refl refl refl
      (omega arith) (omega arith)

abbrev contents : FileUpload → Text
contents f = f.content

abbrev two_agents : FileUploadRequest
two_agents = record {
  agent_ids = codes "web1" ∷ codes "web2" ∷ [];
  path = codes "/tmp/a";
  content = codes "x";
  mode = [];
  overwrite = false;
}

handle_file_upload_sends_example :
    (agents : Text) × (handle_file_upload
        (λ body. some two_agents)
        contents
        (codes "u1")
        (some ann_claims)
        visit
        console
      ≡ (
        upload_sent (codes "u1") (length ((codes "web1") ∷ (codes "web2" ∷ []))),
        record console {
          gateway = record (console.gateway) {
            sent =
                console.gateway.sent
                ++ map
                    (λ agent. (
                      1,
                      record {
                        type = type_file_upload;
                        agent_id = agent;
                        req_id = (codes "u1");
                        payload = contents (record {
                          path = two_agents.path;
                          content = two_agents.content;
                          mode = two_agents.mode;
                          overwrite = two_agents.overwrite;
                        });
                      },
                    ))
                    ((codes "web1") ∷ (codes "web2" ∷ []));
          };
          audit_log =
              log visit.time
                (record {
                  timestamp = none;
                  action = codes "file_upload";
                  user = ann_claims.username;
                  ip = [];
                  agent_id = agents;
                  detail = two_agents.path;
                })
                console.audit_log;
        },
      ))
    × (All (Lacks b',') ((codes "web1") ∷ (codes "web2" ∷ []))
        → split b',' agents ≡ (codes "web1") ∷ (codes "web2" ∷ []))
unfolding is_closed
handle_file_upload_sends_example =
    handle_file_upload_sends (λ body. some two_agents) contents (codes "u1") ann_claims visit
      console two_agents (codes "web1") (codes "web2" ∷ []) 1 refl (λ e. cc) (λ e. cc) refl refl
      refl
