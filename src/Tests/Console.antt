-- ===== src/Tests/Console.antt =====
-- The master as a browser and a gateway see it: a login, frames and a batch run.
use m_cloud.Base.{
  ◌↔◌, ◌≡◌, ◌↔◌, ◌⊎◌, min, refl, true, false, [], ◌∷◌, map, take_last, Text, codes, ◌==◌,
  starts_with, Option, none, some, ok,
}
use m_cloud.Base.Int.{pos}
use m_cloud.Dict
use m_cloud.Protocol.{Message, ExecRequest, type_register}
use m_cloud.Store.{unix, online, get_machines_by_group, get_online_machines}
use m_cloud.Store
use m_cloud.Audit.{Entry, Logger, new, recent}
use m_cloud.Audit.Bounds.{log_all, stamp, recent-log_all}
use m_cloud.Auth.Users.{User, validate_password, get_user}
use m_cloud.Auth.Jwt.{generate_token}
use m_cloud.Auth.Totp.{validate_code}
use m_cloud.Http.{Request}
use m_cloud.Http.Origin.{check_origin}
use m_cloud.Gateway.Proxy.{is_closed}
use m_cloud.Ws.{set_conn}
use m_cloud.Api.{Server}
use m_cloud.Api.Login.{LoginRequest, Libraries, granted, handle_login}
use m_cloud.Api.Login.Laws.{handle_login_lem}
use m_cloud.Api.Frames.{Decoders, gateway_frame, gateway_connects}
use m_cloud.Api.Frames.Confined.{IsConfined, gateway_frame-IsConfined}
use m_cloud.Store.{get_machine}
use m_cloud.Tests.Logins.{toy_bcrypt, toy_jose, manager, toy_otp, staff}
use m_cloud.Tests.Web.{toy_net, visit}
use m_cloud.Tests.Machines.{web1}

abbrev pub console : Server
console = record {
  store = Store.init;
  hub = record { clients = Dict.empty; pushed = [] };
  gateway = record { conn = some 1; sent = []; closed = [] };
  history = record { records = []; max_size = 500 };
  users = staff;
  jwt = manager;
  audit_log = some new;
}

-- Any body is the login of ann.
abbrev pub libraries : Libraries
libraries = record {
  decode = λ body.
      some (record { username = codes "ann"; password = codes "pw"; totp_code = codes "459634" });
  bcrypt = toy_bcrypt;
  jose = toy_jose;
  otp = toy_otp;
  net = toy_net;
}

-- Any payload is the machine web1, and nothing else.
abbrev decoders : Decoders
decoders = record {
  info = λ payload. some web1;
  output = λ payload. none;
  response = λ payload. none;
  upload = λ payload. none;
  metrics = λ payload. none;
  download = λ payload. none;
}

abbrev register_web1 : Message
register_web1 = record { type = type_register; agent_id = codes "web1"; req_id = []; payload = [] }

abbrev pub uptime_on_web1 : ExecRequest
uptime_on_web1 = record { script = codes "uptime"; timeout = pos 60; agent_ids = codes "web1" ∷ [] }

-- Any body asks for that run.
abbrev pub decode_run : Text → Option ExecRequest
decode_run body = some uptime_on_web1

abbrev pub encode_run : ExecRequest → Text
encode_run req = req.script

abbrev first_entry : Entry
first_entry = record {
  timestamp = none;
  action = codes "login_success";
  user = codes "ann";
  ip = [];
  agent_id = [];
  detail = [];
}

-- A gateway that names the host of the master as its origin.
abbrev gateway_visit : Request
gateway_visit = record visit { header = λ name. codes "https://ops" }

gateway_origin : check_origin gateway_visit ≡ true
unfolding check_origin starts_with ◌==◌
gateway_origin = refl

second_open : is_closed 2 (gateway_connects gateway_visit 2 console).gateway.closed ≡ false
unfolding gateway_connects check_origin starts_with ◌==◌ set_conn is_closed
second_open = refl

recent-log_all_example :
    (l : Logger) × (log_all ((5, first_entry) ∷ []) (some new) ≡ some l)
    × (l.lines ≡ map stamp ((5, first_entry) ∷ []))
    × (recent 10 (some l) ≡ take_last (min 10 1000) (map stamp ((5, first_entry) ∷ [])))
recent-log_all_example = recent-log_all 10 ((5, first_entry) ∷ [])

handle_login_lem_example :
    (((handle_login libraries visit console).0 ≡ granted (codes "t")) ↔ (
      (req : LoginRequest) × (libraries.decode visit.body ≡ some req)
      × (validate_password libraries.bcrypt req.username req.password console.users ≡ true)
      × ((u : User) × (get_user req.username console.users ≡ some u)
          × ((u.totp_secret ≡ [])
              ⊎ (validate_code libraries.otp (unix visit.time) u.totp_secret req.totp_code
                  ≡ some true))
          × (generate_token libraries.jose visit.time console.jwt req.username u.role
              ≡ ok (codes "t")))))
    × (record ((handle_login libraries visit console).1) { audit_log = console.audit_log }
        ≡ console)
handle_login_lem_example = handle_login_lem libraries visit console (codes "t")

gateway_frame-IsConfined_example :
    IsConfined register_web1 console (gateway_frame decoders 7 (some register_web1) console)
gateway_frame-IsConfined_example = gateway_frame-IsConfined decoders 7 register_web1 console
