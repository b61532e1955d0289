-- ===== src/Tests/Doors.antt =====
-- Requests to run a script, with no token and with an administrator's.
use m_cloud.Base.{ℕ, ◌≡◌, ◌≢◌, refl, inl, inr, [], codes, ◌==◌, starts_with, split, none, some, ok}
use m_cloud.Base.Int.{pos}
use m_cloud.Dict.{get-empty}
use m_cloud.Auth.Jwt.{Claims, Jose, validate_token}
use m_cloud.Http.{Request, Handler, status_ok}
use m_cloud.Middleware.Ip.{new_whitelist, extract_ip}
use m_cloud.Middleware.Limiter.Limits.{allow_first}
use m_cloud.Middleware.Guards.{token_of}
use m_cloud.Middleware.Limiter.{new, new_login, minute}
use m_cloud.Routes.{App, Config, Endpoint, serve, batch_exec}
use m_cloud.Routes.Chain.{bare}
use m_cloud.Routes.Handlers.{Given, serve_all}
use m_cloud.Routes.ReadOnly.{serve_all_read_only}
use m_cloud.Routes.Admitted.{counted, serve_admitted, security}
use m_cloud.Routes.Admin.{IsRefused, serve-IsRefused}
use m_cloud.Tests.Web.{visit, toy_net, toy_jose, manager, status}
use m_cloud.Tests.Console.{console, libraries, decode_run, encode_run}

abbrev run_script : Request
run_script = record visit { path = codes "/api/exec" }

abbrev config : Config
config = record { jose = toy_jose; jwt = manager; net = toy_net; allowed = new_whitelist [] }

-- Handlers that all answer 200.
abbrev endpoints : Endpoint → Handler App ℕ
endpoints e ctx r s = (status_ok, s)

abbrev app : App
app = record {
  server = console;
  limiter = new 100 minute;
  login_limiter = new_login;
  request_log = [];
}

no_token : token_of run_script ≡ []
unfolding token_of starts_with ◌==◌
no_token = refl

serve-IsRefused_example :
    IsRefused status console (bare (serve status config endpoints none run_script app))
serve-IsRefused_example =
    serve-IsRefused status config endpoints none run_script app (inr (inr (inl refl)))
      (λ c there valid. absurd (there no_token))

-- Bodies are never read, and texts are empty.
abbrev given : Given
given = record {
  logins = libraries;
  tags_of = λ body. none;
  run_of = decode_run;
  run_text = encode_run;
  upload_of = λ body. none;
  upload_text = λ f. [];
  download_text = λ f. [];
  command_of = λ body. none;
  command_text = λ c. [];
  base32_encode = λ t. t;
  random = [];
  uuid = codes "u1";
  conn = 5;
}

serve_all_read_only_example :
    let after = (serve_all given config none run_script app).1.server in
    (record after { audit_log = console.audit_log } ≡ console)
    × (run_script.path ≢ codes "/api/login" → after ≡ console)
serve_all_read_only_example =
    serve_all_read_only given config none run_script app (λ c there valid. absurd (there no_token))
      (λ e. cc) (λ e. cc)

abbrev ann : Claims
ann = record { username = codes "ann"; role = codes "admin"; exp = pos 100; iat = pos 0 }

-- Signatures are "s", and every payload is ann's claims.
abbrev door_jose : Jose
door_jose = record {
  hmac = λ secret input. codes "s";
  base64url_encode = λ t. t;
  base64url_decode = λ t. some t;
  marshal = λ c. some c.username;
  unmarshal = λ t. some ann;
}

abbrev ann_runs : Request
ann_runs = record run_script { cookie = λ name. some (codes "h.p.s") }

abbrev door_config : Config
door_config = record config { jose = door_jose }

ann_token : token_of ann_runs ≡ codes "h.p.s"
unfolding token_of starts_with ◌==◌
ann_token = refl

ann_valid : validate_token door_jose 0 manager (codes "h.p.s") ≡ ok ann
unfolding validate_token split ◌==◌
ann_valid = refl

serve_admitted_example : serve status door_config endpoints none ann_runs app ≡ (
    let (reply, after) =
      endpoints batch_exec (some ann) ann_runs (counted door_config ann_runs app) in
    ((security, reply), after))
unfolding new_whitelist new
serve_admitted_example =
    serve_admitted status door_config endpoints none ann_runs app ann batch_exec
      (inr (inr (inl refl))) (rw ann_token (λ e. cc)) (rw ann_token ann_valid) refl (inl refl)
      (allow_first ann_runs.time (extract_ip toy_net ann_runs) app.limiter (get-empty _))
