-- ===== src/Tests/Starts.antt =====
-- The gateway and the master as they start, with variables that are set and with none.
use m_cloud.Api.Login.{LoginRequest, granted, handle_login}
use m_cloud.Auth.Jwt.{generate_token}
use m_cloud.Http.{Request}
use m_cloud.Tests.Console.{libraries}
use m_cloud.Base.{
  ◌≡◌, ◌≢◌, ◌↔◌, true, [], Text, codes, split, ◌==◌, if◌then◌else◌, In, none, some, ok, Option,
}
use m_cloud.Env.{Env}
use m_cloud.Gateway.Server.{new_authenticator, validate_agent}
use m_cloud.Gateway.Main.{generate_default_token, start_tokens_iff}
use m_cloud.Gateway.Main
use m_cloud.Routes.{App, Config}
use m_cloud.Master.{start, started}
use m_cloud.Master.Fresh.{start_lem}
use m_cloud.Tests.Logins.{toy_bcrypt-IsSound}

abbrev tokens_set : Env
tokens_set key = if key == codes "AGENT_TOKENS" then codes "a,b" else []

abbrev secrets_set : Env
secrets_set key =
    if key == codes "JWT_SECRET"
    then codes "key"
    else if key == codes "ADMIN_PASSWORD"
    then codes "pw"
    else []

-- In the place of base64.
abbrev plain : Text → Text
plain t = t

start_tokens_iff_example :
    let admits =
      validate_agent
        (new_authenticator (Main.start plain (some (codes "rnd")) none tokens_set).tokens)
        (codes "web1") in
    (tokens_set (codes "AGENT_TOKENS") ≢ []
      → ((admits (codes "b") ≡ true)
          ↔ In (codes "b") (split b',' (tokens_set (codes "AGENT_TOKENS")))))
    × (tokens_set (codes "AGENT_TOKENS") ≡ []
        → ((bytes : Text)
            → ◌≡◌ {A = Option Text} (some (codes "rnd")) (some bytes)
            → ((admits (codes "b") ≡ true) ↔ ((codes "b") ≡ plain bytes)))
          × (◌≡◌ {A = Option Text} (some (codes "rnd")) none
              → ((admits (codes "b") ≡ true) ↔ ((codes "b") ≡ []))))
start_tokens_iff_example =
    start_tokens_iff plain (some (codes "rnd")) none tokens_set (codes "web1") (codes "b")

start_lem_example :
    (((listen : Text) × (app : App) × (config : Config) × (start
            (libraries).bcrypt
            (libraries).jose
            (libraries).net
            0
            none
            secrets_set
          ≡ started listen app config))
      ↔ ((secrets_set (codes "JWT_SECRET") ≢ []) × (secrets_set (codes "ADMIN_PASSWORD") ≢ [])))
    × ((listen : Text) (app : App) (config : Config)
        → start (libraries).bcrypt (libraries).jose (libraries).net 0 none secrets_set
          ≡ started listen app config
        → ((r : Request) (login : LoginRequest) (token : Text)
            → (libraries).decode r.body ≡ some login
            → login.username ≡ codes "admin"
            → login.password ≡ secrets_set (codes "ADMIN_PASSWORD")
            → generate_token
                (libraries).jose
                r.time
                (record { secret = secrets_set (codes "JWT_SECRET"); ttl = 86_400_000_000_000 })
                (codes "admin")
                (codes "admin")
              ≡ ok token
            → (handle_login libraries r app.server).0 ≡ granted token)
          × ((r : Request) (token : Text)
              → (handle_login libraries r app.server).0 ≡ granted token
              → (login : LoginRequest) × ((libraries).decode r.body ≡ some login)
                × (login.username ≡ codes "admin")))
start_lem_example = start_lem libraries 0 none secrets_set toy_bcrypt-IsSound
