-- ===== src/Master.antt =====
-- The start of cmd/master/main.go. The salt of bcrypt is an argument, and so is the logger that
-- audit.NewLogger returns, which is nil where the file cannot be opened.
pub mod Fresh
use m_cloud.Base.{
  ℕ, Bool, true, false, not, List, [], ◌∷◌, Text, codes, split, ◌==◌, if◌then◌else◌, Option, none,
  some,
}
use m_cloud.Base.Int.{pos}
use m_cloud.Dict
use m_cloud.Env.{Env, get_env}
use m_cloud.Store
use m_cloud.Store.{cleanup_stale}
use m_cloud.History
use m_cloud.Audit.{Logger}
use m_cloud.Auth.Users
use m_cloud.Auth.Users.{Bcrypt, add_user}
use m_cloud.Auth.Jwt.{Jose}
use m_cloud.Middleware.Ip.{Net, new_whitelist}
use m_cloud.Middleware.Limiter
use m_cloud.Api.{Server}
use m_cloud.Routes.{App, Config}

-- 24 hours and 90 seconds, in nanoseconds.
abbrev pub day : ℕ
day = 86_400_000_000_000

abbrev pub stale_after : ℕ
stale_after = 90_000_000_000

-- log.Fatalln with its text, or a running master.
pub data Start : Type 0 where
  fatal : Text → Start
  started : Text → App → Config → Start

unfoldable pub whitelisted : Env → List Text
unfolding get_env
whitelisted env =
    let ips = get_env env (codes "IP_WHITELIST") [] in
    if not (ips == []) then split b',' ips else []

unfoldable pub new_server : Bcrypt → ℕ → Text → Text → Option Logger → Server
unfolding add_user
new_server bcrypt salt jwt_secret admin_password audit_log = record {
  store = Store.init;
  hub = record { clients = Dict.empty; pushed = [] };
  gateway = record { conn = none; sent = []; closed = [] };
  history = History.new (pos 500);
  users = add_user bcrypt salt (codes "admin") admin_password [] (codes "admin") Users.init;
  jwt = record { secret = jwt_secret; ttl = day };
  audit_log = audit_log;
}

unfoldable pub start : Bcrypt → Jose → Net → ℕ → Option Logger → Env → Start
unfolding get_env new_server whitelisted
start bcrypt jose net salt audit_log env =
    let jwt_secret = get_env env (codes "JWT_SECRET") [] in
    let admin_password = get_env env (codes "ADMIN_PASSWORD") [] in
    if jwt_secret == []
    then fatal (codes "[Master] JWT_SECRET must be set. Use a strong random string.")
    else if admin_password == []
    then fatal (codes "[Master] ADMIN_PASSWORD must be set. Use a strong password.")
    else let server = new_server bcrypt salt jwt_secret admin_password audit_log in
      started (get_env env (codes "MASTER_LISTEN") (codes ":8080"))
        (record {
          server = server;
          limiter = Limiter.new 100 Limiter.minute;
          login_limiter = Limiter.new_login;
          request_log = [];
        })
        (record {
          jose = jose;
          jwt = server.jwt;
          net = net;
          allowed = new_whitelist (whitelisted env);
        })

-- A tick of the goroutine that cleans up, every minute.
unfoldable pub stale_tick : ℕ → Server → Server
stale_tick now s = record s { store = cleanup_stale now stale_after s.store }
