-- ===== src/Routes.antt =====
-- The routes of cmd/master/main.go and the chain of middleware around them. The handlers are
-- arguments: `endpoints` gives one for each entry of the table. A request for a path that no pattern
-- names is one for a file. A response has its headers beside it.
pub mod Admin
pub mod Chain
pub mod Handlers
pub mod ReadOnly
pub mod Admitted
use m_cloud.Base.{
  ℕ, Bool, true, false, List, [], ◌∷◌, ◌++◌, Text, codes, ◌==◌, if◌then◌else◌, Option, none, some,
}
use m_cloud.Auth.Jwt.{Jose, JwtManager}
use m_cloud.Http.{Request, Handler}
use m_cloud.Middleware.Ip.{Net, IpWhitelist, whitelist}
use m_cloud.Middleware.Guards.{require_auth, require_role}
use m_cloud.Middleware.Limiter.{RateLimiter, limited}
use m_cloud.Middleware.Headers.{security_headers, audit_logger}
use m_cloud.Api.{Server}

pub data Endpoint : Type 0 where
  login status dashboard_ws gateway_ws machines machine_detail groups machine_tags machine_group
        exec_history exec_detail batch_exec script_templates audit_log file_upload file_download
        command setup_totp static_files :
      Endpoint

-- What stands around a handler.
pub data Guard : Type 0 where
  open_to_all login_limit signed_in admin_only : Guard

pub record Route : Type 0 where
  pub path : Text
  pub guard : Guard
  pub endpoint : Endpoint

abbrev route : Text → Guard → Endpoint → Route
route path guard endpoint = record { path = path; guard = guard; endpoint = endpoint }

unfoldable pub routes : List Route
routes =
    route (codes "/api/login") login_limit login
    ∷ route (codes "/api/status") open_to_all status
    ∷ route (codes "/ws/dashboard") open_to_all dashboard_ws
    ∷ route (codes "/ws/gateway") open_to_all gateway_ws
    ∷ route (codes "/api/machines") signed_in machines
    ∷ route (codes "/api/machine") signed_in machine_detail
    ∷ route (codes "/api/groups") signed_in groups
    ∷ route (codes "/api/exec/history") signed_in exec_history
    ∷ route (codes "/api/exec/detail") signed_in exec_detail
    ∷ route (codes "/api/script-templates") signed_in script_templates
    ∷ route (codes "/api/audit") signed_in audit_log
    ∷ route (codes "/api/machine/tags") admin_only machine_tags
    ∷ route (codes "/api/machine/group") admin_only machine_group
    ∷ route (codes "/api/exec") admin_only batch_exec
    ∷ route (codes "/api/file/upload") admin_only file_upload
    ∷ route (codes "/api/file/download") admin_only file_download
    ∷ route (codes "/api/command") admin_only command
    ∷ route (codes "/api/setup-totp") admin_only setup_totp
    ∷ []

unfoldable pub find_route : Text → List Route → Route
find_route path [] = route path open_to_all static_files
find_route path (r ∷ rs) = if r.path == path then r else find_route path rs

-- The state of the process: the server, the two limiters and the lines of the request log, oldest
-- first.
pub record App : Type 0 where
  pub server : Server
  pub limiter : RateLimiter
  pub login_limiter : RateLimiter
  pub request_log : List Text

abbrev pub set_limiter : RateLimiter → App → App
set_limiter rl s = record s { limiter = rl }

abbrev pub set_login_limiter : RateLimiter → App → App
set_login_limiter rl s = record s { login_limiter = rl }

abbrev pub append_line : Text → App → App
append_line line s = record s { request_log = s.request_log ++ line ∷ [] }

abbrev pub Headed : Type 0 → Type 0
Headed R = List (Text × Text) × R

pub record Config : Type 0 where
  pub jose : Jose
  pub jwt : JwtManager
  pub net : Net
  pub allowed : IpWhitelist

module _ {R : Type 0} (failure : ℕ → Text → R) (config : Config)
    (endpoints : Endpoint → Handler App R) where
  unfoldable pub behind : Guard → Handler App R → Handler App R
  behind open_to_all next = next
  behind login_limit next = limited config.net failure (λ s. s.login_limiter) set_login_limiter next
  behind signed_in next = require_auth failure config.jose config.jwt next
  behind admin_only next =
      require_auth failure config.jose config.jwt (require_role failure (codes "admin" ∷ []) next)

  unfoldable pub mux : Handler App R
  unfolding find_route routes behind
  mux ctx r s =
      let found = find_route r.path routes in behind found.guard (endpoints found.endpoint) ctx r s

  -- A response that a guard outside of SecurityHeaders writes.
  abbrev pub bare_failure : ℕ → Text → Headed R
  bare_failure code text = ([], failure code text)

  -- The handler of the server: whitelist, rate limit, security headers, request log and then the
  -- routes.
  unfoldable pub serve : Handler App (Headed R)
  serve = whitelist config.net bare_failure config.allowed (
      limited config.net bare_failure (λ s. s.limiter) set_limiter
        (security_headers (audit_logger config.net append_line mux)))
