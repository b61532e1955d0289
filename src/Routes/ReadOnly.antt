-- ===== src/Routes/ReadOnly.antt =====
-- What a request can change that comes without an administrator's token, with the handlers of the
-- server in their places.
use m_cloud.Base.{
  ◌≡◌, ◌≢◌, ◌⊎◌, refl, sym, inl, inr, List, [], ◌∷◌, Text, codes, ◌==◌, ==_iff, Option, some,
  Result-cases, Bool-cases, All,
}
use m_cloud.Auth.Jwt.{Claims, validate_token}
use m_cloud.Http.{Request, Handler}
use m_cloud.Middleware.Ip.{extract_ip}
use m_cloud.Middleware.Guards.{token_of, require_auth}
use m_cloud.Middleware.Limiter.{allow, limited}
use m_cloud.Api.{Server}
use m_cloud.Api.Login.Laws.{OnlyLogs, handle_login-OnlyLogs}
use m_cloud.Routes.{
  App, Config, Endpoint, Guard, Route, open_to_all, login_limit, signed_in, admin_only, login,
  static_files, find_route, routes, behind, mux, set_login_limiter,
}
use m_cloud.Routes.Admin.{NoAdmin, admin-IsRefused}
use m_cloud.Routes.Chain.{serve_keeps}
use m_cloud.Routes.Handlers.{Given, Response, failed, endpoints, serve_all}

infixr 5 ◌and◌
abbrev ◌and◌ : {A B : Type 0} → A → B → A × B
a and b = (a, b)

-- A lookup in the table has what the routes of that path have, and the files.
find_route_rule :
    (P : Route → Type 0) (path : Text) (rs : List Route)
    → P (record { path = path; guard = open_to_all; endpoint = static_files })
    → All (λ rt. rt.path ≡ path → P rt) rs
    → P (find_route path rs)
unfolding find_route
find_route_rule P path [] files each = files
find_route_rule P path (rt ∷ rs) files each = elim (Bool-cases (rt.path == path)) [
  | inl e ↦ rw (e, find_route) (each.0 ((==_iff rt.path path).0 e))
  | inr e ↦ rw (e, find_route) (find_route_rule P path rs files each.1)
]

-- The server before and after a request are in a relation; the state is let be where nothing is done.
module _ (Rel : Server → Server → Type 0) (same : (s : Server) → Rel s s) where
  abbrev IsReader : Endpoint → Type 0
  IsReader e =
      (lib : Given)
      → (ctx : Option Claims) → (r : Request) → (s : App)
      → Rel s.server (endpoints lib e ctx r s).1.server

  -- A route for administrators, or to an endpoint that only reads.
  abbrev IsHarmless : Route → Type 0
  IsHarmless rt = (rt.guard ≡ admin_only) ⊎ IsReader rt.endpoint

  routes-IsHarmless :
      (path : Text)
      → path ≢ codes "/ws/dashboard"
      → path ≢ codes "/ws/gateway"
      → (path ≡ codes "/api/login" → IsReader login)
      → IsHarmless (find_route path routes)
  unfolding routes endpoints
  routes-IsHarmless path dashboard gateway login_reads =
      let reads = λ (lib : Given) (ctx : Option Claims) (r : Request) (s : App). same s.server in
      find_route_rule IsHarmless path routes (inr reads) (
        (λ e. inr (login_reads (sym e)))
        and (λ e. inr reads)
        and (λ e. absurd (dashboard (sym e)))
        and (λ e. absurd (gateway (sym e)))
        and (λ e. inr reads)
        and (λ e. inr reads)
        and (λ e. inr reads)
        and (λ e. inr reads)
        and (λ e. inr reads)
        and (λ e. inr reads)
        and (λ e. inr reads)
        and (λ e. inl refl)
        and (λ e. inl refl)
        and (λ e. inl refl)
        and (λ e. inl refl)
        and (λ e. inl refl)
        and (λ e. inl refl)
        and (λ e. inl refl)
        and tt)

  module _ (lib : Given) (config : Config) (r : Request) (none_sent : NoAdmin config r) where
    refused :
        (next : Handler App Response) (ctx : Option Claims) (s : App)
        → Rel s.server (behind failed config (endpoints lib) admin_only next ctx r s).1.server
    unfolding behind
    refused next ctx s =
        rw (admin-IsRefused failed config next ctx r s none_sent).unchanged (same s.server)

    reader_behind :
        (g : Guard) (e : Endpoint) (ctx : Option Claims) (s : App)
        → IsReader e
        → Rel s.server (behind failed config (endpoints lib) g (endpoints lib e) ctx r s).1.server
    unfolding behind limited require_auth
    reader_behind open_to_all e ctx s reads = reads lib ctx r s
    reader_behind login_limit e ctx s reads =
        elim (Bool-cases (allow r.time (extract_ip config.net r) s.login_limiter).1) [
          | inl q ↦ rw (q, limited) (reads lib ctx r (set_login_limiter _ s))
          | inr q ↦ rw (q, limited) (same s.server)
        ]
    reader_behind signed_in e ctx s reads = elim (Bool-cases (token_of r == [])) [
      | inl q ↦ rw (q, require_auth) (same s.server)
      | inr q ↦ elim (Result-cases (validate_token config.jose r.time config.jwt (token_of r))) [
        | inl (x, v) ↦ rw (q, v, require_auth) (same s.server)
        | inr (c, v) ↦ rw (q, v, require_auth) (reads lib (some c) r s)
      ]
    ]
    reader_behind admin_only e ctx s reads = refused (endpoints lib e) ctx s

    served :
        (ctx : Option Claims) (s : App)
        → r.path ≢ codes "/ws/dashboard"
        → r.path ≢ codes "/ws/gateway"
        → (r.path ≡ codes "/api/login" → IsReader login)
        → Rel s.server (serve_all lib config ctx r s).1.server
    unfolding serve_all mux
    served ctx s dashboard gateway login_reads =
        serve_keeps failed config (endpoints lib) ctx r (λ server res. Rel server res.1.server)
          (λ code text s listed. same s.server)
          (λ s. elim (routes-IsHarmless r.path dashboard gateway login_reads) [
            | inl q ↦ rw q (refused _ ctx s)
            | inr reads ↦ reader_behind _ _ ctx s reads
          ])
          s

-- Whoever holds no valid token of an administrator can change nothing over the HTTP interface: after
-- any request that comes without one, and is not for one of the two sockets, the machines, the runs,
-- the accounts, the browsers and what was sent to the gateway are as before, and only the audit log
-- may have grown; if the request is not a login either, the whole server is as before.
pub serve_all_read_only :
    (lib : Given) (config : Config) (ctx : Option Claims) (r : Request) (s : App)
    → NoAdmin config r
    → r.path ≢ codes "/ws/dashboard"
    → r.path ≢ codes "/ws/gateway"
    → let after = (serve_all lib config ctx r s).1.server in
      (record after { audit_log = s.server.audit_log } ≡ s.server)
      × (r.path ≢ codes "/api/login" → after ≡ s.server)
unfolding endpoints
serve_all_read_only lib config ctx r s none_sent dashboard gateway = (
  served OnlyLogs (λ s. refl) lib config r none_sent ctx s dashboard gateway
      (λ e lib ctx r s. handle_login-OnlyLogs lib.logins r s.server),
  λ other.
      served (λ s t. t ≡ s) (λ s. refl) lib config r none_sent ctx s dashboard gateway
        (λ e. absurd (other e)),
)
