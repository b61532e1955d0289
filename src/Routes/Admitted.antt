-- ===== src/Routes/Admitted.antt =====
-- What an administrator's request does.
use m_cloud.Base.{
  ℕ, ◌≡◌, ◌≢◌, ◌⊎◌, ◌∙◌, refl, sym, ap, All, List, inl, inr, true, false, not, [], ◌∷◌, ◌++◌, Text,
  codes, ◌==◌, ==_iff, Option, some, ok, In, In-map, Bool-cases,
}
use m_cloud.Flags.{flag, flag-set_of}
use m_cloud.Auth.Jwt.{Claims, validate_token}
use m_cloud.Http.{Request, Handler}
use m_cloud.Middleware.Ip.{Net, IpWhitelist, extract_ip, whitelist}
use m_cloud.Middleware.Guards.{token_of}
use m_cloud.Middleware.Guards.Laws.{guarded_lem}
use m_cloud.Middleware.Limiter.{RateLimiter, allow, limited}
use m_cloud.Middleware.Headers.{headers, exclude_paths, security_headers, audit_logger}
use m_cloud.Routes.{
  App, Config, Endpoint, machine_tags, machine_group, batch_exec, file_upload, file_download,
  command, setup_totp, find_route, routes, mux, serve, set_limiter, append_line, bare_failure,
}
use m_cloud.Routes.Admin.{admin_paths, mux_admin}

-- What stands behind each path for administrators.
abbrev pub admin_routes : List (Text × Endpoint)
admin_routes =
    (codes "/api/machine/tags", machine_tags)
    ∷ (codes "/api/machine/group", machine_group)
    ∷ (codes "/api/exec", batch_exec)
    ∷ (codes "/api/file/upload", file_upload)
    ∷ (codes "/api/file/download", file_download)
    ∷ (codes "/api/command", command)
    ∷ (codes "/api/setup-totp", setup_totp)
    ∷ []

In-admin_paths : (path : Text) (e : Endpoint) → In (path, e) admin_routes → In path admin_paths
In-admin_paths path e m = In-map (λ (p : Text × Endpoint). p.0) (path, e) admin_routes m

endpoint-find_route :
    (path : Text) (e : Endpoint) → In (path, e) admin_routes → (find_route path routes).endpoint ≡ e
unfolding find_route routes ◌==◌
endpoint-find_route path e (inl q) =
    rw (ap (λ (p : Text × Endpoint). p.0) q) (ap (λ (p : Text × Endpoint). p.1) (sym q))
endpoint-find_route path e (inr (inl q)) =
    rw (ap (λ (p : Text × Endpoint). p.0) q) (ap (λ (p : Text × Endpoint). p.1) (sym q))
endpoint-find_route path e (inr (inr (inl q))) =
    rw (ap (λ (p : Text × Endpoint). p.0) q) (ap (λ (p : Text × Endpoint). p.1) (sym q))
endpoint-find_route path e (inr (inr (inr (inl q)))) =
    rw (ap (λ (p : Text × Endpoint). p.0) q) (ap (λ (p : Text × Endpoint). p.1) (sym q))
endpoint-find_route path e (inr (inr (inr (inr (inl q))))) =
    rw (ap (λ (p : Text × Endpoint). p.0) q) (ap (λ (p : Text × Endpoint). p.1) (sym q))
endpoint-find_route path e (inr (inr (inr (inr (inr (inl q)))))) =
    rw (ap (λ (p : Text × Endpoint). p.0) q) (ap (λ (p : Text × Endpoint). p.1) (sym q))
endpoint-find_route path e (inr (inr (inr (inr (inr (inr (inl q))))))) =
    rw (ap (λ (p : Text × Endpoint). p.0) q) (ap (λ (p : Text × Endpoint). p.1) (sym q))
endpoint-find_route path e (inr (inr (inr (inr (inr (inr (inr m))))))) = elim m [ ]

-- The headers of every response from the routes.
abbrev pub security : List (Text × Text)
security =
    (codes "X-Content-Type-Options", codes "nosniff")
    ∷ (codes "X-Frame-Options", codes "DENY")
    ∷ (codes "X-XSS-Protection", codes "1; mode=block")
    ∷ (codes "Referrer-Policy", codes "strict-origin-when-cross-origin")
    ∷ (
      codes "Content-Security-Policy",
      codes "default-src 'self'; script-src 'self' 'unsafe-inline' https://cdn.jsdelivr.net; "
          ++ codes "style-src 'self' 'unsafe-inline' https://cdn.jsdelivr.net; "
          ++ codes "connect-src 'self' ws: wss:; font-src 'self'; img-src 'self' data:;",
    )
    ∷ (codes "Permissions-Policy", codes "camera=(), microphone=(), geolocation=()")
    ∷ []

security_lem : headers ≡ security
unfolding headers
security_lem = refl

-- The line of the request log.
abbrev pub line_of : Net → Request → Text
line_of net r =
    codes "[AUDIT] " ++ r.method ++ codes " " ++ r.path ++ codes " ip=" ++ extract_ip net r

-- The state that a handler finds: the request is counted and logged.
abbrev pub counted : Config → Request → App → App
counted config r s =
    append_line (line_of config.net r)
      (set_limiter (allow r.time (extract_ip config.net r) s.limiter).0 s)

differs : (k : Text) (ps : List Text) → All (λ p. (p == k) ≡ false) ps → ¬ In k ps
differs k [] each m = elim m [ ]
differs k (p ∷ ps) each (inl e) = cc (each.0, (==_iff p k).1 (sym e))
differs k (p ∷ ps) each (inr m) = differs k ps each.1 m

line_shown : (path : Text) → In path admin_paths → not (flag exclude_paths path) ≡ true
unfolding ◌==◌
line_shown path admin = elim (Bool-cases (flag exclude_paths path)) [
  | inl e ↦ elim ((flag-set_of (codes "/favicon.ico" ∷ []) path).0 e) [
    | inl q ↦ absurd (
        differs (codes "/favicon.ico") admin_paths
          (refl, (refl, (refl, (refl, (refl, (refl, (refl, tt))))))) (rw q at admin))
    | inr m ↦ elim m [ ]
  ]
  | inr e ↦ rw e refl
]

module _ {S R : Type 0} (net : Net) (ctx : Option Claims) (r : Request) where
  passed_whitelist :
      (failure : ℕ → Text → R) (wl : IpWhitelist) (next : Handler S R) (s : S)
      → (wl.enabled ≡ false) ⊎ (flag wl.allowed (extract_ip net r) ≡ true)
      → whitelist net failure wl next ctx r s ≡ next ctx r s
  unfolding whitelist
  passed_whitelist failure wl next s (inl off) = rw off refl
  passed_whitelist failure wl next s (inr known) = elim (Bool-cases (not wl.enabled)) [
    | inl off ↦ rw off refl
    | inr on ↦ rw (on, known) refl
  ]

  passed_limit :
      (failure : ℕ → Text → R) (part : S → RateLimiter) (set : RateLimiter → S → S)
      (next : Handler S R) (s : S)
      → (allow r.time (extract_ip net r) (part s)).1 ≡ true
      → limited net failure part set next ctx r s
        ≡ next ctx r (set (allow r.time (extract_ip net r) (part s)).0 s)
  unfolding limited
  passed_limit failure part set next s free = rw (free, limited) refl

  logged_lem :
      (append : Text → S → S) (next : Handler S R) (s : S)
      → not (flag exclude_paths r.path) ≡ true
      → security_headers (audit_logger net append next) ctx r s
        ≡ (let (reply, after) = next ctx r (append (line_of net r) s) in ((headers, reply), after))
  unfolding security_headers audit_logger
  logged_lem append next s shown = rw (shown, audit_logger) refl

-- An administrator's request for a path that changes something reaches the handler that the list has
-- for that path, with
-- the claims of its token, if the token is valid, the address is on the list or there is no list, and
-- the limit of requests is not reached; the answer is the handler's, with the security headers, and
-- the state is the one that the handler leaves, with the request counted and logged.
pub serve_admitted :
    {R : Type 0} (failure : ℕ → Text → R) (config : Config) (endpoints : Endpoint → Handler App R)
    (ctx : Option Claims) (r : Request) (s : App) (c : Claims) (e : Endpoint)
    → In (r.path, e) admin_routes
    → token_of r ≢ []
    → validate_token config.jose r.time config.jwt (token_of r) ≡ ok c
    → c.role ≡ codes "admin"
    → (config.allowed.enabled ≡ false)
      ⊎ (flag config.allowed.allowed (extract_ip config.net r) ≡ true)
    → (allow r.time (extract_ip config.net r) s.limiter).1 ≡ true
    → serve failure config endpoints ctx r s ≡ (
        let (reply, after) = endpoints e (some c) r (counted config r s) in
        ((security, reply), after))
unfolding serve
serve_admitted {R = R} failure config endpoints ctx r s c e listed there valid role address free =
    let admin : In r.path admin_paths = In-admin_paths r.path e listed in
    let routed = mux failure config endpoints in
    let logged = security_headers (audit_logger config.net append_line routed) in
    let plain = bare_failure failure config endpoints in
    let next = endpoints e in
    let answered : routed ctx r (counted config r s) ≡ next (some c) r (counted config r s) =
      mux_admin failure config endpoints r ctx _ admin
      ∙ rw (endpoint-find_route r.path e listed) refl
      ∙ (guarded_lem failure config.jose config.jwt (codes "admin" ∷ []) next ctx r _).0 c there
          valid (inl role) in
    passed_whitelist config.net ctx r plain config.allowed
      (limited config.net plain (λ s. s.limiter) set_limiter logged) s address
    ∙ passed_limit config.net ctx r plain (λ s. s.limiter) set_limiter logged s free
    ∙ logged_lem config.net ctx r append_line routed _ (line_shown r.path admin)
    ∙ ap (λ (p : R × App). ((headers, p.0), p.1)) answered
    ∙ ap
        (λ (hs : List (Text × Text)).
          let (reply, after) = next (some c) r (counted config r s) in ((hs, reply), after))
        security_lem
