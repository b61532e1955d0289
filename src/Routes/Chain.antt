-- ===== src/Routes/Chain.antt =====
-- The chain of middleware around the routes: what it takes for a property of the responses to pass
-- through it.
use m_cloud.Base.{ℕ, inl, inr, not, [], Text, refl, Option, In, ◌∷◌, Bool-cases}
use m_cloud.Flags.{flag}
use m_cloud.Auth.Jwt.{Claims}
use m_cloud.Http.{Request, Handler, forbidden, too_many_requests}
use m_cloud.Middleware.Ip.{extract_ip, whitelist}
use m_cloud.Middleware.Limiter.{allow, limited}
use m_cloud.Middleware.Headers.{exclude_paths, security_headers, audit_logger}
use m_cloud.Api.{Server}
use m_cloud.Routes.{
  App, Config, Endpoint, Headed, mux, serve, bare_failure, set_limiter, append_line,
}

-- The response without its headers.
abbrev pub bare : {R : Type 0} → Headed R × App → R × App
bare res = (res.0.1, res.1)

-- A property of the server before and of what comes out.
module _ {R : Type 0} (failure : ℕ → Text → R) (config : Config)
    (endpoints : Endpoint → Handler App R) (ctx : Option Claims) (r : Request)
    (P : Server → R × App → Type 0)
    (refused : (code : ℕ) (text : Text) (s : App)
      → In code (forbidden ∷ too_many_requests ∷ [])
      → P s.server (failure code text, s))
    (routed : (s : App) → P s.server (mux failure config endpoints ctx r s)) where
  abbrev logged : Handler App (Headed R)
  logged = security_headers (audit_logger config.net append_line (mux failure config endpoints))

  abbrev slowed : Handler App (Headed R)
  slowed =
      limited config.net (bare_failure failure config endpoints) (λ s. s.limiter) set_limiter logged

  logged_keeps : (s : App) → P s.server (bare (logged ctx r s))
  unfolding security_headers audit_logger
  logged_keeps s = elim (Bool-cases (not (flag exclude_paths r.path))) [
    | inl e ↦ rw e (routed (append_line _ s))
    | inr e ↦ rw e (routed s)
  ]

  slowed_keeps : (s : App) → P s.server (bare (slowed ctx r s))
  unfolding limited
  slowed_keeps s = elim (Bool-cases (allow r.time (extract_ip config.net r) s.limiter).1) [
    | inl e ↦ rw (e, limited) (logged_keeps (set_limiter _ s))
    | inr e ↦ rw (e, limited) (refused too_many_requests _ (set_limiter _ s) (inr (inl refl)))
  ]

  -- It holds of the whole chain if it holds of the routes, and of the two refusals before them.
  pub serve_keeps : (s : App) → P s.server (bare (serve failure config endpoints ctx r s))
  unfolding serve whitelist
  serve_keeps s = elim (Bool-cases (not config.allowed.enabled)) [
    | inl off ↦ rw off (slowed_keeps s)
    | inr on ↦ elim (Bool-cases (not (flag config.allowed.allowed (extract_ip config.net r)))) [
      | inl unknown ↦ rw (on, unknown) (refused forbidden _ s (inl refl))
      | inr known ↦ rw (on, known) (slowed_keeps s)
    ]
  ]
