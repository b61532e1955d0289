-- ===== src/Routes/Admin.antt =====
-- What a request without an administrator's token can do on the paths for administrators.
use m_cloud.Base.{
  ℕ, ◌≡◌, ◌≢◌, refl, ap, ◌∙◌, inl, inr, List, [], ◌∷◌, Text, codes, ◌==◌, ==_iff, Option, ok,
  Result-cases, In, Bool-cases,
}
use m_cloud.Auth.Jwt.{Claims, validate_token}
use m_cloud.Http.{Request, Handler, unauthorized, forbidden, too_many_requests}
use m_cloud.Middleware.Guards.{token_of, require_auth, require_role}
use m_cloud.Middleware.Guards.Laws.{guarded_lem}
use m_cloud.Api.{Server}
use m_cloud.Routes.Chain.{bare, serve_keeps}
use m_cloud.Routes.{App, Config, Endpoint, admin_only, find_route, routes, behind, mux, serve}

-- The paths that change machines, run scripts, move files, send commands or set a second factor.
abbrev pub admin_paths : List Text
admin_paths =
    codes "/api/machine/tags"
    ∷ codes "/api/machine/group"
    ∷ codes "/api/exec"
    ∷ codes "/api/file/upload"
    ∷ codes "/api/file/download"
    ∷ codes "/api/command"
    ∷ codes "/api/setup-totp"
    ∷ []

guard-find_route : (path : Text) → In path admin_paths → (find_route path routes).guard ≡ admin_only
unfolding find_route routes ◌==◌
guard-find_route path (inl e) = rw e refl
guard-find_route path (inr (inl e)) = rw e refl
guard-find_route path (inr (inr (inl e))) = rw e refl
guard-find_route path (inr (inr (inr (inl e)))) = rw e refl
guard-find_route path (inr (inr (inr (inr (inl e))))) = rw e refl
guard-find_route path (inr (inr (inr (inr (inr (inl e)))))) = rw e refl
guard-find_route path (inr (inr (inr (inr (inr (inr (inl e))))))) = rw e refl
guard-find_route path (inr (inr (inr (inr (inr (inr (inr m))))))) = elim m [ ]

-- No token of an administrator comes with the request.
abbrev pub NoAdmin : Config → Request → Type 0
NoAdmin config r =
    (c : Claims)
    → token_of r ≢ []
    → validate_token config.jose r.time config.jwt (token_of r) ≡ ok c
    → c.role ≢ codes "admin"

module _ {R : Type 0} (failure : ℕ → Text → R) where
  -- The response is one of the guards' errors, and the server is as it was.
  pub record IsRefused (server : Server) (res : R × App) : Type 0 where
    pub code : ℕ
    pub text : Text
    pub one_of : In code (unauthorized ∷ forbidden ∷ too_many_requests ∷ [])
    pub response : res.0 ≡ failure code text
    pub unchanged : res.1.server ≡ server

  IsRefused-failure :
      (server : Server) (s : App) (res : R × App) (code : ℕ) (text : Text)
      → In code (unauthorized ∷ forbidden ∷ too_many_requests ∷ [])
      → s.server ≡ server
      → res ≡ (failure code text, s)
      → IsRefused server res
  IsRefused-failure server s res code text listed same e = record {
    code = code;
    text = text;
    one_of = listed;
    response = ap (λ (x : R × App). x.0) e;
    unchanged = ap (λ (x : R × App). x.1.server) e ∙ same;
  }

  -- Without an administrator's token, the two guards of the table refuse.
  pub admin-IsRefused :
      (config : Config) (next : Handler App R) (ctx : Option Claims) (r : Request) (s : App)
      → NoAdmin config r
      → IsRefused s.server (
          require_auth failure config.jose config.jwt
            (require_role failure (codes "admin" ∷ []) next)
            ctx
            r
            s)
  admin-IsRefused config next ctx r s none_sent =
      let (_, other, bad) =
        guarded_lem failure config.jose config.jwt (codes "admin" ∷ []) next ctx r s in
      let refused = IsRefused-failure s.server s _ in
      elim (Bool-cases (token_of r == [])) [
        | inl t ↦ refused unauthorized _ (inl refl) refl (bad (inl ((==_iff (token_of r) []).0 t)))
        | inr t ↦ elim (Result-cases (validate_token config.jose r.time config.jwt (token_of r))) [
          | inl (e, v) ↦ refused unauthorized _ (inl refl) refl (bad (inr (e, v)))
          | inr (c, v) ↦
              let there : token_of r ≢ [] = λ q. cc ((==_iff (token_of r) []).1 q, t) in
              refused forbidden _ (inr (inl refl)) refl (
                other c there v
                  (λ m. elim m [ inl q ↦ none_sent c there v q | inr m ↦ elim m [ ] ]))
        ]
      ]

  module _ (config : Config) (endpoints : Endpoint → Handler App R) (r : Request) where
    pub mux_admin :
        (ctx : Option Claims) (s : App)
        → In r.path admin_paths
        → mux failure config endpoints ctx r s
          ≡ require_auth failure config.jose config.jwt
              (require_role failure
                (codes "admin" ∷ [])
                (endpoints (find_route r.path routes).endpoint))
              ctx
              r
              s
    unfolding mux behind
    mux_admin ctx s admin = rw (guard-find_route r.path admin) refl

    mux-IsRefused :
        (ctx : Option Claims) (s : App)
        → In r.path admin_paths
        → NoAdmin config r
        → IsRefused s.server (mux failure config endpoints ctx r s)
    mux-IsRefused ctx s admin none_sent =
        rw (mux_admin ctx s admin)
          (admin-IsRefused config (endpoints (find_route r.path routes).endpoint) ctx r s none_sent)

-- The API of an administrator is closed to everyone else: whatever the handlers do, a request for a
-- path that changes machines, runs scripts, moves files, sends commands or sets a second factor, and
-- that comes without a valid token of the role "admin", is answered with 401, 403 or 429, and the
-- server is left as it was.
pub serve-IsRefused :
    {R : Type 0} (failure : ℕ → Text → R) (config : Config) (endpoints : Endpoint → Handler App R)
    (ctx : Option Claims) (r : Request) (s : App)
    → In r.path admin_paths
    → NoAdmin config r
    → IsRefused failure s.server (bare (serve failure config endpoints ctx r s))
serve-IsRefused failure config endpoints ctx r s admin none_sent =
    serve_keeps failure config endpoints ctx r (λ server res. IsRefused failure server res)
      (λ code text s listed.
        IsRefused-failure failure s.server s _ code text (inr listed) refl refl)
      (λ s. mux-IsRefused failure config endpoints r ctx s admin none_sent) s
