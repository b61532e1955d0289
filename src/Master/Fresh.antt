-- ===== src/Master/Fresh.antt =====
-- Who can use a master that has just started.
use m_cloud.Base.{
  Bool-cases, ℕ, ◌≡◌, ◌≢◌, ◌↔◌, ◌∙◌, refl, sym, true, false, [], Text, codes, ◌==◌, ==_iff, Option,
  inl, inr, arith, ap, some, none, ok, ==_refl,
}
use m_cloud.Dict.{get-empty, get-put}
use m_cloud.Http.{Request}
use m_cloud.Api.{Server}
use m_cloud.Api.Login.{LoginRequest, Libraries, granted, handle_login}
use m_cloud.Api.Login.Laws.{handle_login_lem}
use m_cloud.Env.{Env}
use m_cloud.Audit.{Logger}
use m_cloud.Auth.Jwt.{Jose, generate_token}
use m_cloud.Auth.Users.{User, Bcrypt, stored, add_user, get_user, init}
use m_cloud.Auth.Users.Laws.{IsSound, add_user-validate_password}
use m_cloud.Middleware.Ip.{Net}
use m_cloud.Routes.{App, Config}
use m_cloud.Master.{day, fatal, started, new_server, start}

module _ (bcrypt : Bcrypt) (jose : Jose) (net : Net) (salt : ℕ) (audit_log : Option Logger)
    (env : Env) where
  abbrev Starts : Type 0
  Starts =
      (listen : Text) × (app : App) × (config : Config) × (start bcrypt jose net salt audit_log env
        ≡ started listen app config)

  no_secret : env (codes "JWT_SECRET") ≡ [] → ¬ Starts
  unfolding start ◌==◌
  no_secret e w =
      let (listen, app, config, q) = w in
      let q' : fatal _ ≡ started listen app config = rw (e, start) at q in cc q'

  no_password :
      (env (codes "JWT_SECRET") == []) ≡ false → env (codes "ADMIN_PASSWORD") ≡ [] → ¬ Starts
  unfolding start ◌==◌
  no_password s e w =
      let (listen, app, config, q) = w in
      let q' : fatal _ ≡ started listen app config = rw s at (rw (s, e, start) at q) in cc q'

  both :
      (env (codes "JWT_SECRET") == []) ≡ false
      → (env (codes "ADMIN_PASSWORD") == []) ≡ false
      → (listen : Text) × (app : App) × (config : Config) × (start bcrypt jose net salt audit_log
            env
          ≡ started listen app config)
        × (app.server.users
            ≡ add_user bcrypt salt
                (codes "admin")
                (env (codes "ADMIN_PASSWORD"))
                []
                (codes "admin")
                init)
        × (app.server.jwt ≡ record { secret = env (codes "JWT_SECRET"); ttl = day })
  unfolding start new_server
  both s p = rw (s, p, start) (rw (s, p) (_, _, _, refl, refl, refl))

  both_set : Starts → (env (codes "JWT_SECRET") ≢ []) × (env (codes "ADMIN_PASSWORD") ≢ [])
  both_set w = (
    λ e. no_secret e w,
    λ e. elim (Bool-cases (env (codes "JWT_SECRET") == [])) [
      | inl blank ↦ no_secret ((==_iff (env (codes "JWT_SECRET")) []).0 blank) w
      | inr set ↦ no_password set e w
    ],
  )

given : (v : Text) → v ≢ [] → (v == []) ≡ false
given v ne = ground (arith, ==_iff v [])

started_inj : {l l' : Text} {a a' : App} {c c' : Config} → started l a c ≡ started l' a' c' → a ≡ a'
started_inj e = cc

-- The only account of a new store of users.
abbrev admin_user : Bcrypt → ℕ → Text → User
admin_user bcrypt salt password = record {
  username = codes "admin";
  password = stored bcrypt salt password;
  totp_secret = [];
  role = codes "admin";
  enabled = true;
}

get-admin :
    (bcrypt : Bcrypt) (salt : ℕ) (password : Text)
    → get_user
        (codes "admin")
        (add_user bcrypt salt (codes "admin") password [] (codes "admin") init)
      ≡ some (admin_user bcrypt salt password)
unfolding get_user add_user
get-admin bcrypt salt password = rw (get-put, ==_refl) refl

get-others :
    (bcrypt : Bcrypt) (salt : ℕ) (password name : Text)
    → name ≢ codes "admin"
    → get_user name (add_user bcrypt salt (codes "admin") password [] (codes "admin") init) ≡ none
unfolding get_user add_user
get-others bcrypt salt password name ne =
    let other : (codes "admin" == name) ≡ false = elim (Bool-cases (codes "admin" == name)) [
      | inl q ↦ absurd (ne (sym ((==_iff (codes "admin") name).0 q)))
      | inr q ↦ q
    ] in
    rw (get-put, other) (get-empty name)

nobody : (u : User) → none ≡ some u → ⊥
nobody u e = cc

fresh_logins :
    (lib : Libraries) (salt : ℕ) (password secret : Text) (server : Server)
    → IsSound lib.bcrypt
    → server.users ≡ add_user lib.bcrypt salt (codes "admin") password [] (codes "admin") init
    → server.jwt ≡ record { secret = secret; ttl = day }
    → ((r : Request) (login : LoginRequest) (token : Text)
        → lib.decode r.body ≡ some login
        → login.username ≡ codes "admin"
        → login.password ≡ password
        → generate_token lib.jose r.time
            (record { secret = secret; ttl = day })
            (codes "admin")
            (codes "admin")
          ≡ ok token
        → (handle_login lib r server).0 ≡ granted token)
      × ((r : Request) (token : Text)
          → (handle_login lib r server).0 ≡ granted token
          → (login : LoginRequest) × (lib.decode r.body ≡ some login)
            × (login.username ≡ codes "admin"))
fresh_logins lib salt password secret server sound users jwt = (
  λ r login token d name typed made. (handle_login_lem lib r server token).0.1 (
    login,
    d,
    rw (users, name, typed)
        (add_user-validate_password lib.bcrypt salt (codes "admin") password [] (codes "admin") init
          sound).0,
    (
      admin_user lib.bcrypt salt password,
      rw (users, name) (get-admin lib.bcrypt salt password),
      inl refl,
      rw (jwt, name) made,
    ),
  ),
  λ r token granted_one.
      let (login, d, p, (u, found, pass, made)) =
        (handle_login_lem lib r server token).0.0 granted_one in
      (
        login,
        d,
        elim (Bool-cases (login.username == codes "admin")) [
          | inl q ↦ (==_iff login.username (codes "admin")).0 q
          | inr q ↦
              let ne : login.username ≢ codes "admin" =
                λ e. cc ((==_iff login.username (codes "admin")).1 e, q) in
              absurd (
                nobody u (
                  sym (get-others lib.bcrypt salt password login.username ne)
                  ∙ (rw users at found)))
        ],
      ),
)

-- The master starts exactly if JWT_SECRET and ADMIN_PASSWORD are set. A master that has started
-- grants a login as "admin" with the password of the environment, whatever one-time code is sent, if
-- GenerateToken makes a token with the secret of the environment, for 24 hours and the role "admin":
-- that is the token granted. It grants no login under another name.
pub start_lem :
    (lib : Libraries) (salt : ℕ) (audit_log : Option Logger) (env : Env)
    → IsSound lib.bcrypt
    → (((listen : Text) × (app : App) × (config : Config) × (start lib.bcrypt lib.jose lib.net salt
              audit_log env
            ≡ started listen app config))
        ↔ ((env (codes "JWT_SECRET") ≢ []) × (env (codes "ADMIN_PASSWORD") ≢ [])))
      × ((listen : Text) (app : App) (config : Config)
          → start lib.bcrypt lib.jose lib.net salt audit_log env ≡ started listen app config
          → ((r : Request) (login : LoginRequest) (token : Text)
              → lib.decode r.body ≡ some login
              → login.username ≡ codes "admin"
              → login.password ≡ env (codes "ADMIN_PASSWORD")
              → generate_token lib.jose r.time
                  (record { secret = env (codes "JWT_SECRET"); ttl = 86_400_000_000_000 })
                  (codes "admin")
                  (codes "admin")
                ≡ ok token
              → (handle_login lib r app.server).0 ≡ granted token)
            × ((r : Request) (token : Text)
                → (handle_login lib r app.server).0 ≡ granted token
                → (login : LoginRequest) × (lib.decode r.body ≡ some login)
                  × (login.username ≡ codes "admin")))
start_lem lib salt audit_log env sound = (
  (
    both_set lib.bcrypt lib.jose lib.net salt audit_log env,
    λ w.
        let (listen, app, config, e, users, jwt) =
          both lib.bcrypt lib.jose lib.net salt audit_log env (given _ w.0) (given _ w.1) in
        (listen, app, config, e),
  ),
  λ listen app config e.
      let (s, p) =
        both_set lib.bcrypt lib.jose lib.net salt audit_log env (listen, app, config, e) in
      let (listen', app', config', e', users', jwt') =
        both lib.bcrypt lib.jose lib.net salt audit_log env (given _ s) (given _ p) in
      let same : app ≡ app' = started_inj (sym e ∙ e') in
      fresh_logins lib salt (env (codes "ADMIN_PASSWORD")) (env (codes "JWT_SECRET")) app.server
        sound (ap (λ (x : App). x.server.users) same ∙ users')
        (ap (λ (x : App). x.server.jwt) same ∙ jwt'),
)
