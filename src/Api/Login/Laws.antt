-- ===== src/Api/Login/Laws.antt =====
-- Who is granted a token.
use m_cloud.Base.{
  Result-cases, ◌≡◌, ◌↔◌, ◌⊎◌, refl, inl, inr, ap, sym, ◌∙◌, true, false, [], Text, ◌==◌, ==_iff,
  some, some_inj, ok, Bool-cases, Option-cases,
}
use m_cloud.Store.{unix}
use m_cloud.Http.{Request}
use m_cloud.Auth.Users.{User, validate_password, get_user}
use m_cloud.Auth.Jwt.{generate_token}
use m_cloud.Auth.Totp.{validate_code}
use m_cloud.Api.{Server}
use m_cloud.Api.Login.{LoginRequest, granted, Libraries, grant, second_factor, handle_login}

module _ (lib : Libraries) (r : Request) (s : Server) (token : Text) where
  grant-granted :
      (req : LoginRequest) (u : User)
      → ((grant lib req u r s).0 ≡ granted token)
        ↔ (generate_token lib.jose r.time s.jwt req.username u.role ≡ ok token)
  unfolding grant
  grant-granted req u =
      elim (Result-cases (generate_token lib.jose r.time s.jwt req.username u.role)) [
        | inl (e, q) ↦ (λ h. absurd (cc (rw (q, grant) at h)), λ h. absurd (cc (q, h)))
        | inr (t, q) ↦ (
          λ h. let h' : granted t ≡ granted token = rw (q, grant) at h in cc (q, h'),
          λ h. let same : t ≡ token = cc (q, h) in rw (q, grant) (ap granted same),
        )
      ]

  -- The second factor is passed: the account has none, or the code is valid now.
  abbrev pub Passes : LoginRequest → User → Type 0
  Passes req u =
      (u.totp_secret ≡ [])
      ⊎ (validate_code lib.otp (unix r.time) u.totp_secret req.totp_code ≡ some true)

  second_factor-granted :
      (req : LoginRequest) (u : User)
      → ((second_factor lib req u r s).0 ≡ granted token)
        ↔ (Passes req u × (generate_token lib.jose r.time s.jwt req.username u.role ≡ ok token))
  unfolding second_factor
  second_factor-granted req u = elim (Bool-cases (u.totp_secret == [])) [
    | inl b ↦ (
      λ h. (
        inl ((==_iff u.totp_secret []).0 b),
        (grant-granted req u).0 (rw (b, second_factor) at h),
      ),
      λ w. rw (b, second_factor) ((grant-granted req u).1 w.1),
    )
    | inr b ↦
        elim (Option-cases (validate_code lib.otp (unix r.time) u.totp_secret req.totp_code)) [
          | inl v ↦ (
            λ h. absurd (cc (rw (b, v, second_factor) at h)),
            λ w.
                absurd
                  (elim w.0 [ inl e ↦ cc ((==_iff u.totp_secret []).1 e, b) | inr e ↦ cc (v, e) ]),
          )
          | inr (false, v) ↦ (
            λ h. absurd (cc (rw (b, v, second_factor) at h)),
            λ w. absurd (elim w.0 [
              | inl e ↦ cc ((==_iff u.totp_secret []).1 e, b)
              | inr e ↦ let wrong : false ≡ true = some_inj (sym v ∙ e) in cc wrong
            ]),
          )
          | inr (true, v) ↦ (
            λ h. (inr v, (grant-granted req u).0 (rw (b, v, second_factor) at h)),
            λ w. rw (b, v, second_factor) ((grant-granted req u).1 w.1),
          )
        ]
  ]

-- The two states differ at most in the audit log.
abbrev pub OnlyLogs : Server → Server → Type 0
OnlyLogs s t = record t { audit_log = s.audit_log } ≡ s

grant-OnlyLogs :
    (lib : Libraries) (req : LoginRequest) (u : User) (r : Request) (s : Server)
    → OnlyLogs s (grant lib req u r s).1
unfolding grant
grant-OnlyLogs lib req u r s =
    elim (Result-cases (generate_token lib.jose r.time s.jwt req.username u.role)) [
      | inl (e, q) ↦ rw (q, grant) refl
      | inr (t, q) ↦ rw (q, grant) refl
    ]

second_factor-OnlyLogs :
    (lib : Libraries) (req : LoginRequest) (u : User) (r : Request) (s : Server)
    → OnlyLogs s (second_factor lib req u r s).1
unfolding second_factor
second_factor-OnlyLogs lib req u r s = elim (Bool-cases (u.totp_secret == [])) [
  | inl b ↦ rw (b, second_factor) (grant-OnlyLogs lib req u r s)
  | inr b ↦ elim (Option-cases (validate_code lib.otp (unix r.time) u.totp_secret req.totp_code)) [
    | inl v ↦ rw (b, v, second_factor) refl
    | inr (false, v) ↦ rw (b, v, second_factor) refl
    | inr (true, v) ↦ rw (b, v, second_factor) (grant-OnlyLogs lib req u r s)
  ]
]

pub handle_login-OnlyLogs :
    (lib : Libraries) (r : Request) (s : Server) → OnlyLogs s (handle_login lib r s).1
unfolding handle_login
handle_login-OnlyLogs lib r s = elim (Option-cases (lib.decode r.body)) [
  | inl d ↦ rw (d, handle_login) refl
  | inr (req, d) ↦
      elim (Bool-cases (validate_password lib.bcrypt req.username req.password s.users)) [
        | inr p ↦ rw (d, p, handle_login) refl
        | inl p ↦ elim (Option-cases (get_user req.username s.users)) [
          | inl g ↦ rw (d, p, g, handle_login) refl
          | inr (u, g) ↦ rw (d, p, g, handle_login) (second_factor-OnlyLogs lib req u r s)
        ]
      ]
]

-- HandleLogin grants a token exactly if the body is a request whose password is accepted for its
-- user, the code of a user with a secret is valid at that time, and the token is the one
-- GenerateToken makes of the user's name and role. Whatever it answers, it changes nothing but the
-- audit log.
pub handle_login_lem :
    (lib : Libraries) (r : Request) (s : Server) (token : Text)
    → (((handle_login lib r s).0 ≡ granted token) ↔ (
        (req : LoginRequest) × (lib.decode r.body ≡ some req)
        × (validate_password lib.bcrypt req.username req.password s.users ≡ true)
        × ((u : User) × (get_user req.username s.users ≡ some u)
            × ((u.totp_secret ≡ [])
                ⊎ (validate_code lib.otp (unix r.time) u.totp_secret req.totp_code ≡ some true))
            × (generate_token lib.jose r.time s.jwt req.username u.role ≡ ok token))))
      × (record ((handle_login lib r s).1) { audit_log = s.audit_log } ≡ s)
unfolding handle_login
handle_login_lem lib r s token = (
  (
    λ h. elim (Option-cases (lib.decode r.body)) [
      | inl d ↦ absurd (cc (rw (d, handle_login) at h))
      | inr (req, d) ↦
          elim (Bool-cases (validate_password lib.bcrypt req.username req.password s.users)) [
            | inr p ↦ absurd (cc (rw (d, p, handle_login) at h))
            | inl p ↦ elim (Option-cases (get_user req.username s.users)) [
              | inl g ↦ absurd (cc (rw (d, p, g, handle_login) at h))
              | inr (u, g) ↦
                  let (pass, made) =
                    (second_factor-granted lib r s token req u).0
                      (rw (d, p, g, handle_login) at h) in
                  (req, d, p, (u, g, pass, made))
            ]
          ]
    ],
    λ w.
        let (req, d, p, (u, g, pass, made)) = w in
        rw (d, p, g, handle_login) ((second_factor-granted lib r s token req u).1 (pass, made)),
  ),
  handle_login-OnlyLogs lib r s,
)
