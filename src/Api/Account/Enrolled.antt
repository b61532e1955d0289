-- ===== src/Api/Account/Enrolled.antt =====
-- A second factor, from its set-up to the login.
use m_cloud.Base.{
  ℕ, ◌+◌, ◌^◌, ◌≤◌, ◌<◌, ◌≡◌, ◌≢◌, ◌∙◌, sym, inl, inr, true, [], Text, length, some, ok, some_inj,
}
use m_cloud.Base.Int.{pos}
use m_cloud.Store.{unix}
use m_cloud.Auth.Jwt.{Claims, generate_token}
use m_cloud.Auth.Users.{User, validate_password, get_user}
use m_cloud.Auth.Users.Laws.{update_totp_secret_lem, validate_password-update_totp_secret}
use m_cloud.Auth.Totp.{to_upper, generate_code, validate_code}
use m_cloud.Auth.Totp.Window.{validate-generate_code}
use m_cloud.Http.{Request}
use m_cloud.Api.{Server}
use m_cloud.Api.Login.{LoginRequest, Libraries, granted, handle_login}
use m_cloud.Api.Login.Laws.{handle_login_lem}
use m_cloud.Api.Account.{handle_setup_totp}

-- After a user has set up a second factor, the user's password with a code that was made from the
-- secret at most 30 seconds before or after the login is granted a token; and every login of that
-- user that is granted a token has the password and a code that is valid for the secret at that
-- time. It relies on base32: that the secret decodes to the bytes it was made from.
pub setup-login :
    (lib : Libraries) (encode : Text → Text) (random : Text) (claims : Claims)
    (setup login : Request) (s : Server) (u : User) (req : LoginRequest) (made used : ℕ)
    (code token : Text)
    → ((k message : Text) → length (lib.otp.hmac k message) ≡ 20)
    → lib.otp.base32_decode (to_upper (encode random)) ≡ some random
    → encode random ≢ []
    → get_user claims.username s.users ≡ some u
    → lib.decode login.body ≡ some req
    → req.username ≡ claims.username
    → unix login.time ≡ pos used
    → 30 ≤ used
    → used < 2 ^ 62
    → let after = (handle_setup_totp encode random (some claims) setup s).1 in
      (validate_password lib.bcrypt req.username req.password s.users ≡ true
        → req.totp_code ≡ code
        → generate_code lib.otp random (pos made) ≡ some code
        → made ≤ used + 30
        → used ≤ made + 30
        → generate_token lib.jose login.time s.jwt req.username u.role ≡ ok token
        → (handle_login lib login after).0 ≡ granted token)
      × ((handle_login lib login after).0 ≡ granted token
          → (validate_password lib.bcrypt req.username req.password s.users ≡ true)
            × (validate_code lib.otp (pos used) (encode random) req.totp_code ≡ some true))
unfolding handle_setup_totp
setup-login lib encode random claims setup login s u req made used code token sized decodes
      some_secret known body name clock early late =
    let after : Server = (handle_setup_totp encode random (some claims) setup s).1 in
    let now_known : get_user req.username after.users
        ≡ some (record u { totp_secret = encode random }) =
      rw name (((update_totp_secret_lem claims.username (encode random) s.users).0 u known).1) in
    let same : validate_password lib.bcrypt req.username req.password after.users
        ≡ validate_password lib.bcrypt req.username req.password s.users =
      validate_password-update_totp_secret lib.bcrypt claims.username (encode random) req.username
        req.password s.users in
    let (to, from) = (handle_login_lem lib login after token).0 in
    (
      λ pass typed gen h k made_token.
          let valid : validate_code lib.otp (unix login.time) (encode random) req.totp_code
              ≡ some true =
            rw (clock, typed)
              (validate-generate_code lib.otp made used (encode random) random code sized decodes
                gen early late h k) in
          from (
            req,
            body,
            same ∙ pass,
            (record u { totp_secret = encode random }, now_known, inr valid, made_token),
          ),
      λ g.
          let (req', body', pass, (v, known', second, made_token)) = to g in
          let one : req' ≡ req = some_inj (sym body' ∙ body) in
          let two : v ≡ record u { totp_secret = encode random } =
            some_inj (sym known' ∙ rw one now_known) in
          (
            sym same ∙ rw (← one) pass,
            elim (rw (two, clock, one) at second) [ inl e ↦ absurd (some_secret e) | inr e ↦ e ],
          ),
    )
