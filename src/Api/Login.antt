-- ===== src/Api/Login.antt =====
-- HandleLogin: a password, a one-time code where the account has a secret, then a token.
pub mod Laws
use m_cloud.Base.{
  ℕ, Bool, true, false, not, List, [], ◌∷◌, Text, codes, ◌==◌, if◌then◌else◌, Option, none, some,
  ok, err,
}
use m_cloud.Store.{unix}
use m_cloud.Http.{Request}
use m_cloud.Audit.{Entry, log}
use m_cloud.Auth.Users.{User, Bcrypt, validate_password, get_user}
use m_cloud.Auth.Jwt.{Jose, generate_token}
use m_cloud.Auth.Totp.{Otp, validate_code}
use m_cloud.Middleware.Ip.{Net, extract_ip}
use m_cloud.Api.{Server}

pub record LoginRequest : Type 0 where
  pub username : Text
  pub password : Text
  pub totp_code : Text

-- The responses, with status 400, 401, 401, 500 and 200, and a run-time panic.
pub data Reply : Type 0 where
  invalid_request invalid_credentials invalid_totp_code generation_failed crashed : Reply
  granted : Text → Reply

pub record Libraries : Type 0 where
  pub decode : Text → Option LoginRequest
  pub bcrypt : Bcrypt
  pub jose : Jose
  pub otp : Otp
  pub net : Net

module _ (lib : Libraries) where
  -- s.AuditLog.Log(audit.Entry{Action: …, User: …, IP: …})
  abbrev pub logged : Text → Text → Request → Server → Server
  logged action user r s = record s {
    audit_log =
        log r.time
          (record {
            timestamp = none;
            action = action;
            user = user;
            ip = extract_ip lib.net r;
            agent_id = [];
            detail = [];
          })
          s.audit_log;
  }

  -- HandleLogin from GenerateToken on.
  unfoldable pub grant : LoginRequest → User → Request → Server → Reply × Server
  grant req user r s = elim (generate_token lib.jose r.time s.jwt req.username user.role) [
    | err e ↦ (generation_failed, s)
    | ok token ↦ (granted token, logged (codes "login_success") req.username r s)
  ]

  -- HandleLogin once the password is accepted.
  unfoldable pub second_factor : LoginRequest → User → Request → Server → Reply × Server
  unfolding grant
  second_factor req user r s =
      if user.totp_secret == []
      then grant req user r s
      else elim (validate_code lib.otp (unix r.time) user.totp_secret req.totp_code) [
        | none ↦ (crashed, s)
        | some valid ↦
            if not valid
            then (invalid_totp_code, logged (codes "totp_failed") req.username r s)
            else grant req user r s
      ]

  unfoldable pub handle_login : Request → Server → Reply × Server
  unfolding second_factor
  handle_login r s = elim (lib.decode r.body) [
    | none ↦ (invalid_request, s)
    | some req ↦
        if not (validate_password lib.bcrypt req.username req.password s.users)
        then (invalid_credentials, logged (codes "login_failed") req.username r s)
        else elim (get_user req.username s.users) [
          | none ↦ (crashed, s)
          | some user ↦ second_factor req user r s
        ]
  ]
