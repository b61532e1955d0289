-- ===== src/Api/Account.antt =====
-- HandleSetupTOTP, and GenerateSecret of internal/master/auth/totp.go, whose random bytes are an
-- argument.
pub mod Enrolled
use m_cloud.Base.{ℕ, List, [], ◌∷◌, ◌++◌, Text, codes, Option, none, some}
use m_cloud.Auth.Jwt.{Claims}
use m_cloud.Auth.Users.{update_totp_secret}
use m_cloud.Http.{Request}
use m_cloud.Api.{Server}

-- The responses: 401, and 200 with the secret and the URL.
pub data Reply : Type 0 where
  unauthorized : Reply
  enrolled : Text → Text → Reply

-- `base32_encode` is that of encoding/base32 without padding.
unfoldable pub generate_secret : (Text → Text) → Text → Text → Text → Text × Text
generate_secret base32_encode random issuer account =
    let encoded = base32_encode random in
    (
      encoded,
      codes "otpauth://totp/"
          ++ issuer
          ++ codes ":"
          ++ account
          ++ codes "?secret="
          ++ encoded
          ++ codes "&issuer="
          ++ issuer
          ++ codes "&algorithm=SHA1&digits=6&period=30",
    )

unfoldable pub handle_setup_totp :
    (Text → Text) → Text → Option Claims → Request → Server → Reply × Server
unfolding generate_secret
handle_setup_totp base32_encode random none r s = (unauthorized, s)
handle_setup_totp base32_encode random (some claims) r s =
    let (secret, url) = generate_secret base32_encode random (codes "Multi-Ops") claims.username in
    (
      enrolled secret url,
      record s { users = (update_totp_secret claims.username secret s.users).0 },
    )
