-- ===== src/Auth.antt =====
-- internal/master/auth: users, tokens and one-time codes.
pub mod Users
pub mod Jwt
pub mod Totp
