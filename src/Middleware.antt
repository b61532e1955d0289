-- ===== src/Middleware.antt =====
-- internal/master/middleware/middleware.go, a module for each middleware. `failure` is http.Error:
-- a response with a status and a message.
pub mod Ip
pub mod Guards
pub mod Limiter
pub mod Headers
