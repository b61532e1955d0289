-- ===== src/Gateway.antt =====
-- The gateway: internal/gateway/proxy/proxy.go (Proxy), internal/gateway/auth/auth.go and the
-- handlers and loops of cmd/gateway/main.go (Server).
pub mod Proxy
pub mod Server
pub mod Main
