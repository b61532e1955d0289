-- ===== src/Agent.antt =====
-- cmd/agent and internal/agent: the client on a managed machine.
pub mod CleanPath
pub mod Files
pub mod Executor
pub mod Terminal
pub mod Client
pub mod System
