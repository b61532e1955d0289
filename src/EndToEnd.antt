-- ===== src/EndToEnd.antt =====
-- The parts put together: what one part sends, the next one handles.
pub mod Hops
pub mod Exec
pub mod Terminal
