-- ===== src/Server.antt =====
-- internal/server: what the server answers to a frame.
pub mod Texts
pub mod Dispatch
pub mod Tests
