-- ===== src/Protocol.antt =====
-- internal/protocol: the wire codec, which knows nothing of sockets or of the store.
pub mod Limits
pub mod Opcode
pub mod Cursor
pub mod Command
pub mod Frame
pub mod Bodies
pub mod Tests
