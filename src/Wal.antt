-- ===== src/Wal.antt =====
-- internal/wal: the log's records, their checksum, the scan of a segment, the writer, the truncation
-- below a snapshot, and the replay.
pub mod Checksum
pub mod Record
pub mod Scan
pub mod Writer
pub mod Truncation
pub mod Replay
pub mod Tests
