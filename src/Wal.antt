-- ===== src/Wal.antt =====
-- moodeng-core/src/wal.rs: the write-ahead log. The records, their bytes, and the log's state.
pub mod Defs
pub mod Crc
pub mod Codec
pub mod Log
