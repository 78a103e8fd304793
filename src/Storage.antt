-- ===== src/Storage.antt =====
-- moodeng-core/src/storage.rs: a table in memory, and the engine that keeps tables and their log.
pub mod Table
pub mod Engine
