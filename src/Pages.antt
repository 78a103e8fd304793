-- ===== src/Pages.antt =====
-- moodeng-core/src/page_table.rs: tables in pages of a mapped file, behind an LRU cache.
pub mod Mapped
pub mod Cache
pub mod Table
