-- ===== src/Tests.antt =====
-- The theorems at concrete inputs, with a concrete encoding in place of bincode.
pub mod Coder
pub mod Stored
pub mod Logged
pub mod Executed
pub mod Locked
pub mod Paged
pub mod Planned
pub mod Recovered
pub mod Sessions
pub mod Served
