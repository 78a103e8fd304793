-- ===== src/Server.antt =====
-- moodeng-server: authentication, the protocol, and the state of a connection.
pub mod Text
pub mod Scram
pub mod Wire
pub mod Auth
pub mod Substitute
pub mod Session
