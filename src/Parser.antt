-- ===== src/Parser.antt =====
-- moodeng-core/src/parser.rs: expressions over the rows of a table.
pub mod Ast
pub mod Eval
pub mod Assigned
