-- ===== src/Lib.antt =====
-- MoodengSQL, a small SQL database in Rust: the core crate moodeng-core, from the write-ahead log
-- up to the statements, and the connections of the server moodeng-server.
--
-- The parts and how they interact. A statement's writes go to the storage engine, which changes a
-- table in memory and appends a record to the write-ahead log; after fifty records a checkpoint
-- writes the tables to their files and empties the log. A transaction appends Begin, Commit and
-- Abort records and keeps undo records, which a rollback applies to storage and indexes. When a
-- database opens, recovery replays the log: the writes of committed transactions, in the order of
-- the log, onto the tables of the last checkpoint. The catalog holds the schemas. The server takes
-- a connection through the negotiation of TLS and the authentication, and then gives the
-- statements that its messages hold to the engine.
--
-- The files:
--   Prelude        helpers: Boolean tests, lists, association lists for HashMap, DashMap and
--                  BTreeMap, sorting, big-endian bytes, case-insensitive names
--   Error, Action  moodeng-core/src/error.rs; methods on shared state that may fail
--   Types          moodeng-core/src/types.rs: rows; Types/Value: values and coercion
--   Wal            moodeng-core/src/wal.rs: Wal/Defs the records, Wal/Crc the checksum, Wal/Codec
--                  the format and its reader, Wal/Log the log with append, checkpoints, replay
--   Storage        moodeng-core/src/storage.rs: Storage/Table one table, Storage/Engine the engine,
--                  Storage/Engine/Loaded how it opens
--   Pages          moodeng-core/src/page_table.rs: Pages/Mapped the mapped file, Pages/Cache the
--                  cache of pages, Pages/Table the paged table
--   Executor       moodeng-core/src/executor.rs: INSERT, UPDATE, DELETE; Executor/Writes one row,
--                  Executor/Statements the statements, Executor/Schema CREATE and
--                  DROP, Executor/Rollback ROLLBACK
--   Locks          moodeng-core/src/lock.rs: the row locks and the steps of their threads
--   Parser         moodeng-core/src/parser.rs: Parser/Ast the syntax tree, Parser/Eval expressions
--   Planner        moodeng-core/src/planner.rs: plans, and the rows that a query looks at
--   Recovery       moodeng-core/src/recovery.rs: replay_wal, apply_wal_op
--   Transaction    moodeng-core/src/transaction.rs: begin, commit, rollback, apply_undo;
--                  Transaction/Session: moodeng-core/src/executor.rs, the statements' transactions
--   Index          moodeng-core/src/index.rs: B-tree indexes and the index manager
--   Catalog        moodeng-core/src/catalog.rs: schemas and their statistics
--   Server         moodeng-server/src: Server/Text texts as bytes; Server/Scram scram.rs; Server/Wire
--                  the reading and writing of protocol.rs; Server/Auth auth.rs, tls.rs, and what of
--                  protocol.rs comes before the session; Server/Session session.rs and the rest of
--                  protocol.rs; Server/Substitute moodeng-core/src/query_util.rs, parameters
--   Tests          a concrete encoding, and the theorems at concrete inputs
-- The other child modules of a part (Laws, Writes, RoundTrip, ...) hold its theorems.
--
-- How the code is modelled. A u64 is a native number with its wrap-around written out; an i32 or
-- i64 is the number of its bits; a float is its bits. A method on shared state is a function from
-- the state to its result and the new state, which comes back beside an error too; a lock is held
-- by one thread at a time. The row locks are also modelled by themselves, as steps that threads
-- take in any order, for what happens when two threads take and give back locks at once. The log's
-- file is a list of bytes and the length of what is synced; a crash cuts the file anywhere behind
-- that. Writing to a file is taken to succeed. The values of rows are any type where no code looks
-- into them.
--
-- Fuel: the loops that read the log run on one more round than there are bytes, and each round
-- reads at least one byte, so it never ends a loop (Wal/Codec/Reading). So does the loop of a
-- connection (Server/Session/Finished).
--
-- A connection is a function from all the bytes that its client will ever send, which may depend on
-- the answers, to those that the server sends, with the engine as a record of what the server
-- calls. A text is its bytes in UTF-8. Under TLS the bytes are those inside of it.
--
-- Parameters: bincode, as a record of the two functions with the law that an encoding is read
-- back; serde_json's values with their text; the processor's casts to f64 and its sums; the
-- parsing of numbers and the case of letters; the syntax tree of sqlparser, as a data type; HMAC,
-- SHA-256 and base64, with the lengths, the alphabet and the round trip that they are documented to
-- have; argon2, UTF-8 and the TLS handshake.
--
-- Not modelled: the joins, ordering, grouping and limits of SELECT, and EXPLAIN; what the parser
-- makes of column definitions and of the rows of an INSERT, which are the inputs of the statements
-- here; the saving of the catalog and the backup; the range scan of an index; the log, the metrics and
-- the listening of the server, writes to a client that fail, and the command line client.
pub mod Prelude
pub mod Error
pub mod Types
pub mod Action
pub mod Wal
pub mod Storage
pub mod Recovery
pub mod Catalog
pub mod Index
pub mod Transaction
pub mod Executor
pub mod Locks
pub mod Pages
pub mod Parser
pub mod Planner
pub mod Server
pub mod Tests
