-- ===== src/Wal/Log.antt =====
-- `WriteAheadLog` of moodeng-core/src/wal.rs. The record holds the two files, whose operations are
-- taken to succeed, and the counters; each method is run by one thread at a time.
pub mod Appended
pub mod Crash
pub mod Runs
pub mod Reopen
use moodeng_sql.Prelude.{
  ℕ, ◌+◌, Bool, Option, none, some, [], ◌∷◌, ◌++◌, ◌⊎◌, inl, inr, leb, if◌then◌else◌, suc_u64, List,
}
use moodeng_sql.Prelude.Lists.{length}
use moodeng_sql.Prelude.Bytes.{Bytes}
use moodeng_sql.Error.{Result, ok, err, storage}
use moodeng_sql.Wal.Defs.{
  WalOp, Bincode, CheckpointState, checkpoint_state, checkpoint_interval, wal_sync_batch,
}
use moodeng_sql.Wal.Codec.{Entry, encode_wal_entry, replay_from_bytes, read_max_lsn}

-- `synced` is the number of bytes of `wal.log` that the last fsync made durable.
pub record WriteAheadLog : Type 0 where
  pub file : Bytes
  pub synced : ℕ
  pub checkpoint_file : Option Bytes
  pub lsn : ℕ
  pub next_txn_id : ℕ
  pub ops_since_checkpoint : ℕ
  pub unsynced_writes : ℕ
  pub checkpoint_lsn : ℕ

-- The files that `open` finds. A missing `wal.log` is created empty.
pub record LogFiles : Type 0 where
  pub wal : Bytes
  pub checkpoint : Option Bytes

abbrev pub read_state : Bincode CheckpointState → Bytes → Result ℕ
read_state c [] = ok 0
read_state c (byte ∷ bytes) = elim (c.deserialize (byte ∷ bytes)) [
  | inl message ↦ err (storage message)
  | inr (checkpoint_state lsn) ↦ ok lsn
]

abbrev pub read_checkpoint : Bincode CheckpointState → Option Bytes → Result ℕ
read_checkpoint c none = ok 0
read_checkpoint c (some buf) = read_state c buf

-- The log over the two files: LSNs go on behind the largest, transaction numbers begin at 1.
abbrev pub opened : LogFiles → ℕ → WriteAheadLog
opened files checkpoint_lsn = record {
  file = files.wal;
  synced = length files.wal;
  checkpoint_file = files.checkpoint;
  lsn = read_max_lsn files.wal;
  next_txn_id = 1;
  ops_since_checkpoint = 0;
  unsynced_writes = 0;
  checkpoint_lsn = checkpoint_lsn;
}

unfoldable pub open_log : Bincode CheckpointState → LogFiles → Result WriteAheadLog
open_log c files = elim (read_checkpoint c files.checkpoint) [
  | err e ↦ err e
  | ok checkpoint_lsn ↦ ok (opened files checkpoint_lsn)
]

unfoldable pub alloc_txn_id : WriteAheadLog → ℕ × WriteAheadLog
alloc_txn_id w = (w.next_txn_id, record w { next_txn_id = suc_u64 w.next_txn_id })

-- `file.sync_all()` on the log, with the counter set back.
unfoldable pub flush : WriteAheadLog → WriteAheadLog
flush w = record w { synced = length w.file; unsynced_writes = 0 }

abbrev pub current_lsn : WriteAheadLog → ℕ
current_lsn w = w.lsn

unfoldable pub should_checkpoint : WriteAheadLog → Bool
should_checkpoint w = leb checkpoint_interval w.ops_since_checkpoint

unfoldable pub mark_checkpoint : Bincode CheckpointState → ℕ → WriteAheadLog → WriteAheadLog
unfolding flush
mark_checkpoint c lsn w = record (flush w) {
  checkpoint_file = some (c.serialize (checkpoint_state lsn));
  ops_since_checkpoint = 0;
}

-- The log is emptied and its LSNs begin again at 1; `checkpoint_lsn` and the checkpoint file stay.
unfoldable pub truncate : WriteAheadLog → WriteAheadLog
unfolding flush
truncate w = record (flush w) { file = []; synced = 0; lsn = 0 }

module _ {V : Type 0} (b : Bincode (WalOp V)) where
  -- After the tenth unsynced record the file is synced.
  unfoldable pub append : WalOp V → WriteAheadLog → ℕ × WriteAheadLog
  unfolding flush
  append op w =
      let lsn = suc_u64 w.lsn in
      let written = record w {
        file = w.file ++ encode_wal_entry b lsn op;
        lsn = lsn;
        ops_since_checkpoint = suc_u64 w.ops_since_checkpoint;
        unsynced_writes = suc_u64 w.unsynced_writes;
      } in
      (lsn, if leb wal_sync_batch written.unsynced_writes then flush written else written)

  unfoldable pub replay_since : ℕ → WriteAheadLog → List (Entry V)
  replay_since from_lsn w = replay_from_bytes b w.file from_lsn
