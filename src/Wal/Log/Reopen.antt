-- ===== src/Wal/Log/Reopen.antt =====
-- Logs that are opened again after a checkpoint or after damage: moodeng-core/src/wal.rs.
use mathlib.Core.List.{append_assoc}
use moodeng_sql.Prelude.{
  ℕ, ◌+◌, ◌^◌, ◌≤◌, ◌<◌, ◌≡◌, ◌≢◌, refl, ◌∙◌, List, [], ◌∷◌, ◌++◌, arith, ltb, some, suc_u64, false,
}
use moodeng_sql.Prelude.Lists.{length, filter_by, filter_by-false, All, All-weaken}
use moodeng_sql.Prelude.Bytes.{Bytes}
use moodeng_sql.Error.{ok}
use moodeng_sql.Wal.Defs.{WalOp, Bincode, CheckpointState, checkpoint_state}
use moodeng_sql.Wal.Crc.{crc32}
use moodeng_sql.Wal.Codec.{Entry, encode_wal_entry}
use moodeng_sql.Wal.Codec.RoundTrip.{Fits, encode_all}
use moodeng_sql.Wal.Codec.Torn.{framed, replay_damaged}
use moodeng_sql.Wal.Log.{
  WriteAheadLog, LogFiles, read_checkpoint, read_state, opened, open_log, append, mark_checkpoint,
  truncate, replay_since,
}
use moodeng_sql.Wal.Log.Runs.{numbered, append_all, BodyFits, append_all-Holds}
use moodeng_sql.Wal.Log.Appended.{file-append, replay_since-Holds, truncate-Holds}

-- What the process leaves on the disk, with all of its log written.
abbrev pub files_of : WriteAheadLog → LogFiles
files_of w = record { wal = w.file; checkpoint = w.checkpoint_file }

module _ {V : Type 0} (b : Bincode (WalOp V)) where
  checkpoint_file-append :
      (w : WriteAheadLog) (op : WalOp V) → (append b op w).1.checkpoint_file ≡ w.checkpoint_file
  unfolding append
  checkpoint_file-append w op = ground arith

  checkpoint_file-append_all :
      (ops : List (WalOp V)) (w : WriteAheadLog)
      → (append_all b ops w).checkpoint_file ≡ w.checkpoint_file
  unfolding append_all
  checkpoint_file-append_all [] w = refl
  checkpoint_file-append_all (op ∷ ops) w =
      checkpoint_file-append_all ops (append b op w).1 ∙ checkpoint_file-append w op

  module _ (c : Bincode CheckpointState) where
    -- The log right after a checkpoint at the current LSN.
    abbrev pub checkpointed : WriteAheadLog → WriteAheadLog
    checkpointed w = truncate (mark_checkpoint c w.lsn w)

    lsn-checkpointed : (w : WriteAheadLog) → (checkpointed w).lsn ≡ 0
    unfolding truncate
    lsn-checkpointed w = refl

    checkpoint_file-checkpointed :
        (w : WriteAheadLog)
        → (checkpointed w).checkpoint_file ≡ some (c.serialize (checkpoint_state w.lsn))
    unfolding truncate mark_checkpoint
    checkpoint_file-checkpointed w = refl

    read_checkpoint-serialize :
        (lsn : ℕ)
        → c.serialize (checkpoint_state lsn) ≢ []
        → read_checkpoint c (some (c.serialize (checkpoint_state lsn))) ≡ ok lsn
    read_checkpoint-serialize lsn full = go (c.serialize (checkpoint_state lsn)) refl
      where
        go :
            (buf : Bytes)
            → c.serialize (checkpoint_state lsn) ≡ buf
            → read_checkpoint c (some buf) ≡ ok lsn
        go [] e = absurd (full e)
        go (x ∷ xs) e =
            let back = rw e at (c.deserialize-serialize (checkpoint_state lsn)) in
            rw (back, read_state)

    -- After a checkpoint at LSN n the log counts from 1 again, while the replay of a later start
    -- leaves out all LSNs up to n: the first n records after a checkpoint are never replayed.
    pub lost_after_checkpoint :
        (w : WriteAheadLog) (ops : List (WalOp V))
        → c.serialize (checkpoint_state w.lsn) ≢ []
        → All (BodyFits b) ops
        → w.lsn < 2 ^ 64
        → length ops ≤ w.lsn
        → (w' : WriteAheadLog) × (open_log c (files_of (append_all b ops (checkpointed w))) ≡ ok w')
          × (replay_since b w'.checkpoint_lsn w' ≡ [])
    unfolding open_log replay_since
    lost_after_checkpoint w ops full fits small few =
        let before : WriteAheadLog = checkpointed w in
        let zero_lsn : before.lsn ≡ 0 = lsn-checkpointed w in
        let es : List (Entry V) = numbered before.lsn ops in
        let (holds, last) =
          append_all-Holds b ops before [] (truncate-Holds b (mark_checkpoint c w.lsn w)) fits
            (omega arith) in
        let after : WriteAheadLog = append_all b ops before in
        let none_later : All (λ e. ltb w.lsn e.0 ≡ false) es =
          All-weaken (λ e. e.0 ≤ after.lsn) (λ e. ltb w.lsn e.0 ≡ false) es (λ e le. ground arith)
            holds.bounded in
        let nothing : replay_since b w.lsn after ≡ [] =
          replay_since-Holds b w.lsn after es holds
          ∙ filter_by-false (λ e. ltb w.lsn e.0) es none_later in
        let read : read_checkpoint c after.checkpoint_file ≡ ok w.lsn =
          rw (checkpoint_file-append_all ops before, checkpoint_file-checkpointed w)
            (read_checkpoint-serialize w.lsn full) in
        (opened (files_of after) w.lsn, rw (read, open_log), nothing)

  -- Records that are appended behind a damaged one are never replayed.
  pub append_behind_damage :
      (from_lsn : ℕ) (w : WriteAheadLog) (op : WalOp V) (es : List (Entry V)) (lsn crc : ℕ)
      (payload rest : Bytes)
      → All (Fits b) es
      → 4 + length payload < 2 ^ 32
      → crc < 2 ^ 32
      → crc32 payload ≢ crc
      → w.file ≡ encode_all b es ++ (framed b lsn crc payload ++ rest)
      → replay_since b from_lsn (append b op w).1 ≡ filter_by (λ e. ltb from_lsn e.0) es
  unfolding replay_since
  append_behind_damage from_lsn w op es lsn crc payload rest fits small c_small wrong file =
      rw (file-append, file, append_assoc, append_assoc)
        (replay_damaged b from_lsn es lsn crc payload
          (rest ++ encode_wal_entry b (suc_u64 w.lsn) op) fits small c_small wrong)
