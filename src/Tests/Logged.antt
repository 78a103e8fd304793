-- ===== src/Tests/Logged.antt =====
-- The theorems on the log at a small log.
use moodeng_sql.Prelude.{String, List, [], ◌∷◌, ◌++◌, ◌≡◌, ◌≢◌, ◌<◌, ◌≤◌, refl, arith, ltb}
use moodeng_sql.Prelude.Lists.{All, filter_by, IsPrefix, take, length}
use moodeng_sql.Types.Value.{Value}
use moodeng_sql.Wal.Defs.{WalOp, wal_sync_batch, checkpoint_state}
use moodeng_sql.Wal.Crc.{crc32}
use moodeng_sql.Wal.Codec.{Entry, replay_from_bytes}
use moodeng_sql.Wal.Codec.RoundTrip.{Fits, encode_all, replay-encode_all}
use moodeng_sql.Wal.Codec.Torn.{replay_cut_IsPrefix, framed}
use moodeng_sql.Error.{ok}
use moodeng_sql.Wal.Log.{WriteAheadLog, append, open_log, replay_since}
use moodeng_sql.Wal.Log.Reopen.{files_of, checkpointed, lost_after_checkpoint, append_behind_damage}
use moodeng_sql.Wal.Log.Runs.{append_all, BodyFits, numbered}
use moodeng_sql.Wal.Log.Appended.{Holds, CanAppend, append-Holds}
use moodeng_sql.Wal.Log.Crash.{Synced, replay_after_crash}
use moodeng_sql.Tests.Coder.{codecs}
use moodeng_sql.Tests.Stored.{alice, fresh_log}

abbrev pub entries : List (Entry (Value String))
entries = (1, WalOp.begin 1) ∷ (2, WalOp.insert 1 "users" 1 alice) ∷ (3, WalOp.commit 1) ∷ []

pub entries-Fits : All (Fits codecs.ops) entries
unfolding codecs
entries-Fits = (
  record { lsn_fits = omega arith; body_fits = omega arith },
  (
    record { lsn_fits = omega arith; body_fits = omega arith },
    (record { lsn_fits = omega arith; body_fits = omega arith }, tt),
  ),
)

-- A log with these records, none of them synced.
abbrev pub log : WriteAheadLog
log = record fresh_log {
  file = encode_all codecs.ops entries;
  lsn = 3;
  next_txn_id = 2;
  ops_since_checkpoint = 3;
  unsynced_writes = 3;
}

pub log-Holds : Holds codecs.ops log entries
log-Holds = record {
  bytes = refl;
  fits = entries-Fits;
  ascending = ((omega arith, (omega arith, tt)), ((omega arith, tt), (tt, tt)));
  bounded = (omega arith, (omega arith, (omega arith, tt)));
}

fresh-Synced : Synced codecs.ops fresh_log [] []
fresh-Synced = record {
  bytes = refl;
  synced = refl;
  count = refl;
  few = omega arith;
  durable_fits = tt;
  pending_fits = tt;
}

can_append : CanAppend codecs.ops log (WalOp.begin 2)
unfolding codecs
can_append = record { lsn_room = omega arith; body_room = omega arith }

append-Holds_example :
    ((append codecs.ops (WalOp.begin 2) log).0 ≡ 4)
    × Holds codecs.ops
        (append codecs.ops (WalOp.begin 2) log).1
        (entries ++ (4, WalOp.begin 2) ∷ [])
append-Holds_example = append-Holds codecs.ops log (WalOp.begin 2) entries log-Holds can_append

replay-encode_all_example :
    replay_from_bytes codecs.ops (encode_all codecs.ops entries) 1
    ≡ filter_by (λ e. ltb 1 e.0) entries
replay-encode_all_example = replay-encode_all codecs.ops 1 entries entries-Fits

replay_cut_IsPrefix_example :
    IsPrefix
      (replay_from_bytes codecs.ops (encode_all codecs.ops entries) 0)
      (replay_from_bytes codecs.ops (encode_all codecs.ops entries ++ 0 ∷ 1 ∷ []) 0)
replay_cut_IsPrefix_example =
    replay_cut_IsPrefix codecs.ops 0 (encode_all codecs.ops entries) (0 ∷ 1 ∷ [])

abbrev appended : List (WalOp (Value String))
appended = WalOp.begin 1 ∷ WalOp.insert 1 "users" 1 alice ∷ WalOp.commit 1 ∷ []

appended-BodyFits : All (BodyFits codecs.ops) appended
unfolding codecs
appended-BodyFits = (omega arith, (omega arith, (omega arith, tt)))

appended-unsynced : (append_all codecs.ops appended fresh_log).synced ≤ 40
unfolding append_all append
appended-unsynced = omega arith

replay_after_crash_example :
    let replayed =
      replay_from_bytes codecs.ops (take 40 (append_all codecs.ops appended fresh_log).file) 0 in
    (kept : List (Entry (Value String))) × (lost : List (Entry (Value String))) × (kept ++ lost
      ≡ [] ++ numbered 0 appended)
    × (length lost < wal_sync_batch)
    × IsPrefix (filter_by (λ e. ltb 0 e.0) kept) replayed
    × IsPrefix replayed (filter_by (λ e. ltb 0 e.0) ([] ++ numbered 0 appended))
replay_after_crash_example =
    replay_after_crash codecs.ops 0 40 appended fresh_log [] fresh-Synced appended-BodyFits
      (omega arith) appended-unsynced

encoded-full : codecs.states.serialize (checkpoint_state 3) ≢ []
unfolding codecs
encoded-full e = ground (arith, e)

lost_after_checkpoint_example :
    (w' : WriteAheadLog) × (open_log codecs.states (
        files_of
          (append_all codecs.ops (WalOp.begin 2 ∷ []) (checkpointed codecs.ops codecs.states log)))
      ≡ ok w')
    × (replay_since codecs.ops w'.checkpoint_lsn w' ≡ [])
lost_after_checkpoint_example =
    lost_after_checkpoint codecs.ops codecs.states log (WalOp.begin 2 ∷ []) encoded-full
      (can_append.body_room, tt) (omega arith) (omega arith)

abbrev damaged : WriteAheadLog
damaged = record fresh_log { file = framed codecs.ops 1 1 [] ++ [] }

crc32-nil : crc32 [] ≢ 1
unfolding crc32
crc32-nil e = ground (arith, e)

append_behind_damage_example :
    replay_since codecs.ops 0 (append codecs.ops (WalOp.begin 2) damaged).1 ≡ []
append_behind_damage_example =
    append_behind_damage codecs.ops 0 damaged (WalOp.begin 2) [] 1 1 [] [] tt (omega arith)
      (omega arith) crc32-nil refl
