-- ===== src/Recovery/Replayed.antt =====
-- What `replay_wal` of moodeng-core/src/recovery.rs leaves in the tables.
use moodeng_sql.Prelude.{ℕ, true, List, ◌++◌, map, ◌≡◌, ◌<◌, string_key, arith, ltb}
use moodeng_sql.Prelude.Lists.{length, filter_by, filter_by-true, All, All-weaken}
use moodeng_sql.Error.{ok}
use moodeng_sql.Wal.Codec.{Entry}
use moodeng_sql.Wal.Log.{replay_since}
use moodeng_sql.Wal.Log.Appended.{Holds, replay_since-Holds}
use moodeng_sql.Storage.Engine.{Codecs, StorageEngine}
use moodeng_sql.Recovery.{to_apply, replay_wal}
use moodeng_sql.Recovery.Selected.{is_durable, to_apply-is_durable}
use moodeng_sql.Recovery.Redone.{Write}
use moodeng_sql.Wal.Log.Runs.{numbered}
use moodeng_sql.Recovery.Redone.Log.{perform_all, logged_all}
use moodeng_sql.Recovery.Redone.Run.{CanRun, apply_all-logged_all, perform_all-Holds}

module _ {V : Type 0} (c : Codecs V) where
  to_apply-replay_since :
      (e : StorageEngine V) (es : List (Entry V))
      → Holds c.ops e.wal es
      → All (λ entry. e.wal.checkpoint_lsn < entry.0) es
      → to_apply (replay_since c.ops e.wal.checkpoint_lsn e.wal) ≡ filter_by (is_durable es) es
  to_apply-replay_since e es h late =
      rw
        (
          replay_since-Holds c.ops e.wal.checkpoint_lsn e.wal es h,
          filter_by-true (λ entry. ltb e.wal.checkpoint_lsn entry.0) es
              (All-weaken (λ entry. e.wal.checkpoint_lsn < entry.0)
                (λ entry. ltb e.wal.checkpoint_lsn entry.0 ≡ true) es (λ entry lt. ground arith)
                late),
        )
        (to_apply-is_durable es h.ascending)

  -- A run of writes, each under its own transaction number, leaves records behind those of its
  -- log, if no checkpoint falls in it and its records fit their fields. A log of whole records with
  -- LSNs above the checkpoint's, whose committed writes, in their order, are these: its replay on
  -- the tables that the run began with succeeds, counts them, and gives the tables that the run
  -- left. Writes of transactions with no Commit behind them leave nothing.
  pub replay_wal-rebuilds :
      (ws : List (ℕ × Write V)) (before e : StorageEngine V) (es0 es : List (Entry V))
      → Holds c.ops before.wal es0
      → CanRun c ws before
      → Holds c.ops e.wal es
      → All (λ entry. e.wal.checkpoint_lsn < entry.0) es
      → map (λ entry. entry.1) (filter_by (is_durable es) es) ≡ logged_all c ws before
      → e.tables ≡ before.tables
      → Holds c.ops
          (perform_all c ws before).wal
          (es0 ++ numbered before.wal.lsn (logged_all c ws before))
        × ((replay_wal c e).0 ≡ ok (length (filter_by (is_durable es) es)))
        × ((replay_wal c e).1.tables ≡ (perform_all c ws before).tables)
  unfolding replay_wal
  replay_wal-rebuilds ws before e es0 es h0 can h late shape start =
      let (done, tables) =
        apply_all-logged_all c ws before e (filter_by (is_durable es) es) shape start in
      let selected = to_apply-replay_since e es h late in
      (
        perform_all-Holds c ws before es0 h0 can,
        rw selected (ground (arith, done)),
        rw selected (ground (arith, done, tables)),
      )
