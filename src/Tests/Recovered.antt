-- ===== src/Tests/Recovered.antt =====
-- The recovery theorems at a small log.
use moodeng_sql.Prelude.{
  ℕ, String, Bool, true, false, Option, none, some, List, [], ◌∷◌, ◌++◌, map, ◌≡◌, ◌≢◌, ◌<◌, refl,
  arith,
}
use moodeng_sql.Prelude.Lists.{filter_by, length}
use moodeng_sql.Error.{ok}
use moodeng_sql.Types.Value.{Value}
use moodeng_sql.Wal.Defs.{WalOp}
use moodeng_sql.Wal.Codec.{Entry}
use moodeng_sql.Wal.Codec.RoundTrip.{encode_all}
use moodeng_sql.Wal.Log.Appended.{Holds}
use moodeng_sql.Wal.Log.Runs.{numbered}
use moodeng_sql.Storage.Engine.{StorageEngine}
use moodeng_sql.Recovery.{to_apply, apply_all, replay_wal}
use moodeng_sql.Recovery.Selected.{is_durable, to_apply-is_durable}
use moodeng_sql.Recovery.Redone.{Write}
use moodeng_sql.Recovery.Redone.Log.{perform_all, logged_all}
use moodeng_sql.Recovery.Redone.Run.{CanRun, apply_all-perform_all}
use moodeng_sql.Recovery.Replayed.{replay_wal-rebuilds}
use moodeng_sql.Tests.Coder.{codecs}
use moodeng_sql.Tests.Stored.{alice, bob, fresh_log}

abbrev before : StorageEngine (Value String)
before = record { tables = []; wal = fresh_log; dat = [] }

before-Holds : Holds codecs.ops before.wal []
before-Holds = record { bytes = refl; fits = tt; ascending = tt; bounded = tt }

-- Two statements, each in a transaction of its own.
abbrev writes : List (ℕ × Write (Value String))
writes = (1, Write.insert "users" alice) ∷ (2, Write.insert "users" bob) ∷ []

writes-CanRun : CanRun codecs writes before
unfolding codecs moodeng_sql.Prelude.Map.lookup
writes-CanRun = record {
  early = omega arith;
  bodies = (omega arith, (omega arith, tt));
  lsns = omega arith;
}

-- Their log, and a third transaction with no Commit.
abbrev left : List (Entry (Value String))
left =
    (1, WalOp.begin 1)
    ∷ (2, WalOp.insert 1 "users" 1 alice)
    ∷ (3, WalOp.commit 1)
    ∷ (4, WalOp.begin 2)
    ∷ (5, WalOp.insert 2 "users" 2 bob)
    ∷ (6, WalOp.begin 3)
    ∷ (7, WalOp.insert 3 "users" 3 alice)
    ∷ (8, WalOp.commit 2)
    ∷ []

abbrev crashed : StorageEngine (Value String)
crashed = record before { wal = record fresh_log { file = encode_all codecs.ops left; lsn = 8 } }

crashed-Holds : Holds codecs.ops crashed.wal left
unfolding codecs
crashed-Holds = record {
  bytes = refl;
  fits = (
    record { lsn_fits = omega arith; body_fits = omega arith },
    (
      record { lsn_fits = omega arith; body_fits = omega arith },
      (
        record { lsn_fits = omega arith; body_fits = omega arith },
        (
          record { lsn_fits = omega arith; body_fits = omega arith },
          (
            record { lsn_fits = omega arith; body_fits = omega arith },
            (
              record { lsn_fits = omega arith; body_fits = omega arith },
              (
                record { lsn_fits = omega arith; body_fits = omega arith },
                (record { lsn_fits = omega arith; body_fits = omega arith }, tt),
              ),
            ),
          ),
        ),
      ),
    ),
  );
  ascending = ground arith;
  bounded = ground arith;
}

to_apply-is_durable_example : to_apply left ≡ filter_by (is_durable left) left
to_apply-is_durable_example = to_apply-is_durable left crashed-Holds.ascending

logged-there :
    map (λ entry. entry.1) (filter_by (is_durable left) left) ≡ logged_all codecs writes before
unfolding moodeng_sql.Prelude.Map.lookup moodeng_sql.Storage.Engine.insert
    moodeng_sql.Storage.Engine.maybe_checkpoint moodeng_sql.Wal.Log.append
    moodeng_sql.Prelude.Map.insert moodeng_sql.Prelude.String_discrete
logged-there = refl

apply_all-perform_all_example :
    (new : List (Entry (Value String))) × Holds codecs.ops
      (perform_all codecs writes before).wal
      ([] ++ new)
    × ((apply_all codecs new crashed).0 ≡ ok tt)
    × ((apply_all codecs new crashed).1.tables ≡ (perform_all codecs writes before).tables)
apply_all-perform_all_example =
    apply_all-perform_all codecs writes before crashed [] before-Holds writes-CanRun refl

replay_wal-rebuilds_example :
    Holds codecs.ops
      (perform_all codecs writes before).wal
      ([] ++ numbered 0 (logged_all codecs writes before))
    × ((replay_wal codecs crashed).0 ≡ ok (length (filter_by (is_durable left) left)))
    × ((replay_wal codecs crashed).1.tables ≡ (perform_all codecs writes before).tables)
replay_wal-rebuilds_example =
    replay_wal-rebuilds codecs writes before crashed [] left before-Holds writes-CanRun
      crashed-Holds (ground arith) logged-there refl
