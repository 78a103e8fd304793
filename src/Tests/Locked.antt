-- ===== src/Tests/Locked.antt =====
-- The theorem on row locks at a run of two threads, and a run of three in which two of them write
-- to one row.
use moodeng_sql.Prelude.{ℕ, some, List, String_discrete, [], ◌∷◌, ◌≡◌, refl, arith, nat_key}
use moodeng_sql.Prelude.Map
use moodeng_sql.Locks
use moodeng_sql.Locks.{
  LockManager, Phase, RowKey, Event, new, step, run, strong_count, handles, enter, row_key,
}
use moodeng_sql.Locks.Sound.{AreCalm}
use moodeng_sql.Locks.Runs.{one_writer}

abbrev first : RowKey
first = RowKey.row "t" 1

abbrev events : List Event
events = Event.asks 1 first ∷ Event.writes 1 ∷ []

abbrev held : LockManager
held = record {
  ddl_locks = [];
  row_locks = (first, 0) ∷ [];
  next = 1;
  threads = (1, Phase.writing first 0) ∷ [];
}

events-AreCalm : AreCalm events new
unfolding native.Mathlib.Decide.ℕ_discrete Locks.RowKey-discrete step Map.lookup Locks.row_lock
    Locks.write Map.insert
events-AreCalm = (λ j p e. absurd (ground (arith, e)), (tt, tt))

events-run : run events new ≡ some held
unfolding native.Mathlib.Decide.ℕ_discrete String_discrete Locks.RowKey-discrete run step Map.lookup
    Locks.row_lock Locks.write Map.insert
events-run = refl

thread_writes : Map.lookup 1 held.threads ≡ some (Phase.writing first 0)
unfolding Map.insert
thread_writes = Map.lookup-insert_self 1 (Phase.writing first 0) []

one_writer_example : Path ℕ 1 1
one_writer_example =
    one_writer events held 1 1 first 0 0 events-AreCalm events-run thread_writes thread_writes

-- Thread 2 asks for the lock after thread 1 has counted its handles and before it removes the
-- entry; thread 3 then gets another lock for the row.
abbrev race : List Event
race =
    Event.asks 1 first
    ∷ Event.writes 1
    ∷ Event.checks 1
    ∷ Event.asks 2 first
    ∷ Event.removes 1
    ∷ Event.releases 1
    ∷ Event.drops 1
    ∷ Event.asks 3 first
    ∷ Event.writes 2
    ∷ Event.writes 3
    ∷ []

abbrev both : LockManager
both = record {
  ddl_locks = [];
  row_locks = (first, 1) ∷ [];
  next = 2;
  threads = (2, Phase.writing first 0) ∷ (3, Phase.writing first 1) ∷ [];
}

race-run : run race new ≡ some both
unfolding native.Mathlib.Decide.ℕ_discrete String_discrete Locks.RowKey-discrete run step Map.lookup
    Locks.row_lock Locks.write Locks.check Locks.remove Locks.release Locks.drop_handle Map.insert
    Map.remove strong_count handles
race-run = refl
