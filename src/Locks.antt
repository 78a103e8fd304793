-- ===== src/Locks.antt =====
-- moodeng-core/src/lock.rs: the row locks, as the steps that threads take in turn. A step that has
-- to wait, or that the thread does not come to, is none.
pub mod Sound
pub mod Exclusive
pub mod Runs
use native.Mathlib.Decide.{ℕ_discrete}
use moodeng_sql.Prelude.{
  ℕ, suc, String, Bool, true, false, not, ◌&&◌, ◌==◌, ◌+◌, Option, none, some, List, [], ◌∷◌,
  if◌then◌else◌, nat_key, string_key, Key, String_discrete,
}
use moodeng_sql.Prelude.Map
use moodeng_sql.Prelude.Map.{Map}
use moodeng_sql.Prelude.Lists.{length, any}

-- A row of a table.
pub data RowKey : Type 0 where
  row : (table : String) → (row_id : ℕ) → RowKey

unfoldable pub RowKey-discrete : Discrete RowKey
RowKey-discrete = hlevel (ℕ_discrete, String_discrete)

instance abbrev pub row_key : Key RowKey
row_key = record { dec = RowKey-discrete }

-- What a thread has: a handle; a guard on the handle's lock; a guard in its `drop`, which is about
-- to remove the entry; a guard in its `drop`, which is about to give the lock back; or a handle
-- whose guard is gone.
pub data Phase : Type 0 where
  handled writing removing releasing released : (key : RowKey) → (lock : ℕ) → Phase

-- `next` is the number of the next `Arc::new(RwLock::new(()))`. A thread that is in no phase has no
-- entry.
pub record LockManager : Type 0 where
  pub ddl_locks : Map String ℕ
  pub row_locks : Map RowKey ℕ
  pub next : ℕ
  pub threads : Map ℕ Phase

abbrev pub new : LockManager
new = record { ddl_locks = []; row_locks = []; next = 0; threads = [] }

unfoldable pub row_locks_len : LockManager → ℕ
row_locks_len s = length s.row_locks

abbrev pub lock_of : Phase → ℕ
lock_of (Phase.handled key lock) = lock
lock_of (Phase.writing key lock) = lock
lock_of (Phase.removing key lock) = lock
lock_of (Phase.releasing key lock) = lock
lock_of (Phase.released key lock) = lock

abbrev pub is_held : Phase → Bool
is_held (Phase.writing key lock) = true
is_held (Phase.removing key lock) = true
is_held (Phase.releasing key lock) = true
is_held p = false

-- The handles of a lock, each of which has an `Arc` of it.
unfoldable pub handles : ℕ → Map ℕ Phase → ℕ
handles lock [] = 0
handles lock ((i, p) ∷ threads) =
    let rest = handles lock threads in if lock_of p == lock then suc rest else rest

-- Whether the map has an `Arc` of the lock, under its key.
abbrev pub in_map : RowKey → ℕ → LockManager → ℕ
in_map key lock s = elim (Map.lookup key s.row_locks) as (λ _. ℕ) [
  | none ↦ 0
  | some other ↦ if other == lock then 1 else 0
]

unfoldable pub strong_count : RowKey → ℕ → LockManager → ℕ
unfolding handles
strong_count key lock s = in_map key lock s + handles lock s.threads

abbrev pub is_locked : ℕ → Map ℕ Phase → Bool
is_locked lock threads = any (λ e. is_held e.1 && lock_of e.1 == lock) threads

abbrev pub enter : ℕ → Phase → LockManager → LockManager
enter i p s = record s { threads = Map.insert i p s.threads }

unfoldable pub ddl_lock_for : String → LockManager → ℕ × LockManager
ddl_lock_for table s = elim (Map.lookup table s.ddl_locks) [
  | some lock ↦ (lock, s)
  | none ↦ (s.next, record s { ddl_locks = Map.insert table s.next s.ddl_locks; next = suc s.next })
]

unfoldable pub row_lock : ℕ → RowKey → LockManager → LockManager
row_lock i key s = elim (Map.lookup key s.row_locks) [
  | some lock ↦ enter i (Phase.handled key lock) s
  | none ↦
      enter i (Phase.handled key s.next)
        (record s { row_locks = Map.insert key s.next s.row_locks; next = suc s.next })
]

-- The steps of a thread. `checks` and `removes` are the two halves of `drop`; then the fields of the
-- guard are dropped, and last the handle.
pub data Event : Type 0 where
  asks : (thread : ℕ) → (key : RowKey) → Event
  writes checks removes releases drops : (thread : ℕ) → Event

unfoldable pub write : ℕ → Phase → LockManager → Option LockManager
write i (Phase.handled key lock) s =
    if is_locked lock s.threads then none else some (enter i (Phase.writing key lock) s)
write i p s = none

unfoldable pub check : ℕ → Phase → LockManager → Option LockManager
unfolding strong_count
check i (Phase.writing key lock) s = some (
    enter i
      (if strong_count key lock s == 2 then Phase.removing key lock else Phase.releasing key lock)
      s)
check i p s = none

unfoldable pub remove : ℕ → Phase → LockManager → Option LockManager
remove i (Phase.removing key lock) s =
    some (enter i (Phase.releasing key lock) (record s { row_locks = Map.remove key s.row_locks }))
remove i p s = none

unfoldable pub release : ℕ → Phase → LockManager → Option LockManager
release i (Phase.releasing key lock) s = some (enter i (Phase.released key lock) s)
release i p s = none

unfoldable pub drop_handle : ℕ → Phase → LockManager → Option LockManager
drop_handle i (Phase.released key lock) s = some (record s { threads = Map.remove i s.threads })
drop_handle i p s = none

abbrev pub in_phase :
    ℕ → (ℕ → Phase → LockManager → Option LockManager) → LockManager → Option LockManager
in_phase i f s = elim (Map.lookup i s.threads) [ none ↦ none | some p ↦ f i p s ]

-- A thread asks for a row lock when it has none.
unfoldable pub step : Event → LockManager → Option LockManager
unfolding row_lock write check remove release drop_handle
step (Event.asks i key) s = elim (Map.lookup i s.threads) [
  | none ↦ some (row_lock i key s)
  | some _ ↦ none
]
step (Event.writes i) s = in_phase i write s
step (Event.checks i) s = in_phase i check s
step (Event.removes i) s = in_phase i remove s
step (Event.releases i) s = in_phase i release s
step (Event.drops i) s = in_phase i drop_handle s

unfoldable pub run : List Event → LockManager → Option LockManager
unfolding step
run [] s = some s
run (e ∷ events) s = elim (step e s) [ none ↦ none | some s' ↦ run events s' ]
