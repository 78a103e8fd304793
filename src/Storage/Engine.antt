-- ===== src/Storage/Engine.antt =====
-- `StorageEngine` of moodeng-core/src/storage.rs with the default options (`max_cached_pages` is 0,
-- so that every table is in memory), and `checkpoint` of moodeng-core/src/recovery.rs, which it
-- calls. Its two locks are held by one thread at a time.
pub mod Checkpointed
pub mod Writes
pub mod Loaded
use moodeng_sql.Prelude.{
  ℕ, String, Bool, true, false, Option, none, some, List, [], ◌∷◌, map, ◌⊎◌, inl, inr, ◌==◌,
  if◌then◌else◌, suc_u64, string_key,
}
use moodeng_sql.Prelude.Map
use moodeng_sql.Prelude.Map.{Map}
use moodeng_sql.Prelude.Bytes.{Bytes}
use moodeng_sql.Error.{Result, ok, err, table_not_found, version_conflict, storage}
use moodeng_sql.Action.{Action, pure, raise, gets, modify, ok_or_raise, for_each, ◌>>=◌, ◌>>◌}
use moodeng_sql.Types.{Row}
use moodeng_sql.Wal.Defs.{WalOp, Bincode, CheckpointState}
use moodeng_sql.Wal.Log
use moodeng_sql.Wal.Log.{current_lsn, WriteAheadLog, should_checkpoint, mark_checkpoint, truncate}
use moodeng_sql.Storage.Table
use moodeng_sql.Storage.Table.{TableData}

-- bincode at the three types that the engine writes to disk
pub record Codecs (V : Type 0) : Type 0 where
  pub ops : Bincode (WalOp V)
  pub states : Bincode CheckpointState
  pub tables : Bincode (TableData V)

-- `dat` holds the contents of the files `{table}.dat`.
pub record StorageEngine (V : Type 0) : Type 0 where
  pub tables : Map String (TableData V)
  pub wal : WriteAheadLog
  pub dat : Map String Bytes

module _ {V : Type 0} where
  abbrev pub set_table : String → TableData V → StorageEngine V → StorageEngine V
  set_table table t e = record e { tables = Map.insert table t e.tables }

  abbrev pub table_names : Map String (TableData V) → List String
  table_names = map (λ entry. entry.0)

  unfoldable pub ensure_table : String → StorageEngine V → StorageEngine V
  ensure_table table e = set_table table (Map.or_insert table Table.empty e.tables) e

  unfoldable pub get : String → ℕ → StorageEngine V → Option (Row V)
  unfolding Table.get
  get table id e = elim (Map.lookup table e.tables) [ none ↦ none | some t ↦ Table.get id t ]

  unfoldable pub scan : String → StorageEngine V → List (ℕ × Row V)
  unfolding Table.scan
  scan table e = elim (Map.lookup table e.tables) [ none ↦ [] | some t ↦ Table.scan t ]

  abbrev pub fetch_rows : TableData V → List ℕ → List (ℕ × Row V)
  fetch_rows t [] = []
  fetch_rows t (id ∷ ids) = elim (Table.get id t) [
    | none ↦ fetch_rows t ids
    | some row ↦ (id, row) ∷ fetch_rows t ids
  ]

  unfoldable pub fetch_by_ids : String → List ℕ → StorageEngine V → Result (List (ℕ × Row V))
  unfolding Table.get
  fetch_by_ids table ids e = elim (Map.lookup table e.tables) [
    | none ↦ err (table_not_found table)
    | some t ↦ ok (fetch_rows t ids)
  ]

  abbrev pub the_table : String → Action (StorageEngine V) (TableData V)
  the_table table e = ok_or_raise (Map.lookup table e.tables) (table_not_found table) e

  -- The table and its file go; the log keeps its records.
  unfoldable pub drop_table : String → StorageEngine V → StorageEngine V
  drop_table table e = record e { tables = Map.remove table e.tables; dat = Map.remove table e.dat }

  unfoldable pub row_count : String → StorageEngine V → ℕ
  unfolding Table.row_count
  row_count table e = elim (Map.lookup table e.tables) [ none ↦ 0 | some t ↦ Table.row_count t ]

module _ {V : Type 0} (c : Codecs V) where
  unfoldable pub persist_table : String → Action (StorageEngine V) (Unit {0})
  persist_table table = do
    t ← (λ e. ok_or_raise (Map.lookup table e.tables) (table_not_found table) e)
    modify (λ e. record e { dat = Map.insert table (c.tables.serialize t) e.dat })

  unfoldable pub persist_if_there : String → Action (StorageEngine V) (Unit {0})
  unfolding persist_table
  persist_if_there table e =
      if Map.contains_key table e.tables then persist_table table e else pure tt e

  unfoldable pub checkpoint_all : Action (StorageEngine V) (Unit {0})
  unfolding for_each persist_if_there
  checkpoint_all e = for_each persist_if_there (table_names e.tables) e

  unfoldable pub checkpoint : Action (StorageEngine V) (Unit {0})
  unfolding mark_checkpoint truncate
  checkpoint = do
    checkpoint_all
    lsn ← gets (λ e. current_lsn e.wal)
    modify (λ e. record e { wal = mark_checkpoint c.states lsn e.wal })
    modify (λ e. record e { wal = truncate e.wal })

  unfoldable pub maybe_checkpoint : Action (StorageEngine V) (Unit {0})
  unfolding should_checkpoint
  maybe_checkpoint e = if should_checkpoint e.wal then checkpoint e else pure tt e

  -- `self.wal.append(op)?`, whose LSN no caller uses
  abbrev pub log_op : WalOp V → StorageEngine V → StorageEngine V
  log_op op e = record e { wal = (Log.append c.ops op e.wal).1 }

  unfoldable pub insert : String → Row V → ℕ → Action (StorageEngine V) ℕ
  unfolding Table.insert
  insert table row txn_id = do
    (id, t) ← gets (λ e. Table.insert row (Map.or_insert table Table.empty e.tables))
    modify (set_table table t)
    modify (log_op (WalOp.insert txn_id table id row))
    maybe_checkpoint
    pure id

  unfoldable pub apply_insert : String → ℕ → Row V → Bool → ℕ → Action (StorageEngine V) (Unit {0})
  unfolding Table.apply_insert
  apply_insert table row_id row logged txn_id = do
    t ← gets (λ e. Table.apply_insert row_id row (Map.or_insert table Table.empty e.tables))
    modify (set_table table t)
    (if logged
        then (do modify (log_op (WalOp.insert txn_id table row_id row)); maybe_checkpoint)
        else pure tt)

  -- The row is stored under the next version, if the version is the one that was expected.
  unfoldable pub update : String → ℕ → Row V → ℕ → ℕ → Action (StorageEngine V) Bool
  unfolding Table.get Table.update
  update table id row txn_id expected_version = do
    t ← the_table table
    elim (Table.get id t) [
      | none ↦ pure false
      | some existing ↦
          if existing.version == expected_version
          then (let new_row = record row { version = suc_u64 expected_version } in
              do
                modify (set_table table (Table.update id new_row t).1)
                modify (log_op (WalOp.update txn_id table id new_row))
                maybe_checkpoint
                pure true)
          else raise (version_conflict table id)
    ]

  -- The row is stored under the version behind that of the row in the table.
  unfoldable pub apply_update : String → ℕ → Row V → Bool → ℕ → Action (StorageEngine V) Bool
  unfolding Table.get Table.update
  apply_update table id row logged txn_id = do
    t ← the_table table
    elim (Table.get id t) [
      | none ↦ pure false
      | some existing ↦
          let new_row = record row { version = suc_u64 existing.version } in
          do
            modify (set_table table (Table.update id new_row t).1)
            (if logged
                then (do modify (log_op (WalOp.update txn_id table id new_row)); maybe_checkpoint)
                else pure tt)
            pure true
    ]

  unfoldable pub delete : String → ℕ → ℕ → Action (StorageEngine V) Bool
  unfolding Table.delete
  delete table id txn_id = do
    t ← the_table table
    let (deleted, t') = Table.delete id t
    modify (set_table table t')
    (if deleted
        then (do modify (log_op (WalOp.delete txn_id table id)); maybe_checkpoint; pure true)
        else pure false)

  unfoldable pub apply_delete : String → ℕ → Bool → ℕ → Action (StorageEngine V) Bool
  unfolding Table.delete
  apply_delete table id logged txn_id = do
    t ← the_table table
    let (deleted, t') = Table.delete id t
    modify (set_table table t')
    (if deleted
        then (if logged
            then (do modify (log_op (WalOp.delete txn_id table id)); maybe_checkpoint)
            else pure tt)
        else pure tt)
    pure deleted
