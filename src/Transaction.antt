-- ===== src/Transaction.antt =====
-- moodeng-core/src/transaction.rs: a session's transaction, and how a rollback undoes its writes.
pub mod Laws
pub mod Undone
pub mod Session
use moodeng_sql.Prelude.{
  ℕ, String, Bool, true, false, Option, none, some, List, [], ◌∷◌, ◌++◌, map, if◌then◌else◌,
  string_key,
}
use mathlib.Core.List.{reverse}
use moodeng_sql.Prelude.Map
use moodeng_sql.Error.{Result, ok, err, execution}
use moodeng_sql.Action.{Action, pure, raise, ok_or_raise, gets, modify, for_each, ◌>>=◌, ◌>>◌}
use moodeng_sql.Types.{Row}
use moodeng_sql.Types.Value.{Value}
use moodeng_sql.Wal.Defs.{WalOp, Bincode}
use moodeng_sql.Wal.Log
use moodeng_sql.Wal.Log.{WriteAheadLog, alloc_txn_id}
use moodeng_sql.Storage.Engine.{
  Codecs, StorageEngine, get, apply_insert, apply_update, apply_delete,
}
use moodeng_sql.Index.{IndexManager, insert_row, remove_row}
use moodeng_sql.Catalog.{Catalog, get_table}

pub data UndoRecord (V : Type 0) : Type 0 where
  insert : (table : String) (row_id : ℕ) → UndoRecord V
  update : (table : String) (row_id : ℕ) (old_row : Row V) → UndoRecord V
  delete : (table : String) (row_id : ℕ) (old_row : Row V) → UndoRecord V

pub record Transaction (V : Type 0) : Type 0 where
  pub active : Bool
  pub txn_id : Option ℕ
  pub undo : List (UndoRecord V)

abbrev pub is_active : {V : Type 0} → Transaction V → Bool
is_active txn = txn.active

abbrev pub current_txn_id : {V : Type 0} → Transaction V → Option ℕ
current_txn_id txn = txn.txn_id

-- A transaction with the log that it writes to.
pub record Logged (V : Type 0) : Type 0 where
  pub txn : Transaction V
  pub wal : WriteAheadLog

abbrev pub new : {V : Type 0} → Transaction V
new = record { active = false; txn_id = none; undo = [] }

module _ {V : Type 0} (b : Bincode (WalOp V)) where
  -- `wal.append(op)?`
  abbrev pub log_op : WalOp V → Logged V → Logged V
  log_op op s = record s { wal = (Log.append b op s.wal).1 }

  unfoldable pub begin : Action (Logged V) (Unit {0})
  unfolding alloc_txn_id
  begin s =
      if s.txn.active
      then raise (execution "transaction already active") s
      else (let (txn_id, wal) = alloc_txn_id s.wal in
          (
            ok tt,
            record (log_op (WalOp.begin txn_id) (record s { wal = wal })) {
              txn = record { active = true; txn_id = some txn_id; undo = [] };
            },
          ))

  unfoldable pub commit : Action (Logged V) (Unit {0})
  commit s = elim s.txn.txn_id [
    | none ↦ raise (execution "no active transaction") s
    | some txn_id ↦ (
      ok tt,
      record (log_op (WalOp.commit txn_id) s) {
        txn = record { active = false; txn_id = none; undo = [] };
      },
    )
  ]

  -- The result are the undo records, the last one first.
  unfoldable pub rollback : Action (Logged V) (List (UndoRecord V))
  rollback s = elim s.txn.txn_id [
    | none ↦ raise (execution "no active transaction") s
    | some txn_id ↦ (
      ok (reverse s.txn.undo),
      record (log_op (WalOp.abort txn_id) s) {
        txn = record { active = false; txn_id = none; undo = [] };
      },
    )
  ]

unfoldable pub note : {V : Type 0} → UndoRecord V → Transaction V → Transaction V
note entry txn = if txn.active then record txn { undo = txn.undo ++ entry ∷ [] } else txn

-- What an undo works on.
pub record Database (V : Type 0) : Type 0 where
  pub storage : StorageEngine V
  pub indexes : IndexManager
  pub catalog : Catalog

module _ {V : Type 0} where
  -- `catalog.get_table(table)?.columns.iter().map(|c| c.name.clone()).collect()`
  abbrev pub col_names : String → Action (Database V) (List String)
  unfolding get_table
  col_names table d = elim (get_table table d.catalog) [
    | ok schema ↦ (ok (map (λ c. c.name) schema.columns), d)
    | err e ↦ (err e, d)
  ]

  -- A call of the storage, and one of the indexes.
  abbrev pub on_storage : {A : Type 0} → Action (StorageEngine V) A → Action (Database V) A
  on_storage m d = let (r, s) = m d.storage in (r, record d { storage = s })

  abbrev pub on_indexes : {A : Type 0} → Action IndexManager A → Action (Database V) A
  on_indexes m d = let (r, s) = m d.indexes in (r, record d { indexes = s })

module _ {J : Type 0} (json_to_string : J → String) (c : Codecs (Value J)) where
  -- The undo of an insert whose row is still there.
  unfoldable pub apply_undo_insert :
      String → ℕ → Row (Value J) → Action (Database (Value J)) (Unit {0})
  unfolding apply_delete remove_row
  apply_undo_insert table row_id row = do
    names ← col_names table
    modify (λ d. record d {
      indexes = remove_row json_to_string table row.values names row_id d.indexes;
    })
    on_storage (apply_delete c table row_id false 0)
    pure tt

  unfoldable pub apply_undo : UndoRecord (Value J) → Action (Database (Value J)) (Unit {0})
  unfolding get apply_insert apply_update insert_row remove_row apply_undo_insert
  apply_undo (UndoRecord.insert table row_id) = λ d. elim (get table row_id d.storage) [
    | none ↦ (ok tt, d)
    | some row ↦ apply_undo_insert table row_id row d
  ]
  apply_undo (UndoRecord.update table row_id old_row) = do
    names ← col_names table
    modify (λ d. elim (get table row_id d.storage) [
      | none ↦ d
      | some current ↦ record d {
        indexes = remove_row json_to_string table current.values names row_id d.indexes;
      }
    ])
    on_storage (apply_update c table row_id old_row false 0)
    on_indexes (insert_row json_to_string table old_row.values names row_id)
  apply_undo (UndoRecord.delete table row_id old_row) = do
    names ← col_names table
    on_storage (apply_insert c table row_id old_row false 0)
    on_indexes (insert_row json_to_string table old_row.values names row_id)

  -- `for record in records { apply_undo(..., &record)?; }`
  unfoldable pub apply_undo_all :
      List (UndoRecord (Value J)) → Action (Database (Value J)) (Unit {0})
  unfolding for_each apply_undo
  apply_undo_all = for_each apply_undo
