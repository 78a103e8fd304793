-- ===== src/Executor/Statements.antt =====
-- INSERT, UPDATE and DELETE as a whole, of moodeng-core/src/executor.rs.
use Prim.Native.String.{◌++◌ as concat_text}
use moodeng_sql.Prelude.{ℕ, String, Option, none, some, List, [], ◌∷◌, map, if◌then◌else◌, suc_u64}
use moodeng_sql.Prelude.Text.{to_decimal}
use moodeng_sql.Error.{ok, err}
use moodeng_sql.Action.{Action, modify, pure, gets, ◌>>=◌, ◌>>◌}
use moodeng_sql.Types.{Row}
use moodeng_sql.Types.Value.{Value, Casts, QueryResult, modified}
use moodeng_sql.Storage.Engine as Storage
use moodeng_sql.Storage.Engine.{Codecs}
use moodeng_sql.Catalog.{TableSchema, get_table}
use moodeng_sql.Transaction.{UndoRecord}
use moodeng_sql.Transaction.Session.{begin_write_txn, finish_auto_commit_if_needed}
use moodeng_sql.Parser.Ast.{Expr, Assignment, OnConflict, OnConflictAction}
use moodeng_sql.Parser.Eval.{Machine}
use moodeng_sql.Executor.{
  Executor, on_database, on_session, try, note_undo, validate_row, coerce_values,
}
use moodeng_sql.Executor.Writes.{
  store_row, change_row, drop_row, find_conflict_row, apply_conflict_update, passes,
}

module _ {J : Type 0} (json_to_string : J → String) (c : Codecs (Value J)) (m : Machine)
    (casts : Casts) where
  -- The schema of a table, with the names of its columns.
  abbrev pub schema_of : String → Action (Executor (Value J)) (TableSchema × List String)
  unfolding get_table
  schema_of table e = elim (get_table table e.database.catalog) [
    | err x ↦ (err x, e)
    | ok schema ↦ (ok (schema, map (λ c. c.name) schema.columns), e)
  ]

  -- A row that conflicts with none.
  unfoldable pub insert_new :
      String → List String → List (Value J) → ℕ → Action (Executor (Value J)) (Unit {0})
  unfolding store_row
  insert_new table col_names row_values txn_id = do
    row_id ← on_database (store_row json_to_string c m casts table col_names row_values txn_id)
    modify (note_undo (UndoRecord.insert table row_id))

  -- `for values in rows`, with the count of the rows that were written.
  unfoldable pub insert_rows :
      TableSchema
      → String
      → List String
      → Option OnConflict
      → ℕ
      → List (List (Value J))
      → ℕ
      → Action (Executor (Value J)) ℕ
  unfolding insert_new find_conflict_row apply_conflict_update
  insert_rows schema table col_names on_conflict txn_id [] count = pure count
  insert_rows schema table col_names on_conflict txn_id (values ∷ rows) count = do
    row_values ← try (coerce_values casts 0 schema.columns values)
    try (validate_row schema row_values)
    existing ←
        (elim on_conflict as (λ _. Action (Executor (Value J)) (Option (OnConflictAction × ℕ))) [
          | none ↦ pure none
          | some conflict ↦ (do
            found ← on_database (
                find_conflict_row json_to_string c m casts schema table conflict col_names
                  row_values)
            pure (elim found [ none ↦ none | some id ↦ some (conflict.action, id) ]))
        ])
    elim existing [
      | none ↦ (do
        insert_new table col_names row_values txn_id
        insert_rows schema table col_names on_conflict txn_id rows (suc_u64 count))
      | some (OnConflictAction.do_nothing, id) ↦
          insert_rows schema table col_names on_conflict txn_id rows count
      | some (OnConflictAction.do_update assignments selection, id) ↦ (do
        apply_conflict_update json_to_string c m casts schema table col_names id row_values
            assignments selection txn_id
        insert_rows schema table col_names on_conflict txn_id rows (suc_u64 count))
    ]

  -- INSERT of the rows that the parser gives.
  unfoldable pub insert :
      String
      → List (List (Value J))
      → Option OnConflict
      → Action (Executor (Value J)) (QueryResult (Value J))
  unfolding insert_rows begin_write_txn finish_auto_commit_if_needed
  insert table rows on_conflict = do
    (schema, col_names) ← schema_of table
    txn_id ← on_session (begin_write_txn c.ops)
    count ← insert_rows schema table col_names on_conflict txn_id rows 0
    on_session (finish_auto_commit_if_needed c.ops)
    pure (modified count (concat_text "INSERT 0 " (to_decimal count)))

  -- `for (id, mut row) in all_rows` of an UPDATE.
  unfoldable pub update_rows :
      TableSchema
      → String
      → List String
      → List Assignment
      → Option Expr
      → ℕ
      → List (ℕ × Row (Value J))
      → ℕ
      → Action (Executor (Value J)) ℕ
  unfolding change_row
  update_rows schema table col_names assignments where_clause txn_id [] count = pure count
  update_rows schema table col_names assignments where_clause txn_id ((id, row) ∷ rows) count = do
    should_update ← try (passes json_to_string c m casts where_clause row.values col_names none)
    (if should_update
        then (do
          modify (note_undo (UndoRecord.update table id row))
          on_database (
              change_row json_to_string c m casts schema table col_names assignments none id row
                txn_id)
          update_rows schema table col_names assignments where_clause txn_id rows (suc_u64 count))
        else update_rows schema table col_names assignments where_clause txn_id rows count)

  unfoldable pub update :
      String → List Assignment → Option Expr → Action (Executor (Value J)) (QueryResult (Value J))
  unfolding update_rows begin_write_txn finish_auto_commit_if_needed
  update table assignments where_clause = do
    (schema, col_names) ← schema_of table
    all_rows ← gets (λ e. Storage.scan table e.database.storage)
    txn_id ← on_session (begin_write_txn c.ops)
    count ← update_rows schema table col_names assignments where_clause txn_id all_rows 0
    on_session (finish_auto_commit_if_needed c.ops)
    pure (modified count (concat_text "UPDATE " (to_decimal count)))

  unfoldable pub delete_rows :
      String
      → List String
      → Option Expr
      → ℕ
      → List (ℕ × Row (Value J))
      → ℕ
      → Action (Executor (Value J)) ℕ
  unfolding drop_row
  delete_rows table col_names where_clause txn_id [] count = pure count
  delete_rows table col_names where_clause txn_id ((id, row) ∷ rows) count = do
    should_delete ← try (passes json_to_string c m casts where_clause row.values col_names none)
    (if should_delete
        then (do
          modify (note_undo (UndoRecord.delete table id row))
          on_database (drop_row json_to_string c m casts table col_names id row txn_id)
          delete_rows table col_names where_clause txn_id rows (suc_u64 count))
        else delete_rows table col_names where_clause txn_id rows count)

  unfoldable pub delete : String → Option Expr → Action (Executor (Value J)) (QueryResult (Value J))
  unfolding delete_rows begin_write_txn finish_auto_commit_if_needed
  delete table where_clause = do
    (schema, col_names) ← schema_of table
    all_rows ← gets (λ e. Storage.scan table e.database.storage)
    txn_id ← on_session (begin_write_txn c.ops)
    count ← delete_rows table col_names where_clause txn_id all_rows 0
    on_session (finish_auto_commit_if_needed c.ops)
    pure (modified count (concat_text "DELETE " (to_decimal count)))
