-- ===== src/Executor/Writes.antt =====
-- The statements that change rows, of moodeng-core/src/executor.rs.
use Prim.Native.String.{◌++◌ as concat_text}
use moodeng_sql.Prelude.{
  ℕ, String, Bool, true, Option, none, some, List, [], ◌∷◌, map, if◌then◌else◌,
}
use moodeng_sql.Prelude.Lists.{get_elem?, set}
use moodeng_sql.Error.{Result, ok, err, execution}
use moodeng_sql.Action.{Action, modify, pure, gets, ok_or_raise, ◌>>=◌, ◌>>◌}
use moodeng_sql.Types
use moodeng_sql.Types.{Row}
use moodeng_sql.Types.Value.{Value, Casts, coerce_to}
use moodeng_sql.Storage.Engine as Storage
use moodeng_sql.Storage.Engine.{Codecs, scan}
use moodeng_sql.Index.{insert_row, remove_row, column_value, lookup_ids, key_of}
use moodeng_sql.Catalog.{TableSchema, column_index}
use moodeng_sql.Transaction.{Database, UndoRecord, on_storage, on_indexes}
use moodeng_sql.Parser.Ast.{Expr, Assignment, OnConflict}
use moodeng_sql.Parser.Eval.{Machine, eval_where_with_excluded}
use moodeng_sql.Parser.Assigned.{assignment_value_with_excluded}
use moodeng_sql.Executor.{
  Executor, on_database, try, note_undo, validate_row, resolve_conflict_columns, find_unique_index,
  join,
}

module _ {J : Type 0} (json_to_string : J → String) (c : Codecs (Value J)) (m : Machine)
    (casts : Casts) where
  -- A row of an INSERT into the storage and the indexes.
  unfoldable pub store_row :
      String → List String → List (Value J) → ℕ → Action (Database (Value J)) ℕ
  unfolding Storage.insert insert_row
  store_row table col_names row_values txn_id = do
    row_id ← on_storage (Storage.insert c table (Types.new row_values) txn_id)
    on_indexes (insert_row json_to_string table row_values col_names row_id)
    pure row_id

  -- The assignments of an UPDATE, one after the other, each on the row that the others left.
  unfoldable pub assign_all :
      TableSchema
      → List String
      → Option (List (Value J))
      → List Assignment
      → List (Value J)
      → Result (List (Value J))
  assign_all schema col_names excluded [] row = ok row
  assign_all schema col_names excluded (assign ∷ assignments) row =
      elim (assignment_value_with_excluded m assign row col_names excluded) [
        | err e ↦ err e
        | ok (col, val) ↦ elim (column_index schema col) [
          | none ↦ assign_all schema col_names excluded assignments row
          | some idx ↦ elim (get_elem? schema.columns idx) [
            | none ↦ assign_all schema col_names excluded assignments row
            | some column ↦ elim (coerce_to casts val column.data_type) [
              | err e ↦ err e
              | ok v ↦ assign_all schema col_names excluded assignments (set row idx v)
            ]
          ]
        ]
      ]

  -- A row of an UPDATE: out of the indexes, changed, into the storage and the indexes.
  unfoldable pub change_row :
      TableSchema
      → String
      → List String
      → List Assignment
      → Option (List (Value J))
      → ℕ
      → Row (Value J)
      → ℕ
      → Action (Database (Value J)) (Unit {0})
  unfolding Storage.update insert_row remove_row assign_all
  change_row schema table col_names assignments excluded id row txn_id = do
    modify (λ d. record d {
      indexes = remove_row json_to_string table row.values col_names id d.indexes;
    })
    values ← try (assign_all schema col_names excluded assignments row.values)
    try (validate_row schema values)
    on_storage (Storage.update c table id (record row { values = values }) txn_id row.version)
    on_indexes (insert_row json_to_string table values col_names id)

  -- A row of a DELETE.
  unfoldable pub drop_row :
      String → List String → ℕ → Row (Value J) → ℕ → Action (Database (Value J)) Bool
  unfolding Storage.delete remove_row
  drop_row table col_names id row txn_id = do
    modify (λ d. record d {
      indexes = remove_row json_to_string table row.values col_names id d.indexes;
    })
    on_storage (Storage.delete c table id txn_id)

  -- The row that an INSERT conflicts with.
  unfoldable pub find_conflict_row :
      TableSchema
      → String
      → OnConflict
      → List String
      → List (Value J)
      → Action (Database (Value J)) (Option ℕ)
  find_conflict_row schema table conflict col_names row_values = do
    conflict_cols ← try (resolve_conflict_columns schema conflict)
    index_name ← ok_or_raise (find_unique_index schema.indexes conflict_cols) (
        execution (
          concat_text "there is no unique index matching ON CONFLICT specification on '"
            (concat_text (join conflict_cols) "'")))
    ids ← gets (λ d.
        lookup_ids table index_name
          (key_of json_to_string
            (map (column_value json_to_string row_values col_names) conflict_cols))
          d.indexes)
    pure (get_elem? ids 0)

  abbrev pub passes :
      Option Expr → List (Value J) → List String → Option (List (Value J)) → Result Bool
  passes none row col_names excluded = ok true
  passes (some w) row col_names excluded = eval_where_with_excluded m w row col_names excluded

  unfoldable pub apply_conflict_update :
      TableSchema
      → String
      → List String
      → ℕ
      → List (Value J)
      → List Assignment
      → Option Expr
      → ℕ
      → Action (Executor (Value J)) (Unit {0})
  apply_conflict_update schema table col_names row_id proposed assignments selection txn_id = do
    found ← gets (λ e. Storage.get table row_id e.database.storage)
    existing ← ok_or_raise found (execution "conflict row vanished")
    update ← try (passes selection existing.values col_names (some proposed))
    (if update
        then (do
          modify (note_undo (UndoRecord.update table row_id existing))
          on_database (
              change_row schema table col_names assignments (some proposed) row_id existing txn_id))
        else pure tt)
