-- ===== src/Executor/Schema.antt =====
-- CREATE TABLE, DROP TABLE and CREATE INDEX of moodeng-core/src/executor.rs, on the columns that
-- the parser gives. The lock of the table, which a statement holds, is in Locks.
use Prim.Native.String.{◌++◌ as concat_text}
use moodeng_sql.Prelude.{
  String, Bool, true, false, none, some, List, [], ◌∷◌, map, if◌then◌else◌, ◌==◌,
}
use moodeng_sql.Prelude.Lists.{length, any, filter_by}
use moodeng_sql.Prelude.Text.{eq_ignore_ascii_case}
use moodeng_sql.Error.{Result, ok, err, column_not_found}
use moodeng_sql.Action.{Action, modify, pure, gets, ◌>>=◌, ◌>>◌}
use moodeng_sql.Types.Value.{Value, ColumnDef, QueryResult, ddl}
use moodeng_sql.Storage.Engine as Storage
use moodeng_sql.Index as Index
use moodeng_sql.Index.{BTreeIndex}
use moodeng_sql.Index.Rebuilt.{index_rows}
use moodeng_sql.Catalog as Catalog
use moodeng_sql.Catalog.{Catalog, TableSchema, IndexMeta, get_table, column_index}
use moodeng_sql.Transaction.{Database, on_indexes}
use moodeng_sql.Executor.{try}

-- `for col in &mut col_defs`: a column of the PRIMARY KEY constraint is a key, and NOT NULL.
abbrev pub with_key : List String → ColumnDef → ColumnDef
with_key pk_cols col =
    if any (λ p. eq_ignore_ascii_case p col.name) pk_cols
    then record col { primary_key = true; nullable = false }
    else col

module _ {V : Type 0} where
  abbrev pub on_catalog : {A : Type 0} → Action Catalog A → Action (Database V) A
  on_catalog f d = let (r, s) = f d.catalog in (r, record d { catalog = s })

  unfoldable pub create_primary_key_index : String → List ColumnDef → Action (Database V) (Unit {0})
  unfolding Index.create_index Catalog.add_index
  create_primary_key_index table columns =
      let pk_cols = map (λ c. c.name) (filter_by (λ c. c.primary_key) columns) in
      let index_name = concat_text table "_pkey" in
      if length pk_cols == 0 then pure tt else (do
        on_indexes (Index.create_index table (Index.new index_name pk_cols true))
        on_catalog (
            Catalog.add_index table
              (record { name = index_name; columns = pk_cols; unique = true })))

  unfoldable pub create_table :
      String → List ColumnDef → List String → Action (Database V) (QueryResult V)
  unfolding create_primary_key_index Catalog.create_table Storage.ensure_table
  create_table table columns pk_cols =
      let col_defs = map (with_key pk_cols) columns in
      do
        on_catalog (Catalog.create_table table col_defs)
        modify (λ d. record d { storage = Storage.ensure_table table d.storage })
        create_primary_key_index table col_defs
        pure (ddl (concat_text "CREATE TABLE " table))

  unfoldable pub drop_table : String → Action (Database V) (QueryResult V)
  unfolding Catalog.drop_table Storage.drop_table Index.drop_table
  drop_table table = do
    on_catalog (Catalog.drop_table table)
    modify (λ d. record d { storage = Storage.drop_table table d.storage })
    modify (λ d. record d { indexes = Index.drop_table table d.indexes })
    pure (ddl (concat_text "DROP TABLE " table))

-- `for col in &columns`
unfoldable pub check_columns : TableSchema → List String → Result (Unit {0})
check_columns schema [] = ok tt
check_columns schema (col ∷ columns) =
    let rest = check_columns schema columns in
    elim (column_index schema col) [ none ↦ err (column_not_found col) | some _ ↦ rest ]

module _ {J : Type 0} (json_to_string : J → String) where
  unfoldable pub create_index :
      String → String → List String → Bool → Action (Database (Value J)) (QueryResult (Value J))
  unfolding get_table check_columns index_rows Storage.scan Index.create_index Catalog.add_index
  create_index table index_name columns unique = do
    schema ← (λ d. (get_table table d.catalog, d))
    try (check_columns schema columns)
    all_rows ← gets (λ d. Storage.scan table d.storage)
    index ← (λ d.
        let (r, index) =
          index_rows json_to_string (map (λ c. c.name) schema.columns) all_rows
            (Index.new index_name columns unique) in
        (elim r as (λ _. Result BTreeIndex) [ ok _ ↦ ok index | err e ↦ err e ], d))
    on_indexes (Index.create_index table index)
    on_catalog
        (Catalog.add_index table (record { name = index_name; columns = columns; unique = unique }))
    pure (ddl (concat_text "CREATE INDEX " index_name))
