-- ===== src/Index/Rebuilt.antt =====
-- `rebuild_all` of moodeng-core/src/index.rs: the indexes that the catalog names, from the rows.
use moodeng_sql.Prelude.{String, List, [], ◌∷◌, map, ℕ}
use moodeng_sql.Error.{ok, err}
use moodeng_sql.Action.{Action, for_each}
use moodeng_sql.Types.{Row}
use moodeng_sql.Types.Value.{Value}
use moodeng_sql.Storage.Engine.{StorageEngine, scan}
use moodeng_sql.Catalog.{Catalog, IndexMeta, list_tables, get_table}
use moodeng_sql.Index
use moodeng_sql.Index.{BTreeIndex, IndexManager, row_key, create_index}

module _ {J : Type 0} (json_to_string : J → String) where
  -- The rows of a table, put into one index.
  unfoldable pub index_rows : List String → List (ℕ × Row (Value J)) → Action BTreeIndex (Unit {0})
  unfolding Index.insert
  index_rows col_names [] index = (ok tt, index)
  index_rows col_names ((id, row) ∷ rows) index =
      let (r, index') = Index.insert (row_key json_to_string row.values col_names index) id index in
      let rest = index_rows col_names rows index' in
      elim r [ ok _ ↦ rest | err e ↦ (err e, index') ]

  -- An index with its rows joins the others; a violation of uniqueness ends the rebuild.
  unfoldable pub rebuild_index :
      StorageEngine (Value J) → String → List String → IndexMeta → Action IndexManager (Unit {0})
  unfolding index_rows scan create_index
  rebuild_index storage table col_names meta indexes =
      let (r, index) =
        index_rows col_names (scan table storage) (Index.new meta.name meta.columns meta.unique) in
      elim r [ err e ↦ (err e, indexes) | ok _ ↦ create_index table index indexes ]

  unfoldable pub rebuild_table :
      Catalog → StorageEngine (Value J) → String → Action IndexManager (Unit {0})
  unfolding get_table rebuild_index for_each
  rebuild_table catalog storage table indexes = elim (get_table table catalog) [
    | err e ↦ (err e, indexes)
    | ok schema ↦
        for_each (rebuild_index storage table (map (λ c. c.name) schema.columns)) schema.indexes
          indexes
  ]

  unfoldable pub rebuild_all : Catalog → StorageEngine (Value J) → Action IndexManager (Unit {0})
  unfolding list_tables rebuild_table for_each
  rebuild_all catalog storage indexes =
      for_each (rebuild_table catalog storage) (list_tables catalog) []
