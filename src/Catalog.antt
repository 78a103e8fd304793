-- ===== src/Catalog.antt =====
-- moodeng-core/src/catalog.rs: the schemas of the tables.
pub mod Laws
use Prim.Native.Nat.{Ordering}
use Prim.Native.String.{compare, ◌++◌ as concat_text}
use moodeng_sql.Prelude.{
  ℕ, String, Bool, true, false, Option, none, some, List, [], ◌∷◌, ◌++◌, map, if◌then◌else◌,
  string_key, str_eq, suc_u64,
}
use moodeng_sql.Prelude.Map
use moodeng_sql.Prelude.Map.{Map}
use moodeng_sql.Prelude.Lists.{length, any, position}
use moodeng_sql.Prelude.Text.{eq_ignore_ascii_case}
use moodeng_sql.Error.{Result, ok, err, ok_or, execution, table_not_found, index_exists}
use moodeng_sql.Action.{Action, pure, raise, modify, ok_or_raise, ◌>>=◌, ◌>>◌}
use moodeng_sql.Types.Value.{ColumnDef, DataType}

pub record IndexMeta : Type 0 where
  pub name : String
  pub columns : List String
  pub unique : Bool

pub record TableSchema : Type 0 where
  pub name : String
  pub columns : List ColumnDef
  pub indexes : List IndexMeta

pub record CatalogStats : Type 0 where
  pub table_count : ℕ
  pub total_indexes : ℕ

pub record Catalog : Type 0 where
  pub tables : Map String TableSchema
  pub stats : CatalogStats

abbrev pub new : Catalog
new = record { tables = []; stats = record { table_count = 0; total_indexes = 0 } }

-- `self.stats.write().table_count = self.tables.len()`
abbrev pub count_tables : Catalog → Catalog
count_tables c = record c { stats = record c.stats { table_count = length c.tables } }

abbrev pub put_table : String → TableSchema → Catalog → Catalog
put_table name schema c = record c { tables = Map.insert name schema c.tables }

-- The text of the error on a table that is there.
abbrev pub quoted : String → String
quoted name = concat_text "table '" (concat_text name "' already exists")

unfoldable pub create_table : String → List ColumnDef → Action Catalog (Unit {0})
create_table name columns c =
    if Map.contains_key name c.tables then raise (execution (quoted name)) c else (
      ok tt,
      count_tables (put_table name (record { name = name; columns = columns; indexes = [] }) c),
    )

unfoldable pub drop_table : String → Action Catalog (Unit {0})
drop_table name = do
  (λ c. ok_or_raise (Map.lookup name c.tables) (table_not_found name) c)
  modify (λ c. count_tables (record c { tables = Map.remove name c.tables }))

unfoldable pub get_table : String → Catalog → Result TableSchema
get_table name c = ok_or (Map.lookup name c.tables) (table_not_found name)

-- `sort` and `sort_by` on names
unfoldable pub insert_name : {A : Type 0} → (A → String) → A → List A → List A
insert_name key x [] = x ∷ []
insert_name key x (y ∷ ys) = elim (compare (key x) (key y)) [
  | Ordering.gt ↦ y ∷ insert_name key x ys
  | _ ↦ x ∷ y ∷ ys
]

unfoldable pub sort_by_name : {A : Type 0} → (A → String) → List A → List A
unfolding insert_name
sort_by_name key [] = []
sort_by_name key (x ∷ xs) = insert_name key x (sort_by_name key xs)

unfoldable pub list_tables : Catalog → List String
unfolding sort_by_name
list_tables c = sort_by_name (λ name. name) (map (λ entry. entry.0) c.tables)

unfoldable pub snapshot : Catalog → List TableSchema
unfolding sort_by_name
snapshot c = sort_by_name (λ schema. schema.name) (map (λ entry. entry.1) c.tables)

abbrev pub put_all : List TableSchema → Catalog → Catalog
put_all [] c = c
put_all (schema ∷ schemas) c = put_all schemas (put_table schema.name schema c)

unfoldable pub load_tables : List TableSchema → Catalog → Catalog
load_tables schemas c = count_tables (put_all schemas c)

unfoldable pub add_index : String → IndexMeta → Action Catalog (Unit {0})
add_index table index c = elim (Map.lookup table c.tables) [
  | none ↦ raise (table_not_found table) c
  | some schema ↦
      if any (λ i. str_eq i.name index.name) schema.indexes
      then raise (index_exists index.name) c
      else (
        ok tt,
        record (put_table table (record schema { indexes = schema.indexes ++ index ∷ [] }) c) {
          stats = record c.stats { total_indexes = suc_u64 c.stats.total_indexes };
        },
      )
]

unfoldable pub column_index : TableSchema → String → Option ℕ
column_index schema col = position (λ c. eq_ignore_ascii_case c.name col) schema.columns

-- `collect` into a `HashMap`: of two columns with one name the later one counts.
abbrev collect_types : List ColumnDef → Map String DataType → Map String DataType
collect_types [] types = types
collect_types (c ∷ columns) types = collect_types columns (Map.insert c.name c.data_type types)

unfoldable pub resolve_column_types : TableSchema → Map String DataType
resolve_column_types schema = collect_types schema.columns []
