-- ===== src/Index.antt =====
-- moodeng-core/src/index.rs: the indexes of the tables. The range scan is left out.
pub mod Laws
pub mod Rebuilt
use moodeng_sql.Prelude.{
  ℕ, String, Bool, true, false, not, ◌&&◌, ◌==◌, Option, none, some, List, [], ◌∷◌, ◌++◌, map,
  if◌then◌else◌, string_key, str_eq, Key,
}
use Prim.Native.String.{◌++◌ as concat_text}
use mathlib.Core.List.{List-discrete}
use native.Mathlib.Decide.{ℕ_discrete}
use moodeng_sql.Prelude.{String_discrete}
use moodeng_sql.Prelude.Map
use moodeng_sql.Prelude.Map.{Map}
use moodeng_sql.Prelude.Lists.{length, get_elem?, position, filter_by}
use moodeng_sql.Prelude.Text.{eq_ignore_ascii_case}
use moodeng_sql.Error.{Result, ok, err, duplicate_key, index_exists}
use moodeng_sql.Action.{Action, pure, raise, gets, modify, for_each, ◌>>=◌, ◌>>◌}
use moodeng_sql.Types.Value.{Value, sign_extend}

pub data ComparableValue : Type 0 where
  null : ComparableValue
  int : ℕ → ComparableValue
  float : ℕ → ComparableValue
  text : String → ComparableValue
  bool : Bool → ComparableValue

pub ComparableValue-discrete : Discrete ComparableValue
ComparableValue-discrete = hlevel (ℕ_discrete, String_discrete)

abbrev pub IndexKey : Type 0
IndexKey = List ComparableValue

instance abbrev pub index_key : Key IndexKey
index_key = record { dec = List-discrete ComparableValue-discrete }

module _ {J : Type 0} (json_to_string : J → String) where
  -- `From<&Value>`
  abbrev pub comparable : Value J → ComparableValue
  comparable Value.null = ComparableValue.null
  comparable (Value.int4 n) = ComparableValue.int (sign_extend n)
  comparable (Value.int8 n) = ComparableValue.int n
  comparable (Value.float4 n) = ComparableValue.float n
  comparable (Value.float8 n) = ComparableValue.float n
  comparable (Value.text s) = ComparableValue.text s
  comparable (Value.bool b) = ComparableValue.bool b
  comparable (Value.timestamp n) = ComparableValue.int n
  comparable (Value.json j) = ComparableValue.text (json_to_string j)

  abbrev pub key_of : List (Value J) → IndexKey
  key_of key_values = map comparable key_values

-- `tree` is the `BTreeMap`, in any order.
pub record BTreeIndex : Type 0 where
  pub name : String
  pub columns : List String
  pub unique : Bool
  pub tree : Map IndexKey (List ℕ)

abbrev pub new : String → List String → Bool → BTreeIndex
new name columns unique = record { name = name; columns = columns; unique = unique; tree = [] }

-- The text of the error on a key that is there.
abbrev pub violation : String → String
violation name = concat_text "unique index '" (concat_text name "' violation")

unfoldable pub insert : IndexKey → ℕ → Action BTreeIndex (Unit {0})
insert key row_id index =
    if index.unique
    then (if Map.contains_key key index.tree
        then raise (duplicate_key (violation index.name)) index
        else (ok tt, record index { tree = Map.insert key (row_id ∷ []) index.tree }))
    else (
      ok tt,
      record index {
        tree = Map.insert key (Map.or_insert key [] index.tree ++ row_id ∷ []) index.tree;
      },
    )

-- `retain`, and an empty list goes with its key.
abbrev pub store_or_remove : IndexKey → List ℕ → Map IndexKey (List ℕ) → Map IndexKey (List ℕ)
store_or_remove key [] tree = Map.remove key tree
store_or_remove key (id ∷ ids) tree = Map.insert key (id ∷ ids) tree

unfoldable pub remove : IndexKey → ℕ → BTreeIndex → BTreeIndex
remove key row_id index = elim (Map.lookup key index.tree) [
  | none ↦ index
  | some ids ↦ record index {
    tree = store_or_remove key (filter_by (λ id. not (id == row_id)) ids) index.tree;
  }
]

unfoldable pub lookup : IndexKey → BTreeIndex → List ℕ
lookup key index = Map.or_insert key [] index.tree

abbrev pub TableIndexes : Type 0
TableIndexes = Map String BTreeIndex

-- `IndexManager`
abbrev pub IndexManager : Type 0
IndexManager = Map String TableIndexes

unfoldable pub create_index : String → BTreeIndex → Action IndexManager (Unit {0})
create_index table index indexes =
    let of_table : TableIndexes = Map.or_insert table [] indexes in
    if Map.contains_key index.name of_table
    then raise (index_exists index.name) (Map.insert table of_table indexes)
    else (ok tt, Map.insert table (Map.insert index.name index of_table) indexes)

unfoldable pub get_index : String → String → IndexManager → Option BTreeIndex
get_index table name indexes = Map.lookup name (Map.or_insert table [] indexes)

-- `IndexManager::lookup`
unfoldable pub lookup_ids : String → String → IndexKey → IndexManager → List ℕ
unfolding lookup
lookup_ids table index_name key indexes = elim (get_index table index_name indexes) [
  | none ↦ []
  | some index ↦ lookup key index
]

-- The first index, in the order of the map, that has just this column.
abbrev pub find_single : String → TableIndexes → Option String
find_single column [] = none
find_single column ((name, index) ∷ rest) = elim index.columns [
  | [] ↦ find_single column rest
  | col ∷ more ↦
      if length more == 0 && eq_ignore_ascii_case col column
      then some name
      else find_single column rest
]

unfoldable pub find_index_for_column : String → String → IndexManager → Option String
find_index_for_column table column indexes = elim (Map.lookup table indexes) [
  | none ↦ none
  | some of_table ↦ find_single column of_table
]

unfoldable pub table_indexes : String → IndexManager → List BTreeIndex
table_indexes table indexes = map (λ entry. entry.1) (Map.or_insert table [] indexes)

unfoldable pub load_all : IndexManager → IndexManager → IndexManager
load_all indexes _ = indexes

unfoldable pub snapshot : IndexManager → IndexManager
snapshot indexes = indexes

unfoldable pub drop_table : String → IndexManager → IndexManager
drop_table table indexes = Map.remove table indexes

module _ {J : Type 0} (json_to_string : J → String) where
  -- The value of a row in an index's column: column 0 stands in for an unknown name, and NULL for
  -- a missing value.
  abbrev pub column_value : List (Value J) → List String → String → Value J
  column_value row_values column_names col =
      let idx = elim (position (λ c. eq_ignore_ascii_case c col) column_names) as (λ _. ℕ) [
        | none ↦ 0
        | some i ↦ i
      ] in
      elim (get_elem? row_values idx) [ none ↦ Value.null | some v ↦ v ]

  abbrev pub row_key : List (Value J) → List String → BTreeIndex → IndexKey
  row_key row_values column_names index =
      key_of json_to_string (map (column_value row_values column_names) index.columns)

  -- `for index in table_indexes.values_mut()`: an error ends the loop, and the indexes that were
  -- changed before it stay changed.
  unfoldable pub insert_each : List (Value J) → List String → ℕ → Action TableIndexes (Unit {0})
  unfolding insert
  insert_each row_values column_names row_id [] = (ok tt, [])
  insert_each row_values column_names row_id ((name, index) ∷ rest) =
      let (r, index') = insert (row_key row_values column_names index) row_id index in
      let (rs, rest') = insert_each row_values column_names row_id rest in
      elim r [ ok _ ↦ (rs, (name, index') ∷ rest') | err e ↦ (err e, (name, index') ∷ rest) ]

  unfoldable pub insert_row :
      String → List (Value J) → List String → ℕ → Action IndexManager (Unit {0})
  unfolding insert_each
  insert_row table row_values column_names row_id indexes = elim (Map.lookup table indexes) [
    | none ↦ (ok tt, indexes)
    | some of_table ↦
        let (r, of_table') = insert_each row_values column_names row_id of_table in
        (r, Map.insert table of_table' indexes)
  ]

  unfoldable pub remove_each : List (Value J) → List String → ℕ → TableIndexes → TableIndexes
  unfolding remove
  remove_each row_values column_names row_id [] = []
  remove_each row_values column_names row_id ((name, index) ∷ rest) =
      (name, remove (row_key row_values column_names index) row_id index)
      ∷ remove_each row_values column_names row_id rest

  unfoldable pub remove_row :
      String → List (Value J) → List String → ℕ → IndexManager → IndexManager
  unfolding remove_each
  remove_row table row_values column_names row_id indexes = elim (Map.lookup table indexes) [
    | none ↦ indexes
    | some of_table ↦ Map.insert table (remove_each row_values column_names row_id of_table) indexes
  ]
