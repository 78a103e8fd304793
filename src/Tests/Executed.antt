-- ===== src/Tests/Executed.antt =====
-- The theorems on statements at a small database.
use moodeng_sql.Prelude.{
  ℕ, String, String_discrete, true, false, none, refl, sym, false, some, List, [], ◌∷◌, ◌≡◌, ◌≢◌,
  ap, ◌∙◌, arith, nat_key, string_key, dec_eq, ite,
}
use moodeng_sql.Prelude.Map
use moodeng_sql.Error.{ok}
use moodeng_sql.Types.{new}
use moodeng_sql.Types.Value.{Value, Casts, ColumnDef, DataType}
use moodeng_sql.Storage.Engine.{get}
use moodeng_sql.Storage.Engine.Writes.{insert_stores}
use moodeng_sql.Index.{insert_row, insert_each, insert, ComparableValue, index_key}
use moodeng_sql.Catalog as Catalog
use moodeng_sql.Transaction.{Database}
use moodeng_sql.Planner.Complete.{AreIndexed}
use moodeng_sql.Catalog.{TableSchema}
use moodeng_sql.Prelude.Lists.{get_elem?}
use moodeng_sql.Parser.Eval.{is_null, unwrap_or}
use moodeng_sql.Executor.{validate_row, validate_columns}
use moodeng_sql.Executor.Queried.{insert_then_select}
use moodeng_sql.Parser.Ast.{Expr, Literal, BinaryOperator}
use moodeng_sql.Parser.Eval.{
  has_dot, eval_where, eval_where_with_excluded, eval_expr_with_excluded, eval_binary, values_equal,
}
use moodeng_sql.Planner.{extract_equality, plan_scan, candidate_rows}
use moodeng_sql.Planner.Compared.{is_float8}
use moodeng_sql.Planner.Complete.{IsPlain, IsAmong}
use moodeng_sql.Executor.Schema.{create_table, create_primary_key_index}
use moodeng_sql.Types.Value.{ddl}
use moodeng_sql.Index as Index
use moodeng_sql.Executor.Validated.{validate_row_lem}
use moodeng_sql.Executor.Deleted.{drop_row-AreIndexed}
use moodeng_sql.Executor.Writes.{store_row, drop_row}
use moodeng_sql.Executor.Stored.{store_row_lem, store_row-AreIndexed}
use moodeng_sql.Tests.Coder.{codecs}
use moodeng_sql.Tests.Stored.{alice, users, engine, users-IsValid, users-there}
use moodeng_sql.Tests.Planned.{machine, columns, indexes, json_text, of_users-there, by_id, indexed}

abbrev casts : Casts
casts = record { i32_to_f64 = λ n. n; i64_to_f64 = λ n. n; f32_to_f64 = λ n. n }

abbrev database : Database (Value String)
database = record { storage = engine; indexes = indexes; catalog = Catalog.new }

abbrev carol : List (Value String)
carol = Value.int4 3 ∷ Value.text "carol" ∷ []

carol_is_new : Map.contains_key (ComparableValue.int 3 ∷ []) by_id.tree ≡ false
unfolding Map.lookup
carol_is_new = ground arith

carol_indexed : (insert_row json_text "users" carol columns 3 indexes).0 ≡ ok tt
unfolding insert_row insert_each insert
carol_indexed = ground (arith, of_users-there, carol_is_new)

carol_stored : (store_row json_text codecs machine casts "users" columns carol 7 database).0 ≡ ok 3
carol_stored =
    ap (λ x. x.0)
      (store_row_lem json_text codecs machine casts "users" columns carol 7 3 database
        (insert_stores codecs "users" (new carol) 7 engine users-there users-IsValid).0)
    ∙ ground (arith, carol_indexed)

store_row-AreIndexed_example :
    let d' = (store_row json_text codecs machine casts "users" columns carol 7 database).1 in
    (Path ℕ 3 users.next_id)
    × (get "users" 3 d'.storage ≡ some (new carol))
    × ((j : ℕ) → 3 ≢ j → get "users" j d'.storage ≡ get "users" j database.storage)
    × AreIndexed machine json_text "users" columns d'.indexes d'.storage
store_row-AreIndexed_example =
    store_row-AreIndexed json_text codecs machine casts "users" columns carol 7 3 database
      users-there users-IsValid indexed carol_stored

drop_row-AreIndexed_example :
    let d' = (drop_row json_text codecs machine casts "users" columns 1 alice 7 database).1 in
    ((j : ℕ) → get "users" j d'.storage ≡ ite (dec_eq 1 j) none (get "users" j engine))
    × AreIndexed machine json_text "users" columns d'.indexes d'.storage
drop_row-AreIndexed_example =
    drop_row-AreIndexed json_text codecs machine casts "users" columns 1 alice 7 database
      users-there indexed

abbrev id_column : ColumnDef
id_column = record { name = "id"; data_type = DataType.int4; nullable = false; primary_key = true }

abbrev name_column : ColumnDef
name_column = record {
  name = "name";
  data_type = DataType.text;
  nullable = true;
  primary_key = false;
}

abbrev schema : TableSchema
schema = record { name = "users"; columns = name_column ∷ id_column ∷ []; indexes = [] }

nameless_passes : validate_row {J = String} schema (Value.null ∷ Value.int4 3 ∷ []) ≡ ok tt
unfolding validate_row validate_columns
nameless_passes = refl

validate_row_lem_example :
    is_null {J = String} (unwrap_or (get_elem? (Value.null ∷ Value.int4 3 ∷ []) 1) Value.null)
    ≡ false
validate_row_lem_example =
    validate_row_lem schema (Value.null ∷ Value.int4 3 ∷ []) 1 id_column nameless_passes refl refl

-- `3 = ID`
abbrev is_third : Expr
is_third = Expr.binary_op (Expr.value (Literal.number "3")) BinaryOperator.eq (Expr.identifier "ID")

is_third-IsPlain : IsPlain machine json_text is_third
unfolding extract_equality
is_third-IsPlain col val e =
    let name : Path String "ID" col = ground (arith, e) in
    let value : Path (Value String) (Value.int8 3) val = ground (arith, e) in
    (ap has_dot (sym name), ap is_float8 (sym value))

carol_passes : eval_where machine is_third carol columns ≡ ok true
unfolding eval_where_with_excluded eval_expr_with_excluded eval_binary values_equal
carol_passes = refl

insert_then_select_example :
    let d' = (store_row json_text codecs machine casts "users" columns carol 7 database).1 in
    IsAmong machine json_text
      (3, new carol)
      (candidate_rows machine json_text "users" d'.indexes d'.storage
        (plan_scan machine "users" (some is_third) d'.indexes columns))
insert_then_select_example =
    insert_then_select json_text codecs machine casts "users" columns carol 7 3 is_third database
      users-there (omega arith) users-IsValid indexed carol_stored is_third-IsPlain carol_passes

-- CREATE TABLE makes the key's index, under the table's name.
people_created :
    (create_table "people" (id_column ∷ name_column ∷ []) [] database).0
    ≡ ok (ddl "CREATE TABLE people")
unfolding create_table create_primary_key_index Catalog.create_table Catalog.add_index
    Index.create_index Map.lookup Map.insert String_discrete
people_created = ground arith
