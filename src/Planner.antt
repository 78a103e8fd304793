-- ===== src/Planner.antt =====
-- moodeng-core/src/planner.rs: whether a query reads all rows of its table or those of an index;
-- and the part of `select` of moodeng-core/src/executor.rs that follows the plan.

pub mod Compared
pub mod Found
pub mod Complete
use moodeng_sql.Prelude.{
  ℕ, String, Bool, true, false, not, Option, none, some, List, [], ◌∷◌, map, if◌then◌else◌,
  string_key,
}
use moodeng_sql.Prelude.Map
use moodeng_sql.Prelude.Lists.{all}
use moodeng_sql.Prelude.Text.{eq_ignore_ascii_case}
use moodeng_sql.Error.{Result, ok, err, ◌>>=◌}
use moodeng_sql.Types.{Row}
use moodeng_sql.Types.Value.{Value}
use moodeng_sql.Storage.Engine.{StorageEngine, scan, fetch_by_ids}
use moodeng_sql.Index.{IndexManager, find_index_for_column, lookup_ids, key_of}
use moodeng_sql.Parser.Ast.{Expr, Literal, BinaryOperator}
use moodeng_sql.Parser.Eval.{Machine, from_sql_literal, eval_where}

pub data ScanPlan (J : Type 0) : Type 0 where
  full_scan : ScanPlan J
  index_lookup : (index_name : String) → (key_values : List (Value J)) → ScanPlan J

module _ {J : Type 0} (m : Machine) where
  -- The column and the value of `column = literal`, or the other way round.
  unfoldable pub extract_equality : Expr → Option (String × Value J)
  extract_equality (Expr.binary_op (Expr.identifier value) BinaryOperator.eq (Expr.value v)) =
      some (value, from_sql_literal m v)
  extract_equality (Expr.binary_op (Expr.value v) BinaryOperator.eq (Expr.identifier value)) =
      some (value, from_sql_literal m v)
  extract_equality (Expr.nested inner) = extract_equality inner
  extract_equality expr = none

  unfoldable pub plan_scan : String → Option Expr → IndexManager → List String → ScanPlan J
  plan_scan table none indexes col_names = ScanPlan.full_scan
  plan_scan table (some expr) indexes col_names = elim (extract_equality expr) [
    | none ↦ ScanPlan.full_scan
    | some x ↦
        if all (λ c. not (eq_ignore_ascii_case c x.0)) col_names
        then ScanPlan.full_scan
        else (elim (find_index_for_column table x.0 indexes) [
          | some index_name ↦ ScanPlan.index_lookup index_name (x.1 ∷ [])
          | none ↦ ScanPlan.full_scan
        ])
  ]

  -- The rows that `select` looks at, each with its number.
  unfoldable pub candidate_rows :
      (J → String)
      → String
      → IndexManager
      → StorageEngine (Value J)
      → ScanPlan J
      → Result (List (ℕ × Row (Value J)))
  candidate_rows json_to_string table indexes storage ScanPlan.full_scan = ok (scan table storage)
  candidate_rows json_to_string table indexes storage
        (ScanPlan.index_lookup index_name key_values) =
      fetch_by_ids table (lookup_ids table index_name (key_of json_to_string key_values) indexes)
        storage

  -- `for (_, row) in candidate_rows`: the rows that pass the condition. An error ends the query.
  unfoldable pub select_rows :
      Option Expr → List String → List (ℕ × Row (Value J)) → Result (List (Row (Value J)))
  select_rows where_clause col_names [] = ok []
  select_rows none col_names ((id, row) ∷ rows) = do
    rest ← select_rows none col_names rows
    ok (row ∷ rest)
  select_rows (some w) col_names ((id, row) ∷ rows) =
      let later = select_rows (some w) col_names rows in
      do
        passes ← eval_where m w row.values col_names
        rest ← later
        ok (if passes then row ∷ rest else rest)
