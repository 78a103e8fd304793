-- ===== src/Parser/Assigned.antt =====
-- Names and assignments, of moodeng-core/src/parser.rs.
use moodeng_sql.Prelude.{String, Option, List, [], ◌∷◌}
use moodeng_sql.Error.{Result, ok, ◌>>=◌}
use moodeng_sql.Types.Value.{Value}
use moodeng_sql.Parser.Ast.{Assignment, AssignmentTarget}
use moodeng_sql.Parser.Eval.{Machine, eval_expr_with_excluded}

-- The last part of a name.
unfoldable pub extract_table_name : List String → String
extract_table_name [] = ""
extract_table_name (part ∷ []) = part
extract_table_name (part ∷ next ∷ parts) = extract_table_name (next ∷ parts)

unfoldable pub assigned_column : AssignmentTarget → String
assigned_column (AssignmentTarget.column_name name) = extract_table_name name
assigned_column (AssignmentTarget.tuple []) = ""
assigned_column (AssignmentTarget.tuple (name ∷ names)) = extract_table_name name

unfoldable pub assignment_value_with_excluded :
    {J : Type 0}
    → Machine
    → Assignment
    → List (Value J)
    → List String
    → Option (List (Value J))
    → Result (String × Value J)
unfolding assigned_column
assignment_value_with_excluded m assign row columns excluded = do
  val ← eval_expr_with_excluded m row columns excluded assign.value
  ok (assigned_column assign.target, val)
