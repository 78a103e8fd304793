-- ===== src/Parser/Eval.antt =====
-- The evaluation of expressions, of moodeng-core/src/parser.rs, and `from_sql_literal` of
-- moodeng-core/src/types.rs. Sums and differences of integers wrap around, as a release build's do.
use Prim.Native.Nat.{Ordering, compare}
use Prim.Native.Char.{code}
use Prim.Native.String.{◌∷◌ as cons_text, [] as empty_text, ◌++◌ as concat_text}
use moodeng_sql.Prelude.{
  ℕ, String, Bool, true, false, not, ◌&&◌, ◌||◌, ◌+◌, ◌-◌, ◌*◌, ◌%◌, ◌^◌, Option, none, some, List,
  [], ◌∷◌, ◌==◌, if◌then◌else◌, str_eq,
}
use moodeng_sql.Prelude.Lists.{get_elem?, position}
use moodeng_sql.Prelude.Text.{eq_ignore_ascii_case}
use moodeng_sql.Error.{Result, ok, err, execution, column_not_found, ◌>>=◌}
use moodeng_sql.Types.Value.{Value, sign_extend}
use moodeng_sql.Parser.Ast.{
  Literal, BinaryOperator, UnaryOperator, Expr, FunctionArguments, FunctionArgs, FunctionArg,
}

-- What the standard library and the processor do: texts of numbers (none where they are no
-- number), letters, and `f64` on bits. `near` is `(x - y).abs() < f64::EPSILON`.
pub record Machine : Type 0 where
  pub parse_f64 : String → Option ℕ
  pub parse_i64 : String → Option ℕ
  pub to_uppercase : String → String
  pub to_lowercase : String → String
  pub add : ℕ → ℕ → ℕ
  pub sub : ℕ → ℕ → ℕ
  pub neg : ℕ → ℕ
  pub near : ℕ → ℕ → Bool

-- `contains('.')`
abbrev pub has_dot : String → Bool
has_dot empty_text = false
has_dot (cons_text c s) = code c == 46 || has_dot s

-- `rsplit('.').next()`: what stands behind the last dot.
abbrev pub bare : String → String
bare empty_text = empty_text
bare (cons_text c s) =
    let rest = bare s in if has_dot s then rest else if code c == 46 then s else cons_text c s

abbrev pub unwrap_or {ℓ} : {A : Type ℓ} → Option A → A → A
unwrap_or none a = a
unwrap_or (some b) a = b

-- `-n` and `a - b` of integers of `w` bits.
abbrev pub wrap_neg : ℕ → ℕ → ℕ
wrap_neg w n = (2 ^ w - n) % 2 ^ w

abbrev pub wrap_sub : ℕ → ℕ → ℕ → ℕ
wrap_sub w a b = (a + (2 ^ w - b)) % 2 ^ w

-- `cmp` of two `i64`
abbrev pub compare_i64 : ℕ → ℕ → Ordering
compare_i64 a b = compare ((a + 2 ^ 63) % 2 ^ 64) ((b + 2 ^ 63) % 2 ^ 64)

-- The last two names of a path, with a dot between.
unfoldable pub compound_name : List String → String
compound_name [] = ""
compound_name (p ∷ []) = p
compound_name (p ∷ q ∷ []) = concat_text p (concat_text "." q)
compound_name (p ∷ q ∷ r ∷ parts) = compound_name (q ∷ r ∷ parts)

-- `parts.len() >= 2 && parts[0]` is the name `excluded`, and the last of the parts.
abbrev pub excluded_column : List String → Option String
excluded_column [] = none
excluded_column (p ∷ []) = none
excluded_column (p ∷ q ∷ parts) =
    if eq_ignore_ascii_case p "excluded" then some (last q parts) else none
  where
    last : String → List String → String
    last q [] = q
    last q (r ∷ parts) = last r parts

abbrev pub is_some_and : Option Ordering → (Ordering → Bool) → Bool
is_some_and none test = false
is_some_and (some o) test = test o

abbrev pub is_less : Ordering → Bool
is_less Ordering.lt = true
is_less o = false

abbrev pub is_greater : Ordering → Bool
is_greater Ordering.gt = true
is_greater o = false

module _ {J : Type 0} where
  abbrev pub is_null : Value J → Bool
  is_null Value.null = true
  is_null v = false

  abbrev pub as_i64 : Value J → Option ℕ
  as_i64 (Value.int4 n) = some (sign_extend n)
  as_i64 (Value.int8 n) = some n
  as_i64 v = none

  abbrev pub compare_ints : Value J → Value J → Option Ordering
  compare_ints a b = elim (as_i64 a) [
    | none ↦ none
    | some x ↦ elim (as_i64 b) [ none ↦ none | some y ↦ some (compare_i64 x y) ]
  ]

  abbrev pub column_value : String → List (Value J) → List String → Result (Value J)
  column_value col row columns =
      let name = bare col in
      elim (position (λ c. eq_ignore_ascii_case c col || eq_ignore_ascii_case c name) columns) [
        | none ↦ err (column_not_found col)
        | some idx ↦ ok (unwrap_or (get_elem? row idx) Value.null)
      ]

  abbrev pub excluded_value : String → Option (List (Value J)) → List String → Result (Value J)
  excluded_value col none columns =
      err (execution "EXCLUDED is only valid in ON CONFLICT DO UPDATE")
  excluded_value col (some row) columns = column_value col row columns

  -- Whether a row with this outcome of a condition passes: NULL is false, and a value that is no
  -- Boolean is true.
  abbrev pub holds : Value J → Bool
  holds (Value.bool b) = b
  holds Value.null = false
  holds v = true

module _ {J : Type 0} (m : Machine) where
  abbrev pub from_sql_literal : Literal → Value J
  from_sql_literal (Literal.number n) =
      if has_dot n
      then Value.float8 (unwrap_or (m.parse_f64 n) 0)
      else Value.int8 (unwrap_or (m.parse_i64 n) 0)
  from_sql_literal (Literal.single_quoted_string s) = Value.text s
  from_sql_literal (Literal.double_quoted_string s) = Value.text s
  from_sql_literal (Literal.boolean b) = Value.bool b
  from_sql_literal Literal.null = Value.null
  from_sql_literal (Literal.other debug) = Value.text debug

  -- The match on two values that are not both integers.
  abbrev pub same_values : Value J → Value J → Bool
  same_values (Value.text x) (Value.text y) = str_eq x y
  same_values (Value.bool true) (Value.bool b) = b
  same_values (Value.bool false) (Value.bool b) = not b
  same_values (Value.float8 x) (Value.float8 y) = m.near x y
  same_values Value.null Value.null = true
  same_values a b = false

  unfoldable pub values_equal : Value J → Value J → Bool
  values_equal a b = elim (as_i64 a) as (λ _. Bool) [
    | none ↦ same_values a b
    | some x ↦ elim (as_i64 b) as (λ _. Bool) [ none ↦ same_values a b | some y ↦ x == y ]
  ]

  -- The operators on two values of which none, or no comparison's, is NULL.
  abbrev pub eval_values : Value J → BinaryOperator → Value J → Value J
  eval_values (Value.int4 a) BinaryOperator.plus (Value.int4 b) = Value.int4 ((a + b) % 2 ^ 32)
  eval_values (Value.int8 a) BinaryOperator.plus (Value.int8 b) = Value.int8 ((a + b) % 2 ^ 64)
  eval_values (Value.int4 a) BinaryOperator.minus (Value.int8 b) =
      Value.int8 (wrap_sub 64 (sign_extend a) b)
  eval_values (Value.int8 a) BinaryOperator.multiply (Value.int8 b) = Value.int8 (a * b % 2 ^ 64)
  eval_values (Value.float8 a) BinaryOperator.plus (Value.float8 b) = Value.float8 (m.add a b)
  eval_values (Value.float8 a) BinaryOperator.minus (Value.float8 b) = Value.float8 (m.sub a b)
  eval_values (Value.text a) BinaryOperator.string_concat (Value.text b) =
      Value.text (concat_text a b)
  eval_values a BinaryOperator.eq b = Value.bool (values_equal a b)
  eval_values a BinaryOperator.not_eq b = Value.bool (not (values_equal a b))
  eval_values a BinaryOperator.lt b = Value.bool (is_some_and (compare_ints a b) is_less)
  eval_values a BinaryOperator.lt_eq b =
      Value.bool (is_some_and (compare_ints a b) (λ o. not (is_greater o)))
  eval_values a BinaryOperator.gt b = Value.bool (is_some_and (compare_ints a b) is_greater)
  eval_values a BinaryOperator.gt_eq b =
      Value.bool (is_some_and (compare_ints a b) (λ o. not (is_less o)))
  eval_values (Value.bool a) BinaryOperator.and (Value.bool b) = Value.bool (a && b)
  eval_values (Value.bool a) BinaryOperator.or (Value.bool b) = Value.bool (a || b)
  eval_values a op b = Value.null

  -- The operators where a value is NULL, and none for those that go on.
  abbrev pub null_case : BinaryOperator → Option (Value J)
  null_case BinaryOperator.eq = some (Value.bool false)
  null_case BinaryOperator.not_eq = some (Value.bool false)
  null_case BinaryOperator.lt = some (Value.bool false)
  null_case BinaryOperator.lt_eq = some (Value.bool false)
  null_case BinaryOperator.gt = some (Value.bool false)
  null_case BinaryOperator.gt_eq = some (Value.bool false)
  null_case BinaryOperator.and = none
  null_case BinaryOperator.or = none
  null_case op = some Value.null

  unfoldable pub eval_binary : Value J → BinaryOperator → Value J → Value J
  eval_binary l op r =
      if is_null l || is_null r
      then unwrap_or (null_case op) (eval_values l op r)
      else eval_values l op r

  -- `v` is the operand's value, and `again` what its evaluation gives a second time.
  abbrev pub eval_unary : UnaryOperator → Value J → Result (Value J) → Result (Value J)
  eval_unary UnaryOperator.not (Value.bool b) again = ok (Value.bool (not b))
  eval_unary UnaryOperator.not v again = ok (Value.bool false)
  eval_unary UnaryOperator.minus (Value.int4 n) again = ok (Value.int4 (wrap_neg 32 n))
  eval_unary UnaryOperator.minus (Value.int8 n) again = ok (Value.int8 (wrap_neg 64 n))
  eval_unary UnaryOperator.minus (Value.float8 n) again = ok (Value.float8 (m.neg n))
  eval_unary UnaryOperator.minus v again = ok v
  eval_unary UnaryOperator.other v again = again

  abbrev pub in_letters : (String → String) → Value J → Value J
  in_letters change (Value.text s) = Value.text (change s)
  in_letters change v = Value.null

  -- `first` is the value of the first argument where that is an expression. The functions look at
  -- nothing else.
  abbrev pub eval_named : String → Option (Result (Value J)) → Result (Value J)
  eval_named name first =
      if str_eq name "COUNT"
      then ok (Value.int8 1)
      else if str_eq name "UPPER"
      then (elim first [
        | none ↦ ok Value.null
        | some r ↦ (do v ← r; ok (in_letters m.to_uppercase v))
      ])
      else if str_eq name "LOWER"
      then (elim first [
        | none ↦ ok Value.null
        | some r ↦ (do v ← r; ok (in_letters m.to_lowercase v))
      ])
      else ok Value.null

  module _ (row : List (Value J)) (columns : List String) (excluded : Option (List (Value J))) where
    unfoldable mutual
      pub eval_expr_with_excluded : Expr → Result (Value J)
      eval_expr_with_excluded (Expr.value v) = ok (from_sql_literal v)
      eval_expr_with_excluded (Expr.identifier value) = column_value value row columns
      eval_expr_with_excluded (Expr.compound_identifier parts) = elim (excluded_column parts) [
        | some col ↦ excluded_value col excluded columns
        | none ↦ column_value (compound_name parts) row columns
      ]
      eval_expr_with_excluded (Expr.binary_op left op right) = do
        l ← eval_expr_with_excluded left
        r ← eval_expr_with_excluded right
        ok (eval_binary l op r)
      eval_expr_with_excluded (Expr.unary_op op expr) =
          let r = eval_expr_with_excluded expr in do v ← r; eval_unary op v r
      eval_expr_with_excluded (Expr.is_null expr) = do
        v ← eval_expr_with_excluded expr
        ok (Value.bool (is_null v))
      eval_expr_with_excluded (Expr.is_not_null expr) = do
        v ← eval_expr_with_excluded expr
        ok (Value.bool (not (is_null v)))
      eval_expr_with_excluded (Expr.nested inner) = eval_expr_with_excluded inner
      eval_expr_with_excluded (Expr.function name args) = eval_function_with_excluded name args
      eval_expr_with_excluded Expr.other = ok Value.null

      pub eval_function_with_excluded : String → FunctionArguments → Result (Value J)
      eval_function_with_excluded name FunctionArguments.no_list = ok Value.null
      eval_function_with_excluded name (FunctionArguments.list args) =
          let first = eval_first args in eval_named (m.to_uppercase name) first

      pub eval_first : FunctionArgs → Option (Result (Value J))
      eval_first FunctionArgs.nil = none
      eval_first (FunctionArgs.cons arg args) = eval_arg arg

      pub eval_arg : FunctionArg → Option (Result (Value J))
      eval_arg (FunctionArg.unnamed expr) = some (eval_expr_with_excluded expr)
      eval_arg FunctionArg.wildcard = none
      eval_arg FunctionArg.other_arg = none

  abbrev pub eval_expr : Expr → List (Value J) → List String → Result (Value J)
  eval_expr expr row columns = eval_expr_with_excluded row columns none expr

  unfoldable pub eval_where_with_excluded :
      Expr → List (Value J) → List String → Option (List (Value J)) → Result Bool
  eval_where_with_excluded expr row columns excluded = do
    v ← eval_expr_with_excluded row columns excluded expr
    ok (holds v)

  abbrev pub eval_where : Expr → List (Value J) → List String → Result Bool
  eval_where expr row columns = eval_where_with_excluded expr row columns none
