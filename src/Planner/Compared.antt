-- ===== src/Planner/Compared.antt =====
-- Equal values of moodeng-core/src/parser.rs and their keys in an index.
use text.Mathlib.TextEquality.{eq_iff}
use moodeng_sql.Prelude.{
  ℕ, String, Bool, true, false, ◌&&◌, ◌||◌, ◌≡◌, refl, ap, sym, ◌∙◌, inl, inr, some, arith,
  Bool-cases, Option-cases,
}
use moodeng_sql.Types.Value.{Value}
use moodeng_sql.Index.{ComparableValue, comparable}
use moodeng_sql.Parser.Ast.{BinaryOperator}
use moodeng_sql.Parser.Eval.{
  Machine, as_i64, same_values, values_equal, eval_binary, eval_values, is_null, holds,
}

abbrev pub is_float8 : {J : Type 0} → Value J → Bool
is_float8 (Value.float8 n) = true
is_float8 v = false

module _ {J : Type 0} (m : Machine) (json_to_string : J → String) where
  same_values-comparable :
      (a b : Value J)
      → same_values m a b ≡ true
      → (is_float8 a && is_float8 b) ≡ false
      → comparable json_to_string a ≡ comparable json_to_string b
  same_values-comparable (Value.text x) (Value.text y) e f =
      ap ComparableValue.text ((eq_iff x y).0 e)
  same_values-comparable (Value.bool true) (Value.bool b) e f = ap ComparableValue.bool (sym e)
  same_values-comparable (Value.bool false) (Value.bool true) e f = absurd (ground (arith, e))
  same_values-comparable (Value.bool false) (Value.bool false) e f = refl
  same_values-comparable (Value.float8 x) (Value.float8 y) e f = absurd (ground (arith, f))
  same_values-comparable Value.null Value.null e f = refl
  same_values-comparable a b e f = absurd (ground (arith, e))

  as_i64-comparable :
      (a : Value J) (n : ℕ)
      → as_i64 a ≡ some n
      → comparable json_to_string a ≡ ComparableValue.int n
  as_i64-comparable (Value.int4 k) n e = ap ComparableValue.int (ground (arith, e))
  as_i64-comparable (Value.int8 k) n e = ap ComparableValue.int (ground (arith, e))
  as_i64-comparable a n e = absurd (ground (arith, e))

  -- Values that are equal have the same key in an index, two floats aside.
  pub values_equal-comparable :
      (a b : Value J)
      → values_equal m a b ≡ true
      → (is_float8 a && is_float8 b) ≡ false
      → comparable json_to_string a ≡ comparable json_to_string b
  unfolding values_equal
  values_equal-comparable a b e f = elim (Option-cases (as_i64 a)) [
    | inl x ↦ same_values-comparable a b (ground (arith, e, x)) f
    | inr (n, x) ↦ elim (Option-cases (as_i64 b)) [
      | inl y ↦ same_values-comparable a b (ground (arith, e, x, y)) f
      | inr (k, y) ↦
          as_i64-comparable a n x
          ∙ (ap ComparableValue.int (ground (arith, e, x, y)) ∙ sym (as_i64-comparable b k y))
    ]
  ]

  pub eval_values_eq :
      (l r : Value J) → eval_values m l BinaryOperator.eq r ≡ Value.bool (values_equal m l r)
  eval_values_eq (Value.int4 a) r = refl
  eval_values_eq l r = refl

  -- An equation that holds is between values with the same key in an index.
  pub eval_binary-eq :
      (l r : Value J)
      → holds (eval_binary m l BinaryOperator.eq r) ≡ true
      → (is_float8 l && is_float8 r) ≡ false
      → comparable json_to_string l ≡ comparable json_to_string r
  unfolding eval_binary
  eval_binary-eq l r e f = elim (Bool-cases (is_null l || is_null r)) [
    | inl n ↦ absurd (ground (arith, e, n))
    | inr n ↦ values_equal-comparable l r (ground (arith, e, n, eval_values_eq l r)) f
  ]
