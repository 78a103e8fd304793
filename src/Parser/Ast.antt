-- ===== src/Parser/Ast.antt =====
-- The syntax tree of the third-party parser `sqlparser`, in the constructors that
-- moodeng-core/src/parser.rs and planner.rs match on. All the others are `other`, `no_list` and
-- `other_arg`.
use moodeng_sql.Prelude.{String, Bool, Option, List}

pub data Literal : Type 0 where
  number : String → Literal
  single_quoted_string double_quoted_string : String → Literal
  boolean : Bool → Literal
  null : Literal
  other : (debug : String) → Literal

pub data BinaryOperator : Type 0 where
  plus minus multiply string_concat : BinaryOperator
  eq not_eq lt lt_eq gt gt_eq : BinaryOperator
  and or other : BinaryOperator

pub data UnaryOperator : Type 0 where
  not minus other : UnaryOperator

mutual
  pub data Expr : Type 0 where
    value : Literal → Expr
    identifier : String → Expr
    compound_identifier : List String → Expr
    binary_op : Expr → BinaryOperator → Expr → Expr
    unary_op : UnaryOperator → Expr → Expr
    is_null is_not_null nested : Expr → Expr
    function : (name : String) → FunctionArguments → Expr
    other : Expr

  pub data FunctionArguments : Type 0 where
    list : FunctionArgs → FunctionArguments
    no_list : FunctionArguments

  pub data FunctionArgs : Type 0 where
    nil : FunctionArgs
    cons : FunctionArg → FunctionArgs → FunctionArgs

  pub data FunctionArg : Type 0 where
    unnamed : Expr → FunctionArg
    wildcard : FunctionArg
    other_arg : FunctionArg

-- Names are lists of their parts.
pub data AssignmentTarget : Type 0 where
  column_name : List String → AssignmentTarget
  tuple : List (List String) → AssignmentTarget

pub record Assignment : Type 0 where
  pub target : AssignmentTarget
  pub value : Expr

pub data ConflictTarget : Type 0 where
  columns : List String → ConflictTarget
  on_constraint : ConflictTarget

pub data OnConflictAction : Type 0 where
  do_nothing : OnConflictAction
  do_update : (assignments : List Assignment) → (selection : Option Expr) → OnConflictAction

pub record OnConflict : Type 0 where
  pub conflict_target : Option ConflictTarget
  pub action : OnConflictAction
