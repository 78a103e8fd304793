-- ===== src/Tests/Planned.antt =====
-- The theorem on plans at a query by a small index.
use moodeng_sql.Prelude.{
  ℕ, String, true, false, none, some, List, [], ◌∷◌, ◌≡◌, refl, sym, ap, arith, nat_key, string_key,
  dec_eq, inl, str_eq, if◌then◌else◌,
}
use mathlib.Core.Path.{subst}
use moodeng_sql.Prelude.Map
use moodeng_sql.Prelude.Lists.{In}
use moodeng_sql.Error.{ok}
use moodeng_sql.Types.{Row}
use moodeng_sql.Types.Value.{Value}
use moodeng_sql.Storage.Table
use moodeng_sql.Storage.Table.{TableData}
use moodeng_sql.Storage.Table.Laws.{IsValid}
use moodeng_sql.Storage.Engine.{get}
use moodeng_sql.Index.{
  BTreeIndex, IndexManager, TableIndexes, ComparableValue, index_key, row_key, lookup, get_index,
}
use moodeng_sql.Parser.Ast.{Expr, Literal, BinaryOperator}
use moodeng_sql.Parser.Eval.{
  Machine, eval_where, eval_where_with_excluded, eval_expr_with_excluded, eval_binary, values_equal,
  has_dot,
}
use moodeng_sql.Planner.{plan_scan, candidate_rows, extract_equality}
use moodeng_sql.Planner.Compared.{is_float8}
use moodeng_sql.Planner.Complete.{IsPlain, AreIndexed, IsAmong, candidate_rows-IsComplete}
use moodeng_sql.Tests.Stored.{alice, bob, users, engine, users-IsValid, users-there, alice-there}

abbrev pub machine : Machine
machine = record {
  parse_f64 = λ s. none;
  parse_i64 = λ s. if str_eq s "1" then some 1 else if str_eq s "3" then some 3 else none;
  to_uppercase = λ s. s;
  to_lowercase = λ s. s;
  add = λ x y. x;
  sub = λ x y. x;
  neg = λ x. x;
  near = λ x y. false;
}

abbrev pub columns : List String
columns = "id" ∷ "name" ∷ []

abbrev pub by_id : BTreeIndex
by_id = record {
  name = "by_id";
  columns = "ID" ∷ [];
  unique = true;
  tree = (ComparableValue.int 2 ∷ [], 2 ∷ []) ∷ (ComparableValue.int 1 ∷ [], 1 ∷ []) ∷ [];
}

abbrev pub indexes : IndexManager
indexes = ("users", ("by_id", by_id) ∷ []) ∷ []

-- `id = 1`
abbrev condition : Expr
condition =
    Expr.nested
      (Expr.binary_op (Expr.identifier "id") BinaryOperator.eq (Expr.value (Literal.number "1")))

abbrev pub json_text : String → String
json_text s = s

abbrev pub of_users : TableIndexes
of_users = ("by_id", by_id) ∷ []

pub of_users-there : Map.lookup "users" indexes ≡ some of_users
unfolding Map.insert
of_users-there = Map.lookup-insert_self "users" of_users []

bob_entry : Map.lookup (ComparableValue.int 2 ∷ []) by_id.tree ≡ some (2 ∷ [])
unfolding Map.lookup
bob_entry = ground arith

alice_entry : Map.lookup (ComparableValue.int 1 ∷ []) by_id.tree ≡ some (1 ∷ [])
unfolding Map.lookup
alice_entry = ground arith

bob_ids : lookup (row_key json_text bob.values columns by_id) by_id ≡ 2 ∷ []
unfolding lookup
bob_ids = ground (arith, bob_entry)

alice_ids : lookup (row_key json_text alice.values columns by_id) by_id ≡ 1 ∷ []
unfolding lookup
alice_ids = ground (arith, alice_entry)

indexed_row :
    (id : ℕ) (row : Row (Value String))
    → get "users" id engine ≡ some row
    → In id (lookup (row_key json_text row.values columns by_id) by_id)
unfolding get Table.get Map.lookup
indexed_row id row e = elim (dec_eq 2 id) [
  | yes same ↦
      let row_is : bob ≡ row = ground (arith, e, users-there, same) in
      subst (λ r. In id (lookup (row_key json_text r.values columns by_id) by_id)) row_is
        (subst (λ l. In id l) (sym bob_ids) (inl same))
  | no other ↦ elim (dec_eq 1 id) [
    | yes same ↦
        let row_is : alice ≡ row = ground (arith, e, users-there, same) in
        subst (λ r. In id (lookup (row_key json_text r.values columns by_id) by_id)) row_is
          (subst (λ l. In id l) (sym alice_ids) (inl same))
    | no others ↦ absurd (ground (arith, e, users-there, other, others))
  ]
]

pub indexed : AreIndexed machine json_text "users" columns indexes engine
unfolding get_index Map.lookup
indexed = record {
  distinct = λ t e.
      let same : of_users ≡ t = ground (arith, of_users-there, e) in
      subst (λ u. Map.Distinct u) same (refl, tt);
  there = λ name index id row got e. elim (dec_eq "by_id" name) [
    | yes same ↦
        let is : by_id ≡ index = ground (arith, of_users-there, got, same) in
        subst (λ i. In id (lookup (row_key json_text row.values columns i) i)) is
          (indexed_row id row e)
    | no other ↦ absurd (ground (arith, of_users-there, got, other))
  ];
}

plain : IsPlain machine json_text condition
unfolding extract_equality
plain col val e =
    let name : Path String "id" col = ground (arith, e) in
    let value : Path (Value String) (Value.int8 1) val = ground (arith, e) in
    (ap has_dot (sym name), ap is_float8 (sym value))

passes : eval_where {J = String} machine condition alice.values columns ≡ ok true
unfolding eval_where_with_excluded eval_expr_with_excluded eval_binary values_equal
passes = refl

valid : (t : TableData (Value String)) → Map.lookup "users" engine.tables ≡ some t → IsValid t
valid t e =
    let same : users ≡ t = ground (arith, users-there, e) in subst IsValid same users-IsValid

candidate_rows-IsComplete_example :
    IsAmong machine json_text
      (1, alice)
      (candidate_rows machine json_text "users" indexes engine
        (plan_scan machine "users" (some condition) indexes columns))
candidate_rows-IsComplete_example =
    candidate_rows-IsComplete machine json_text "users" condition columns indexes engine 1 alice
      indexed valid plain alice-there passes
