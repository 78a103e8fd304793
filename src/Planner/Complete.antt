-- ===== src/Planner/Complete.antt =====
-- The plans of moodeng-core/src/planner.rs lose no row: a query by an index gives the rows that a
-- query of the whole table gives.
use mathlib.Core.Path.{subst}
use moodeng_sql.Prelude.{
  ℕ, String, true, false, not, ◌≡◌, refl, ap, sym, ◌∙◌, inl, inr, some, List, [], ◌∷◌, arith,
  Bool-cases, Option-cases, string_key, nat_key, dec_eq, map,
}
use moodeng_sql.Prelude.Map
use moodeng_sql.Prelude.Map.{Map, Distinct}
use moodeng_sql.Prelude.Lists.{In, all}
use moodeng_sql.Prelude.Text.{eq_ignore_ascii_case}
use moodeng_sql.Error.{Result, ok, Result-cases}
use moodeng_sql.Types.{Row}
use moodeng_sql.Types.Value.{Value}
use moodeng_sql.Storage.Table
use moodeng_sql.Storage.Table.{TableData}
use moodeng_sql.Storage.Table.Laws.{IsValid, scan_lem}
use moodeng_sql.Storage.Engine.{StorageEngine, get, scan, fetch_rows, fetch_by_ids}
use moodeng_sql.Index
use moodeng_sql.Index.{
  BTreeIndex, IndexManager, TableIndexes, IndexKey, comparable, row_key, key_of, lookup, get_index,
  find_index_for_column, lookup_ids,
}
use moodeng_sql.Parser.Ast.{Expr, BinaryOperator}
use moodeng_sql.Parser.Eval.{
  Machine, column_value, has_dot, eval_where, eval_where_with_excluded, eval_expr_with_excluded,
  from_sql_literal, holds, eval_binary,
}
use moodeng_sql.Planner.{ScanPlan, extract_equality, plan_scan, candidate_rows}
use moodeng_sql.Planner.Compared.{is_float8, eval_binary-eq}
use moodeng_sql.Planner.Found.{column_value-column_value, find_index_for_column_lem}

module _ {J : Type 0} (m : Machine) (json_to_string : J → String) where
  -- The equation that a condition consists of, if it does, has no float and no quoted name with a
  -- dot in it.
  abbrev pub IsPlain : Expr → Type 0
  IsPlain w =
      (col : String) (val : Value J)
      → extract_equality m w ≡ some (col, val)
      → (has_dot col ≡ false) × (is_float8 val ≡ false)

  -- What the equation of a condition says of a row that passes it.
  pub extract_equality_lem :
      (w : Expr) (col : String) (val : Value J) (row : List (Value J)) (columns : List String)
      → extract_equality m w ≡ some (col, val)
      → is_float8 val ≡ false
      → eval_where m w row columns ≡ ok true
      → (v : Value J) × (column_value col row columns ≡ ok v)
        × (comparable json_to_string v ≡ comparable json_to_string val)
  unfolding extract_equality eval_where_with_excluded eval_expr_with_excluded
  extract_equality_lem (Expr.binary_op (Expr.identifier name) BinaryOperator.eq (Expr.value l)) col
        val row columns e f h =
      let same_name : name ≡ col = ground (arith, e) in
      let same_value : from_sql_literal m l ≡ val = ground (arith, e) in
      elim (Result-cases (column_value name row columns)) [
        | inr (x, g) ↦ absurd (ground (arith, g, h))
        | inl (v, g) ↦
            let passes : holds (eval_binary m v BinaryOperator.eq val) ≡ true =
              ground (arith, g, h, same_value) in
            (
              v,
              ap (λ n. column_value n row columns) (sym same_name) ∙ g,
              eval_binary-eq m json_to_string v val passes (ground (arith, f)),
            )
      ]
  extract_equality_lem (Expr.binary_op (Expr.value l) BinaryOperator.eq (Expr.identifier name)) col
        val row columns e f h =
      let same_name : name ≡ col = ground (arith, e) in
      let same_value : from_sql_literal m l ≡ val = ground (arith, e) in
      elim (Result-cases (column_value name row columns)) [
        | inr (x, g) ↦ absurd (ground (arith, g, h))
        | inl (v, g) ↦
            let passes : holds (eval_binary m val BinaryOperator.eq v) ≡ true =
              ground (arith, g, h, same_value) in
            (
              v,
              ap (λ n. column_value n row columns) (sym same_name) ∙ g,
              sym (eval_binary-eq m json_to_string val v passes (ground (arith, f))),
            )
      ]
  extract_equality_lem (Expr.nested inner) col val row columns e f h =
      extract_equality_lem inner col val row columns e f h
  extract_equality_lem w col val row columns e f h = absurd (ground (arith, e))

  -- The indexes of a table hold all of its rows, each under its own key.
  pub record AreIndexed (table : String) (columns : List String) (indexes : IndexManager)
      (storage : StorageEngine (Value J)) : Type 0 where
    pub distinct :
        (of_table : TableIndexes) → Map.lookup table indexes ≡ some of_table → Distinct of_table
    pub there :
        (name : String) (index : BTreeIndex) (id : ℕ) (row : Row (Value J))
        → get_index table name indexes ≡ some index
        → get table id storage ≡ some row
        → In id (lookup (row_key json_to_string row.values columns index) index)

  In-lookup_entry :
      {V : Type 0} (id : ℕ) (v : V) (rows : Map ℕ V) → Map.lookup id rows ≡ some v → In (id, v) rows
  unfolding Map.lookup
  In-lookup_entry id v [] e = absurd (ground (arith, e))
  In-lookup_entry id v ((k, w) ∷ rows) e = elim (dec_eq k id) [
    | yes same ↦ inl (ground (arith, same, e))
    | no other ↦ inr (In-lookup_entry id v rows (ground (arith, other, e)))
  ]

  In-fetch_rows :
      {V : Type 0} (t : TableData V) (id : ℕ) (row : Row V) (ids : List ℕ)
      → Table.get id t ≡ some row
      → In id ids
      → In (id, row) (fetch_rows t ids)
  In-fetch_rows t id row [] e h = elim h [ ]
  In-fetch_rows t id row (k ∷ ids) e (inl same) =
      let whole : fetch_rows t (k ∷ ids) ≡ (k, row) ∷ fetch_rows t ids = ground (arith, same, e) in
      subst (λ l. In (id, row) l) (sym whole) (inl (ap (λ i. (i, row)) same))
  In-fetch_rows t id row (k ∷ ids) e (inr later) =
      let rest = In-fetch_rows t id row ids e later in
      elim (Option-cases (Table.get k t)) [
        | inl f ↦
            let whole : fetch_rows t (k ∷ ids) ≡ fetch_rows t ids = ground (arith, f) in
            subst (λ l. In (id, row) l) (sym whole) rest
        | inr (r, f) ↦
            let whole : fetch_rows t (k ∷ ids) ≡ (k, r) ∷ fetch_rows t ids = ground (arith, f) in
            subst (λ l. In (id, row) l) (sym whole) (inr rest)
      ]

  scanned :
      (table : String) (storage : StorageEngine (Value J)) (id : ℕ) (row : Row (Value J))
      → ((t : TableData (Value J)) → Map.lookup table storage.tables ≡ some t → IsValid t)
      → get table id storage ≡ some row
      → In (id, row) (scan table storage)
  unfolding get scan
  scanned table storage id row valid e = elim (Option-cases (Map.lookup table storage.tables)) [
    | inl f ↦ absurd (ground (arith, e, f))
    | inr (t, f) ↦
        let whole : scan table storage ≡ Table.scan t = ground (arith, f) in
        let found : Table.get id t ≡ some row = ground (arith, e, f) in
        subst (λ l. In (id, row) l) (sym whole)
          (In-lookup_entry id row (Table.scan t) ((scan_lem t (valid t f)).1 id ∙ found))
  ]

  fetched :
      (table : String) (storage : StorageEngine (Value J)) (id : ℕ) (row : Row (Value J))
      (ids : List ℕ)
      → get table id storage ≡ some row
      → In id ids
      → (rows : List (ℕ × Row (Value J))) × (fetch_by_ids table ids storage ≡ ok rows)
        × In (id, row) rows
  unfolding get fetch_by_ids
  fetched table storage id row ids e h = elim (Option-cases (Map.lookup table storage.tables)) [
    | inl f ↦ absurd (ground (arith, e, f))
    | inr (t, f) ↦
        (fetch_rows t ids, ground (arith, f), In-fetch_rows t id row ids (ground (arith, e, f)) h)
  ]

  -- The rows that a query looks at, one of them being this one.
  abbrev pub IsAmong : ℕ × Row (Value J) → Result (List (ℕ × Row (Value J))) → Type 0
  IsAmong entry candidates =
      (rows : List (ℕ × Row (Value J))) × (candidates ≡ ok rows) × In entry rows

  -- The index that a plan names holds a row that passes the condition, under the condition's key.
  found :
      (table : String) (w : Expr) (columns : List String) (indexes : IndexManager)
      (storage : StorageEngine (Value J)) (id : ℕ) (row : Row (Value J))
      → AreIndexed table columns indexes storage
      → IsPlain w
      → get table id storage ≡ some row
      → eval_where m w row.values columns ≡ ok true
      → (col : String) (val : Value J) (name : String) → extract_equality m w ≡ some (col, val)
      → find_index_for_column table col indexes ≡ some name
      → (index : BTreeIndex) × (get_index table name indexes ≡ some index)
        × IsAmong
            (id, row)
            (fetch_by_ids table (lookup (comparable json_to_string val ∷ []) index) storage)
  found table w columns indexes storage id row indexed plain there passes col val name e g =
      let (index, got, is_for) =
        find_index_for_column_lem table col name indexes (indexed.distinct) g in
      let (v, at, key) =
        extract_equality_lem w col val row.values columns e (plain col val e).1 passes in
      let column : Index.column_value json_to_string row.values columns is_for.own ≡ v =
        column_value-column_value json_to_string col is_for.own row.values columns v
          (plain col val e).0 is_for.same at in
      let same_key : row_key json_to_string row.values columns index
          ≡ comparable json_to_string val ∷ [] =
        ap
          (λ own.
            key_of json_to_string (map (Index.column_value json_to_string row.values columns) own))
          is_for.columns
        ∙ (ap (λ x. comparable json_to_string x ∷ []) column ∙ ap (λ k. k ∷ []) key) in
      let ids : In id (lookup (comparable json_to_string val ∷ []) index) =
        subst (λ k. In id (lookup k index)) same_key (indexed.there name index id row got there) in
      (
        index,
        got,
        fetched table storage id row (lookup (comparable json_to_string val ∷ []) index) there ids,
      )

  -- The rows of a table that pass a condition are among the rows that the planned query looks at,
  -- whether the plan is to scan the table or to look in an index. The indexes hold the table's
  -- rows, each number has one row, and if the condition is an equation of a column and a literal,
  -- then the literal is no float and the column's name has no dot.
  pub candidate_rows-IsComplete :
      (table : String) (w : Expr) (columns : List String) (indexes : IndexManager)
      (storage : StorageEngine (Value J)) (id : ℕ) (row : Row (Value J))
      → AreIndexed table columns indexes storage
      → ((t : TableData (Value J)) → Map.lookup table storage.tables ≡ some t → IsValid t)
      → IsPlain w
      → get table id storage ≡ some row
      → eval_where m w row.values columns ≡ ok true
      → IsAmong
          (id, row)
          (candidate_rows m json_to_string table indexes storage
            (plan_scan m table (some w) indexes columns))
  unfolding plan_scan candidate_rows lookup_ids
  candidate_rows-IsComplete table w columns indexes storage id row indexed valid plain there
        passes =
      let candidates : ScanPlan J → Result (List (ℕ × Row (Value J))) =
        candidate_rows m json_to_string table indexes storage in
      let plan : ScanPlan J = plan_scan m table (some w) indexes columns in
      let by_scan = λ (e : plan ≡ ScanPlan.full_scan).
        subst (λ p. IsAmong (id, row) (candidates p)) (sym e)
          (scan table storage, refl, scanned table storage id row valid there) in
      elim (Option-cases (extract_equality {J = J} m w)) [
        | inl e ↦ by_scan (ground (arith, e))
        | inr ((col, val), e) ↦
            elim (Bool-cases (all (λ c. not (eq_ignore_ascii_case c col)) columns)) [
              | inl f ↦ by_scan (ground (arith, e, f))
              | inr f ↦ elim (Option-cases (find_index_for_column table col indexes)) [
                | inl g ↦ by_scan (ground (arith, e, f, g))
                | inr (name, g) ↦
                    let (index, got, h) =
                      found table w columns indexes storage id row indexed plain there passes col
                        val name e g in
                    let planned : plan ≡ ScanPlan.index_lookup name (val ∷ []) =
                      ground (arith, e, f, g) in
                    let looked_up : candidates (ScanPlan.index_lookup name (val ∷ []))
                        ≡ fetch_by_ids table (lookup (comparable json_to_string val ∷ []) index)
                            storage =
                      ground (arith, got) in
                    subst (IsAmong (id, row)) (sym (ap candidates planned ∙ looked_up)) h
              ]
            ]
      ]
