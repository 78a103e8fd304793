-- ===== src/Executor/Validated.antt =====
-- What the check of a row in moodeng-core/src/executor.rs lets through.
use moodeng_sql.Prelude.{
  ℕ, zero, suc, false, not, ◌&&◌, ◌+◌, ◌≡◌, ap, ◌∙◌, inl, inr, some, List, [], ◌∷◌, arith,
  Bool-cases,
}
use moodeng_sql.Prelude.Lists.{get_elem?}
use moodeng_sql.Error.{ok}
use moodeng_sql.Types.Value.{Value, ColumnDef}
use moodeng_sql.Catalog.{TableSchema}
use moodeng_sql.Parser.Eval.{is_null, unwrap_or}
use moodeng_sql.Executor.{validate_columns, validate_row}

module _ {J : Type 0} where
  validate_columns_lem :
      (from i : ℕ) (columns : List ColumnDef) (values : List (Value J)) (column : ColumnDef)
      → validate_columns from columns values ≡ ok tt
      → get_elem? columns i ≡ some column
      → column.nullable ≡ false
      → is_null (unwrap_or (get_elem? values (from + i)) Value.null) ≡ false
  unfolding validate_columns
  validate_columns_lem from i [] values column e f g = absurd (ground (arith, f))
  validate_columns_lem from zero (col ∷ columns) values column e f g =
      let same : col ≡ column = ground (arith, f) in
      let at : from + 0 ≡ from = omega arith in
      elim (Bool-cases (is_null (unwrap_or (get_elem? values from) Value.null))) [
        | inr h ↦ ap (λ n. is_null (unwrap_or (get_elem? values n) Value.null)) at ∙ h
        | inl h ↦ absurd (ground (arith, e, h, g, ap (λ c. c.nullable) same))
      ]
  validate_columns_lem from (suc i) (col ∷ columns) values column e f g =
      let rest : validate_columns (suc from) columns values ≡ ok tt =
        elim (Bool-cases
          (not col.nullable && is_null (unwrap_or (get_elem? values from) Value.null))) [
            | inl h ↦ absurd (ground (arith, e, h))
            | inr h ↦ ground (arith, e, h)
          ] in
      let at : from + suc i ≡ suc from + i = omega arith in
      ap (λ n. is_null (unwrap_or (get_elem? values n) Value.null)) at
      ∙ validate_columns_lem (suc from) i columns values column rest f g

  -- A row that passes the check has a value, and not NULL, in each column that is NOT NULL.
  pub validate_row_lem :
      (schema : TableSchema) (values : List (Value J)) (i : ℕ) (column : ColumnDef)
      → validate_row schema values ≡ ok tt
      → get_elem? schema.columns i ≡ some column
      → column.nullable ≡ false
      → is_null (unwrap_or (get_elem? values i) Value.null) ≡ false
  unfolding validate_row
  validate_row_lem schema values i column e f g =
      let at : i ≡ 0 + i = omega arith in
      ap (λ n. is_null (unwrap_or (get_elem? values n) Value.null)) at
      ∙ validate_columns_lem 0 i schema.columns values column e f g
