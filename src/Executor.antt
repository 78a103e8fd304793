-- ===== src/Executor.antt =====
-- INSERT, UPDATE and DELETE of moodeng-core/src/executor.rs, on the rows that the parser gives. One
-- thread runs a statement; the row locks, which it takes and gives back, are in Locks.
pub mod Writes
pub mod Statements
pub mod Rollback
pub mod Indexed
pub mod Stored
pub mod Schema
pub mod Queried
pub mod Validated
pub mod Dropped
pub mod Deleted
use Prim.Native.String.{◌++◌ as concat_text}
use moodeng_sql.Prelude.{
  ℕ, suc, String, Bool, true, false, not, ◌&&◌, ◌==◌, ◌+◌, Option, none, some, List, [], ◌∷◌, map,
  if◌then◌else◌, nat_key, string_key,
}
use moodeng_sql.Prelude.Lists.{length, get_elem?, set, position, filter_by}
use moodeng_sql.Prelude.Text.{eq_ignore_ascii_case}
use moodeng_sql.Error.{Result, ok, err, execution, ok_or, ◌>>=◌}
use moodeng_sql.Action.{Action, modify, pure}
use moodeng_sql.Types.{Row}
use moodeng_sql.Types as Types
use moodeng_sql.Types.Value.{Value, Casts, ColumnDef, QueryResult, coerce_to, modified}
use moodeng_sql.Storage.Engine as Storage
use moodeng_sql.Storage.Engine.{Codecs, scan}
use moodeng_sql.Index.{insert_row, remove_row, column_value, lookup_ids, key_of}
use moodeng_sql.Catalog.{TableSchema, IndexMeta, get_table, column_index}
use moodeng_sql.Transaction.{Transaction, Database, UndoRecord, note, on_storage, on_indexes}
use moodeng_sql.Transaction.Session.{Session, begin_write_txn, finish_auto_commit_if_needed}
use moodeng_sql.Parser.Ast.{Expr, Assignment, OnConflict, OnConflictAction, ConflictTarget}
use moodeng_sql.Parser.Eval.{Machine, is_null, unwrap_or, eval_where_with_excluded}
use moodeng_sql.Parser.Assigned.{assignment_value_with_excluded}

-- `Executor`, with what it borrows.
pub record Executor (V : Type 0) : Type 0 where
  pub database : Database V
  pub txn : Transaction V
  pub auto_commit : Bool
  pub active_write_txns : ℕ

-- A computation that changes nothing.
abbrev pub try : {S A : Type 0} → Result A → Action S A
try r s = (r, s)

module _ {V : Type 0} where
  -- Calls of the database, and of the session, whose log is the storage's.
  abbrev pub on_database : {A : Type 0} → Action (Database V) A → Action (Executor V) A
  on_database f e = let (r, d) = f e.database in (r, record e { database = d })

  abbrev pub on_session : {A : Type 0} → Action (Session V) A → Action (Executor V) A
  on_session f e =
      let (r, s) = f (record {
        logged = record { txn = e.txn; wal = e.database.storage.wal };
        auto_commit = e.auto_commit;
        active_write_txns = e.active_write_txns;
      }) in
      (
        r,
        record {
          database = record e.database {
            storage = record e.database.storage { wal = s.logged.wal };
          };
          txn = s.logged.txn;
          auto_commit = s.auto_commit;
          active_write_txns = s.active_write_txns;
        },
      )

  -- An undo record is kept in a transaction of the client's own.
  abbrev pub note_undo : UndoRecord V → Executor V → Executor V
  note_undo entry e =
      if e.txn.active && not e.auto_commit then record e { txn = note entry e.txn } else e

module _ {J : Type 0} where
  -- The columns from the `i`-th on.
  unfoldable pub validate_columns : ℕ → List ColumnDef → List (Value J) → Result (Unit {0})
  validate_columns i [] row_values = ok tt
  validate_columns i (col ∷ columns) row_values =
      let rest = validate_columns (suc i) columns row_values in
      if not col.nullable && is_null (unwrap_or (get_elem? row_values i) Value.null)
      then err (
          execution (
            concat_text "null value in column '"
              (concat_text col.name "' violates not-null constraint")))
      else rest

  unfoldable pub validate_row : TableSchema → List (Value J) → Result (Unit {0})
  validate_row schema row_values = validate_columns 0 schema.columns row_values

  -- The values of an INSERT for the columns from the `i`-th on; NULL where there is none.
  unfoldable pub coerce_values :
      Casts → ℕ → List ColumnDef → List (Value J) → Result (List (Value J))
  unfolding coerce_to
  coerce_values casts i [] values = ok []
  coerce_values casts i (col ∷ columns) values =
      let rest = coerce_values casts (suc i) columns values in
      (do
        val ← coerce_to casts (unwrap_or (get_elem? values i) Value.null) col.data_type
        others ← rest
        ok (val ∷ others))

unfoldable pub resolve_conflict_columns : TableSchema → OnConflict → Result (List String)
resolve_conflict_columns schema conflict = elim conflict.conflict_target [
  | none ↦
      let pk = map (λ c. c.name) (filter_by (λ c. c.primary_key) schema.columns) in
      if length pk == 0
      then err (execution "ON CONFLICT requires a PRIMARY KEY or explicit conflict target")
      else ok pk
  | some (ConflictTarget.columns idents) ↦ ok idents
  | some ConflictTarget.on_constraint ↦ err (execution "ON CONFLICT ON CONSTRAINT is not supported")
]

-- `zip` and `all`
abbrev pub same_names : List String → List String → Bool
same_names [] names = true
same_names (a ∷ rest) [] = true
same_names (a ∷ rest) (b ∷ names) = eq_ignore_ascii_case a b && same_names rest names

unfoldable pub find_unique_index : List IndexMeta → List String → Option String
find_unique_index [] cols = none
find_unique_index (idx ∷ indexes) cols =
    let rest = find_unique_index indexes cols in
    if idx.unique && (length idx.columns == length cols && same_names idx.columns cols)
    then some idx.name
    else rest

-- `join(", ")`
unfoldable pub join : List String → String
join [] = ""
join (x ∷ []) = x
join (x ∷ y ∷ xs) = concat_text x (concat_text ", " (join (y ∷ xs)))
