-- ===== src/Executor/Queried.antt =====
-- An INSERT and a SELECT after it, of moodeng-core/src/executor.rs.
use mathlib.Core.Path.{subst}
use moodeng_sql.Prelude.{
  ℕ, String, ◌+◌, ◌<◌, ◌^◌, ◌≡◌, sym, ap, ◌∙◌, true, some, List, arith, nat_key, string_key,
}
use moodeng_sql.Prelude.Map
use moodeng_sql.Prelude.Map.{lookup-insert_self}
use moodeng_sql.Error.{ok}
use moodeng_sql.Types.{Row, new}
use moodeng_sql.Types.Value.{Value, Casts}
use moodeng_sql.Storage.Table
use moodeng_sql.Storage.Table.{TableData}
use moodeng_sql.Storage.Table.Laws.{IsValid, insert-IsValid}
use moodeng_sql.Storage.Engine as Storage
use moodeng_sql.Storage.Engine.{Codecs, StorageEngine}
use moodeng_sql.Storage.Engine.Writes.{insert_stores, insert_lem, tables-written}
use moodeng_sql.Wal.Defs.{WalOp}
use moodeng_sql.Transaction.{Database}
use moodeng_sql.Parser.Ast.{Expr}
use moodeng_sql.Parser.Eval.{Machine, eval_where}
use moodeng_sql.Planner.{plan_scan, candidate_rows}
use moodeng_sql.Planner.Complete.{AreIndexed, IsPlain, IsAmong, candidate_rows-IsComplete}
use moodeng_sql.Executor.Writes.{store_row}
use moodeng_sql.Executor.Stored.{store_row_lem, store_row-AreIndexed}

module _ {J : Type 0} (json_to_string : J → String) (c : Codecs (Value J)) (m : Machine)
    (casts : Casts) where
  -- The table after the storage's `insert` has one number for each row.
  inserted-IsValid :
      (table : String) (row : Row (Value J)) (txn_id : ℕ) (e : StorageEngine (Value J))
      {t : TableData (Value J)}
      → Map.lookup table e.tables ≡ some t
      → t.next_id + 1 < 2 ^ 64
      → IsValid t
      → (u : TableData (Value J))
      → Map.lookup table (Storage.insert c table row txn_id e).1.tables ≡ some u
      → IsValid u
  inserted-IsValid table row txn_id e {t} p room v u f =
      let t' : TableData (Value J) = (Table.insert row t).1 in
      let op : WalOp (Value J) = WalOp.insert txn_id table t.next_id row in
      let whole : (Storage.insert c table row txn_id e).1.tables ≡ Map.insert table t' e.tables =
        ground (arith, insert_lem c table row txn_id e, p, tables-written c table t' op e) in
      let same : t' ≡ u = ground (arith, f, whole, lookup-insert_self table t' e.tables) in
      subst IsValid same (insert-IsValid row t room v)

  -- A row that an INSERT stored is among the rows that the next query looks at, when the row
  -- passes the query's condition, by whatever index the query is planned. Before the INSERT, each
  -- number of the table had one row, there was a number left, and the indexes held the rows; and if
  -- the condition is an equation of a column and a literal, then the literal is no float and the
  -- column's name has no dot.
  pub insert_then_select :
      (table : String) (names : List String) (values : List (Value J)) (txn_id id : ℕ) (w : Expr)
      (d : Database (Value J)) {t : TableData (Value J)}
      → Map.lookup table d.storage.tables ≡ some t
      → t.next_id + 1 < 2 ^ 64
      → IsValid t
      → AreIndexed m json_to_string table names d.indexes d.storage
      → (store_row json_to_string c m casts table names values txn_id d).0 ≡ ok id
      → IsPlain m json_to_string w
      → eval_where m w values names ≡ ok true
      → let d' = (store_row json_to_string c m casts table names values txn_id d).1 in
        IsAmong m json_to_string
          (id, new values)
          (candidate_rows m json_to_string table d'.indexes d'.storage
            (plan_scan m table (some w) d'.indexes names))
  insert_then_select table names values txn_id id w d {t} p room v h done plain passes =
      let d' : Database (Value J) =
        (store_row json_to_string c m casts table names values txn_id d).1 in
      let (is, there, others, indexed) =
        store_row-AreIndexed json_to_string c m casts table names values txn_id id d p v h done in
      let stored : d'.storage ≡ (Storage.insert c table (new values) txn_id d.storage).1 =
        ap (λ x. x.1.storage)
          (store_row_lem json_to_string c m casts table names values txn_id t.next_id d
            (insert_stores c table (new values) txn_id d.storage p v).0) in
      candidate_rows-IsComplete m json_to_string table w names d'.indexes d'.storage id (new values)
        indexed
        (λ u f.
          inserted-IsValid table (new values) txn_id d.storage p room v u
            (ap (λ s. Map.lookup table s.tables) (sym stored) ∙ f))
        plain there passes
