-- ===== src/Executor/Deleted.antt =====
-- What a DELETE of moodeng-core/src/executor.rs leaves in the storage and the indexes.
use mathlib.Core.Path.{subst}
use moodeng_sql.Prelude.{
  ℕ, String, ◌≡◌, ◌≢◌, refl, sym, ap, ◌∙◌, inl, inr, none, some, List, arith, nat_key, string_key,
  dec_eq, ite, if_pos, Option-cases, Bool-cases,
}
use moodeng_sql.Prelude.Map
use moodeng_sql.Prelude.Map.{Distinct, lookup-insert, lookup-insert_self}
use moodeng_sql.Types.{Row}
use moodeng_sql.Types.Value.{Value, Casts}
use moodeng_sql.Storage.Table
use moodeng_sql.Storage.Table.{TableData}
use moodeng_sql.Storage.Table.Laws.{get-delete}
use moodeng_sql.Storage.Engine as Storage
use moodeng_sql.Storage.Engine.{Codecs, StorageEngine, get, set_table}
use moodeng_sql.Storage.Engine.Writes.{written, get-written, delete_lem}
use moodeng_sql.Wal.Defs.{WalOp}
use moodeng_sql.Index.{IndexManager, TableIndexes, remove_each, remove_row, get_index, index_key}
use moodeng_sql.Transaction.{Database}
use moodeng_sql.Parser.Eval.{Machine}
use moodeng_sql.Planner.Complete.{AreIndexed}
use moodeng_sql.Executor.Writes.{drop_row}
use moodeng_sql.Executor.Dropped.{left_after, remove_each_lem, remove_each-Distinct}

module _ {V : Type 0} (c : Codecs V) where
  -- The rows of a table after the storage's `delete`.
  get-delete_stored :
      (table : String) (id txn_id : ℕ) (e : StorageEngine V) {t : TableData V}
      → Map.lookup table e.tables ≡ some t
      → (j : ℕ)
      → get table j (Storage.delete c table id txn_id e).1 ≡ ite (dec_eq id j) none (get table j e)
  unfolding get
  get-delete_stored table id txn_id e {t} p j =
      let t' : TableData V = (Table.delete id t).1 in
      let before : get table j e ≡ Table.get j t = ground (arith, p) in
      let row : Table.get j t' ≡ ite (dec_eq id j) none (get table j e) =
        get-delete id t j ∙ ap (λ r. ite (dec_eq id j) none r) (sym before) in
      elim (Bool-cases (Table.delete id t).0) [
        | inl f ↦
            let op : WalOp V = WalOp.delete txn_id table id in
            let whole : (Storage.delete c table id txn_id e).1 ≡ written c table t' op e =
              ground (arith, delete_lem c table id txn_id e p, f) in
            ap (λ x. get table j x) whole
            ∙ (get-written c table t' op e table j ∙ (if_pos (dec_eq table table) refl _ _ ∙ row))
        | inr f ↦
            let whole : (Storage.delete c table id txn_id e).1 ≡ set_table table t' e =
              ground (arith, delete_lem c table id txn_id e p, f) in
            ap (λ x. get table j x) whole
            ∙ (ground (arith, lookup-insert_self table t' e.tables) ∙ row)
      ]

module _ {J : Type 0} (json_to_string : J → String) (c : Codecs (Value J)) (m : Machine)
    (casts : Casts) where
  -- The indexes of a table after a row was taken from them, over a storage without the row.
  remove_row-AreIndexed :
      (table : String) (names : List String) (values : List (Value J)) (id : ℕ)
      (indexes : IndexManager) (e e' : StorageEngine (Value J))
      → AreIndexed m json_to_string table names indexes e
      → ((j : ℕ) → get table j e' ≡ ite (dec_eq id j) none (get table j e))
      → AreIndexed m json_to_string table names
          (remove_row json_to_string table values names id indexes)
          e'
  unfolding remove_row get_index Map.lookup
  remove_row-AreIndexed table names values id indexes e e' h rows =
      let other_row = λ (j : ℕ) (row : Row (Value J)) (f : get table j e' ≡ some row).
        elim (dec_eq id j) as (λ _. (id ≢ j) × (get table j e ≡ some row)) [
          | yes same ↦ absurd (ground (arith, f, rows j, same))
          | no ne ↦ (ne, ground (arith, f, rows j, ne))
        ] in
      elim (Option-cases (Map.lookup table indexes)) [
        | inl f ↦
            let whole : remove_row json_to_string table values names id indexes ≡ indexes =
              ground (arith, f) in
            subst (λ i. AreIndexed m json_to_string table names i e') (sym whole)
              (record {
                distinct = h.distinct;
                there = λ name index j row got found. absurd (ground (arith, got, f));
              })
        | inr (of_table, f) ↦
            let after : TableIndexes = remove_each json_to_string values names id of_table in
            let whole : remove_row json_to_string table values names id indexes
                ≡ Map.insert table after indexes =
              ground (arith, f) in
            let at : Map.lookup table (Map.insert table after indexes) ≡ some after =
              lookup-insert_self table after indexes in
            subst (λ i. AreIndexed m json_to_string table names i e') (sym whole)
              (record {
                distinct = λ t g.
                    let same : after ≡ t = ground (arith, at, g) in
                    subst Distinct same (
                      remove_each-Distinct json_to_string values names id of_table
                        (h.distinct of_table f));
                there = λ name index' j row got found.
                    let (index, before, is) =
                      remove_each_lem json_to_string values names id of_table name index'
                        (ground (arith, at, got)) in
                    let (ne, was) = other_row j row found in
                    left_after json_to_string values names id index index' is j row.values ne
                      (h.there name index j row (ground (arith, f, before)) was);
              })
      ]

  -- A DELETE takes its row out of the storage, whatever row it takes out of the indexes; the other
  -- rows stay, in the storage and in the indexes, which held them before.
  pub drop_row-AreIndexed :
      (table : String) (names : List String) (id : ℕ) (row : Row (Value J)) (txn_id : ℕ)
      (d : Database (Value J)) {t : TableData (Value J)}
      → Map.lookup table d.storage.tables ≡ some t
      → AreIndexed m json_to_string table names d.indexes d.storage
      → let d' = (drop_row json_to_string c m casts table names id row txn_id d).1 in
        ((j : ℕ) → get table j d'.storage ≡ ite (dec_eq id j) none (get table j d.storage))
        × AreIndexed m json_to_string table names d'.indexes d'.storage
  drop_row-AreIndexed table names id row txn_id d p h =
      let e : StorageEngine (Value J) = (Storage.delete c table id txn_id d.storage).1 in
      let rows = get-delete_stored c table id txn_id d.storage p in
      let whole : (drop_row json_to_string c m casts table names id row txn_id d).1 ≡ record d {
        storage = e;
        indexes = remove_row json_to_string table row.values names id d.indexes;
      } =
        unfold drop_row in refl in
      (
        λ j. ap (λ x. get table j x.storage) whole ∙ rows j,
        subst (λ x. AreIndexed m json_to_string table names x.indexes x.storage) (sym whole)
            (remove_row-AreIndexed table names row.values id d.indexes d.storage e h rows),
      )
