-- ===== src/Executor/Stored.antt =====
-- What an INSERT of moodeng-core/src/executor.rs leaves in the storage and the indexes.
use mathlib.Core.Path.{subst}
use moodeng_sql.Prelude.{
  ℕ, String, ◌≡◌, ◌≢◌, sym, ap, ◌∙◌, inl, inr, some, List, arith, nat_key, string_key, dec_eq,
  Option-cases,
}
use moodeng_sql.Prelude.Map
use moodeng_sql.Prelude.Map.{Distinct, lookup-insert_self}
use moodeng_sql.Prelude.Lists.{In}
use moodeng_sql.Error.{Result, ok, err, Result-cases}
use moodeng_sql.Types.{new}
use moodeng_sql.Types.Value.{Value, Casts}
use moodeng_sql.Storage.Table.{TableData}
use moodeng_sql.Storage.Table.Laws.{IsValid}
use moodeng_sql.Storage.Engine as Storage
use moodeng_sql.Storage.Engine.{Codecs, StorageEngine, get}
use moodeng_sql.Storage.Engine.Writes.{insert_stores}
use moodeng_sql.Index.{
  IndexManager, TableIndexes, row_key, insert_each, insert_row, lookup, get_index, index_key,
}
use moodeng_sql.Transaction.{Database}
use moodeng_sql.Parser.Eval.{Machine}
use moodeng_sql.Planner.Complete.{AreIndexed}
use moodeng_sql.Executor.Writes.{store_row}
use moodeng_sql.Executor.Indexed.{held_after, insert_each_lem, insert_each-Distinct}

module _ {J : Type 0} (json_to_string : J → String) (c : Codecs (Value J)) (m : Machine)
    (casts : Casts) where
  -- The indexes of a table after a row was put into them, over a storage with one row more.
  insert_row-AreIndexed :
      (table : String) (names : List String) (values : List (Value J)) (id : ℕ)
      (indexes : IndexManager) (e e' : StorageEngine (Value J))
      → AreIndexed m json_to_string table names indexes e
      → (insert_row json_to_string table values names id indexes).0 ≡ ok tt
      → get table id e' ≡ some (new values)
      → ((j : ℕ) → id ≢ j → get table j e' ≡ get table j e)
      → AreIndexed m json_to_string table names
          (insert_row json_to_string table values names id indexes).1
          e'
  unfolding insert_row get_index Map.lookup
  insert_row-AreIndexed table names values id indexes e e' h done own others =
      elim (Option-cases (Map.lookup table indexes)) [
        | inl f ↦
            let whole : (insert_row json_to_string table values names id indexes).1 ≡ indexes =
              ground (arith, f) in
            subst (λ i. AreIndexed m json_to_string table names i e') (sym whole)
              (record {
                distinct = h.distinct;
                there = λ name index j row got found. absurd (ground (arith, got, f));
              })
        | inr (of_table, f) ↦
            let after : TableIndexes = (insert_each json_to_string values names id of_table).1 in
            let all : (insert_each json_to_string values names id of_table).0 ≡ ok tt =
              ground (arith, f, done) in
            let whole : (insert_row json_to_string table values names id indexes).1
                ≡ Map.insert table after indexes =
              ground (arith, f) in
            let at : Map.lookup table (Map.insert table after indexes) ≡ some after =
              lookup-insert_self table after indexes in
            subst (λ i. AreIndexed m json_to_string table names i e') (sym whole)
              (record {
                distinct = λ t g.
                    let same : after ≡ t = ground (arith, at, g) in
                    subst Distinct same (
                      insert_each-Distinct json_to_string values names id of_table all
                        (h.distinct of_table f));
                there = λ name index' j row got found.
                    let (index, before, inserted, is) =
                      insert_each_lem json_to_string values names id of_table name index' all
                        (ground (arith, at, got)) in
                    let (new_held, old_held) =
                      held_after json_to_string values names id index index' inserted is in
                    elim (dec_eq id j) [
                      | yes same ↦
                          let row_is : new values ≡ row = ground (arith, own, found, same) in
                          subst
                            (λ r.
                              In j (lookup (row_key json_to_string r.values names index') index'))
                            row_is
                            (subst
                              (λ k.
                                In k (lookup (row_key json_to_string values names index') index'))
                              same new_held)
                      | no other ↦ old_held j row.values (
                          h.there name index j row (ground (arith, f, before))
                            (sym (others j other) ∙ found))
                    ];
              })
      ]

  -- The two halves of the insert of a row.
  pub store_row_lem :
      (table : String) (names : List String) (values : List (Value J)) (txn_id n : ℕ)
      (d : Database (Value J))
      → (Storage.insert c table (new values) txn_id d.storage).0 ≡ ok n
      → let (r, indexes) = insert_row json_to_string table values names n d.indexes in
        store_row json_to_string c m casts table names values txn_id d ≡ (
          elim r as (λ _. Result ℕ) [ ok _ ↦ ok n | err x ↦ err x ],
          record d {
            storage = (Storage.insert c table (new values) txn_id d.storage).1;
            indexes = indexes;
          },
        )
  unfolding store_row
  store_row_lem table names values txn_id n d e =
      elim (Result-cases (insert_row json_to_string table values names n d.indexes).0) [
        | inl (u, g) ↦ ground (arith, e, g)
        | inr (x, g) ↦ ground (arith, e, g)
      ]

  -- An INSERT that succeeds, into a table that is there and whose numbers have one row each, stores
  -- its row under the table's next number, and the indexes of the table, which held its rows
  -- before, hold all of them, the new one too; the other rows stay.
  pub store_row-AreIndexed :
      (table : String) (names : List String) (values : List (Value J)) (txn_id id : ℕ)
      (d : Database (Value J)) {t : TableData (Value J)}
      → Map.lookup table d.storage.tables ≡ some t
      → IsValid t
      → AreIndexed m json_to_string table names d.indexes d.storage
      → (store_row json_to_string c m casts table names values txn_id d).0 ≡ ok id
      → let d' = (store_row json_to_string c m casts table names values txn_id d).1 in
        (id ≡ t.next_id)
        × (get table id d'.storage ≡ some (new values))
        × ((j : ℕ) → id ≢ j → get table j d'.storage ≡ get table j d.storage)
        × AreIndexed m json_to_string table names d'.indexes d'.storage
  store_row-AreIndexed table names values txn_id id d {t} p v h done =
      let e : StorageEngine (Value J) = (Storage.insert c table (new values) txn_id d.storage).1 in
      let (r, fresh, own, others) = insert_stores c table (new values) txn_id d.storage p v in
      let whole = store_row_lem table names values txn_id t.next_id d r in
      elim (Result-cases (insert_row json_to_string table values names t.next_id d.indexes).0) [
        | inr (x, g) ↦ absurd (ground (arith, done, ap (λ y. y.0) whole, g))
        | inl (u, g) ↦
            let is : id ≡ t.next_id = ground (arith, done, ap (λ y. y.0) whole, g) in
            (
              is,
              ap (λ y. get table id y.1.storage) whole ∙ (ap (λ k. get table k e) is ∙ own),
              λ j ne.
                  ap (λ y. get table j y.1.storage) whole
                  ∙ others table j (inr (λ same. ne (is ∙ same))),
              subst (λ y. AreIndexed m json_to_string table names y.1.indexes y.1.storage)
                  (sym whole)
                  (insert_row-AreIndexed table names values t.next_id d.indexes d.storage e h g own
                    (λ j ne. others table j (inr ne))),
            )
      ]
