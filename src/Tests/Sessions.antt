-- ===== src/Tests/Sessions.antt =====
-- The theorems on values, indexes, the catalog and transactions at small inputs.
use mathlib.Core.List.{reverse}
use moodeng_sql.Prelude.{
  false, ℕ, String, ◌++◌, ◌⊎◌, str_eq, true, some, [], ◌∷◌, ◌≡◌, refl, arith, ite, dec_eq, suc_u64,
  string_key, nat_key,
}
use moodeng_sql.Prelude.Map
use moodeng_sql.Prelude.Lists.{length, any}
use moodeng_sql.Error.{ok, err, execution, duplicate_key, table_not_found, index_exists}
use moodeng_sql.Types.Value.{
  Value, DataType, Casts, coerce_to, sign_extend, IsHeld, coerce_to-IsHeld,
}
use moodeng_sql.Wal.Defs.{WalOp}
use moodeng_sql.Wal.Log
use moodeng_sql.Storage.Table
use moodeng_sql.Storage.Engine
use moodeng_sql.Storage.Engine.{StorageEngine, get}
use moodeng_sql.Storage.Engine.Writes.{versioned}
use moodeng_sql.Index.{IndexKey, index_key, BTreeIndex, ComparableValue}
use moodeng_sql.Index
use moodeng_sql.Index.Laws.{IsUnique, insert-IsUnique}
use moodeng_sql.Catalog
use moodeng_sql.Catalog.{Catalog, TableSchema, IndexMeta, get_table}
use moodeng_sql.Catalog.Laws.{
  create_table-IsValid, drop_table-IsValid, add_index-IsValid, load_tables-IsValid,
}
use moodeng_sql.Transaction.{Logged, Database, UndoRecord, new, rollback, apply_undo}
use moodeng_sql.Transaction.Laws.{noted, rollback-noted}
use moodeng_sql.Transaction.Session.{
  Session, begin_write_txn, finish_auto_commit_if_needed, auto_commit_lem,
}
use moodeng_sql.Transaction.Undone.{undo_delete_restores, undo_update_restores}
use moodeng_sql.Tests.Coder.{codecs}
use moodeng_sql.Tests.Stored.{alice, bob, users, fresh_log, engine, users-there}

abbrev casts : Casts
casts = record { i32_to_f64 = λ n. n; i64_to_f64 = λ n. n; f32_to_f64 = λ n. n }

abbrev wide : Value String
wide = Value.int8 (sign_extend 4294967295)

coerced : coerce_to casts (Value.int4 4294967295) DataType.int8 ≡ ok wide
unfolding coerce_to
coerced = refl

coerce_to-IsHeld_example : IsHeld casts wide DataType.int8
coerce_to-IsHeld_example = coerce_to-IsHeld casts (Value.int4 4294967295) wide DataType.int8 coerced

abbrev by_id : BTreeIndex
by_id = record { name = "by_id"; columns = "id" ∷ []; unique = true; tree = [] }

abbrev one : IndexKey
one = ComparableValue.int 1 ∷ []

-- An index that has a row under this key.
abbrev taken : BTreeIndex
taken = record by_id { tree = (one, 7 ∷ []) ∷ [] }

insert-IsUnique_example :
    IsUnique (Index.insert one 1 taken).1
    × ((Index.lookup one taken ≡ [])
          × ((Index.insert one 1 taken).0 ≡ ok tt)
          × ((k : IndexKey)
              → Index.lookup k (Index.insert one 1 taken).1
                ≡ ite (dec_eq one k) (1 ∷ []) (Index.lookup k taken))
        ⊎ (length (Index.lookup one taken) ≡ 1)
          × (Index.insert one 1 taken ≡ (err (duplicate_key (Index.violation "by_id")), taken)))
insert-IsUnique_example = insert-IsUnique one 1 taken refl (refl, tt)

-- A catalog with a table.
abbrev schema : TableSchema
schema = record { name = "users"; columns = []; indexes = [] }

abbrev known : Catalog
known = record {
  tables = ("users", schema) ∷ [];
  stats = record { table_count = 1; total_indexes = 0 };
}

known-IsValid : moodeng_sql.Catalog.Laws.IsValid known
unfolding Map.lookup
known-IsValid = record { distinct = (refl, tt); named = (refl, tt); counted = refl }

create_table-IsValid_example :
    moodeng_sql.Catalog.Laws.IsValid (Catalog.create_table "orders" [] known).1
    × ((get_table "orders" known ≡ err (table_not_found "orders"))
          × ((Catalog.create_table "orders" [] known).0 ≡ ok tt)
          × ((k : String)
              → get_table k (Catalog.create_table "orders" [] known).1
                ≡ ite
                    (dec_eq {K = String} "orders" k)
                    (ok (record { name = "orders"; columns = []; indexes = [] }))
                    (get_table k known))
        ⊎ (found : TableSchema) × (get_table "orders" known ≡ ok found)
          × (Catalog.create_table "orders" [] known
              ≡ (err (execution (Catalog.quoted "orders")), known)))
create_table-IsValid_example = create_table-IsValid "orders" [] known known-IsValid

abbrev on_id : IndexMeta
on_id = record { name = "by_id"; columns = "id" ∷ []; unique = true }

add_index-IsValid_example :
    let (r, after) = Catalog.add_index "users" on_id known in
    moodeng_sql.Catalog.Laws.IsValid after
    × ((get_table "users" known ≡ err (table_not_found "users"))
          × (Catalog.add_index "users" on_id known ≡ (err (table_not_found "users"), known))
        ⊎ (found : TableSchema) × (get_table "users" known ≡ ok found)
          × ((any (λ i. str_eq i.name on_id.name) found.indexes ≡ true)
                × (Catalog.add_index "users" on_id known ≡ (err (index_exists "by_id"), known))
              ⊎ (any (λ i. str_eq i.name on_id.name) found.indexes ≡ false)
                × (r ≡ ok tt)
                × ((k : String)
                    → get_table k after
                      ≡ ite
                          (dec_eq {K = String} "users" k)
                          (ok (record found { indexes = found.indexes ++ on_id ∷ [] }))
                          (get_table k known))
                × (after.stats.total_indexes ≡ suc_u64 known.stats.total_indexes)))
add_index-IsValid_example = add_index-IsValid "users" on_id known known-IsValid

abbrev session : Logged (Value String)
session = record { txn = new; wal = fresh_log }

rollback-noted_example :
    let (r, s') =
      rollback codecs.ops (noted codecs.ops (UndoRecord.insert "users" 3 ∷ []) session) in
    (r ≡ ok (reverse (UndoRecord.insert "users" 3 ∷ [])))
    × (s'.txn ≡ new)
    × (s'.wal
        ≡ (Log.append codecs.ops
            (WalOp.abort 1)
            (Log.append codecs.ops
              (WalOp.begin 1)
              (record fresh_log { next_txn_id = suc_u64 1 })).1).1)
rollback-noted_example =
    rollback-noted codecs.ops (UndoRecord.insert "users" 3 ∷ []) session (refl, refl, refl)

abbrev client : Session (Value String)
client = record { logged = session; auto_commit = false; active_write_txns = 0 }

auto_commit_lem_example :
    let (r, running) = begin_write_txn codecs.ops client in
    let (r', after) = finish_auto_commit_if_needed codecs.ops running in
    (r ≡ ok 1)
    × (running.logged.txn.active ≡ true)
    × (running.logged.wal
        ≡ (Log.append codecs.ops (WalOp.begin 1) (record fresh_log { next_txn_id = suc_u64 1 })).1)
    × (running.active_write_txns ≡ 1)
    × (r' ≡ ok tt)
    × (after.logged.wal ≡ (Log.append codecs.ops (WalOp.commit 1) running.logged.wal).1)
    × (after.logged.txn ≡ new)
    × (after.auto_commit ≡ false)
    × (after.active_write_txns ≡ 0)
auto_commit_lem_example = auto_commit_lem codecs.ops client (refl, refl, refl) refl (omega arith)

schema-there : get_table "users" known ≡ ok schema
unfolding get_table Map.lookup moodeng_sql.Prelude.String_discrete
schema-there = refl

abbrev database : StorageEngine (Value String) → Database (Value String)
database e = record { storage = e; indexes = []; catalog = known }

alice-stored : Table.get 1 users ≡ some alice
unfolding Table.get Map.lookup
alice-stored = ground arith

undo_delete_restores_example :
    get "users" 1
      (apply_undo
        (λ j. j)
        codecs
        (UndoRecord.delete "users" 1 alice)
        (database (Engine.delete codecs "users" 1 7 engine).1)).1.storage
    ≡ get "users" 1 engine
undo_delete_restores_example =
    undo_delete_restores (λ j. j) codecs "users" 1 7 alice engine
      (database (Engine.delete codecs "users" 1 7 engine).1) users-there alice-stored refl
      schema-there "users" 1

undo_update_restores_example :
    get "users" 1
      (apply_undo
        (λ j. j)
        codecs
        (UndoRecord.update "users" 1 alice)
        (database (Engine.update codecs "users" 1 bob 7 1 engine).1)).1.storage
    ≡ ite
        (dec_eq {K = String} "users" "users")
        (ite
          (dec_eq {K = ℕ} 1 1)
          (some (versioned codecs alice (suc_u64 1)))
          (get "users" 1 engine))
        (get "users" 1 engine)
undo_update_restores_example =
    undo_update_restores (λ j. j) codecs "users" 1 7 bob alice engine
      (database (Engine.update codecs "users" 1 bob 7 1 engine).1) users-there alice-stored refl
      schema-there "users" 1
