-- ===== src/Transaction/Undone.antt =====
-- What `apply_undo` of moodeng-core/src/transaction.rs does to the rows.
use moodeng_sql.Prelude.{
  ℕ, String, true, false, none, some, map, ◌≡◌, ap, ◌∙◌, arith, dec_eq, ite, string_key, nat_key,
  suc_u64,
}
use moodeng_sql.Prelude.Map
use moodeng_sql.Prelude.Map.{Map, lookup-insert, lookup-insert_self}
use moodeng_sql.Error.{ok}
use moodeng_sql.Types.{Row}
use moodeng_sql.Types.Value.{Value}
use moodeng_sql.Wal.Defs.{WalOp}
use moodeng_sql.Storage.Table
use moodeng_sql.Storage.Table.{TableData}
use moodeng_sql.Storage.Table.Laws
use moodeng_sql.Storage.Table.Laws.{
  get-insert, get-apply_insert, get-update, get-delete, get-next_id,
}
use moodeng_sql.Storage.Engine
use moodeng_sql.Storage.Engine.{
  Codecs, StorageEngine, set_table, get, apply_insert, apply_update, apply_delete,
}
use moodeng_sql.Storage.Engine.Writes.{
  written, tables-written, insert_lem, update_lem, delete_lem, get-written, versioned,
}
use moodeng_sql.Catalog.{TableSchema, get_table}
use moodeng_sql.Transaction.{UndoRecord, Database, apply_undo, apply_undo_insert, col_names}

module _ {J : Type 0} (json_to_string : J → String) (c : Codecs (Value J)) where
  names_known :
      (table : String) (d : Database (Value J)) {schema : TableSchema}
      → get_table table d.catalog ≡ ok schema
      → col_names table d ≡ (ok (map (λ col. col.name) schema.columns), d)
  unfolding get_table
  names_known table d {schema} p = ground (arith, p)

  storage-undo_delete :
      (table : String) (id : ℕ) (row : Row (Value J)) (d : Database (Value J))
      {schema : TableSchema}
      → get_table table d.catalog ≡ ok schema
      → (apply_undo json_to_string c (UndoRecord.delete table id row) d).1.storage
        ≡ (apply_insert c table id row false 0 d.storage).1
  unfolding apply_undo
  storage-undo_delete table id row d p = ground (arith, names_known table d p)

  storage-undo_update :
      (table : String) (id : ℕ) (row : Row (Value J)) (d : Database (Value J))
      {schema : TableSchema}
      → get_table table d.catalog ≡ ok schema
      → (apply_undo json_to_string c (UndoRecord.update table id row) d).1.storage
        ≡ (apply_update c table id row false 0 d.storage).1
  unfolding apply_undo
  storage-undo_update table id row d p = ground (arith, names_known table d p)

  storage-undo_insert :
      (table : String) (id : ℕ) (d : Database (Value J)) {schema : TableSchema}
      {row : Row (Value J)}
      → get_table table d.catalog ≡ ok schema
      → get table id d.storage ≡ some row
      → (apply_undo json_to_string c (UndoRecord.insert table id) d).1.storage
        ≡ (apply_delete c table id false 0 d.storage).1
  unfolding apply_undo apply_undo_insert
  storage-undo_insert table id d p q = ground (arith, q, names_known table d p)

  -- Without logging, one row is stored and nothing else changes.
  get-stored :
      (table : String) (id : ℕ) (row : Row (Value J)) (s : StorageEngine (Value J))
      (t : TableData (Value J)) (k : String) (j : ℕ)
      → Map.lookup table s.tables ≡ some t
      → get k j (apply_insert c table id row false 0 s).1
        ≡ ite (dec_eq table k) (ite (dec_eq id j) (some row) (Table.get j t)) (get k j s)
  unfolding apply_insert get
  get-stored table id row s t k j p = ground (
    arith,
    p,
    get-apply_insert id row t j,
    lookup-insert table k (Table.apply_insert id row t) s.tables,
  )

  get-updated :
      (table : String) (id : ℕ) (row : Row (Value J)) (s : StorageEngine (Value J))
      (t : TableData (Value J)) (current : Row (Value J)) (k : String) (j : ℕ)
      → Map.lookup table s.tables ≡ some t
      → Table.get id t ≡ some current
      → get k j (apply_update c table id row false 0 s).1
        ≡ ite
            (dec_eq table k)
            (ite (dec_eq id j) (some (versioned c row current.version)) (Table.get j t))
            (get k j s)
  unfolding apply_update get
  get-updated table id row s t current k j p q = ground (
    arith,
    p,
    q,
    get-update id (versioned c row current.version) t j,
    lookup-insert table k (Table.update id (versioned c row current.version) t).1 s.tables,
  )

  get-removed :
      (table : String) (id : ℕ) (s : StorageEngine (Value J)) (t : TableData (Value J)) (k : String)
      (j : ℕ)
      → Map.lookup table s.tables ≡ some t
      → get k j (apply_delete c table id false 0 s).1
        ≡ ite (dec_eq table k) (ite (dec_eq id j) none (Table.get j t)) (get k j s)
  unfolding apply_delete get
  get-removed table id s t k j p =
      ground (arith, p, get-delete id t j, lookup-insert table k (Table.delete id t).1 s.tables)

  lookup-written :
      (table : String) (t : TableData (Value J)) (op : WalOp (Value J))
      (e : StorageEngine (Value J))
      → Map.lookup table (written c table t op e).tables ≡ some t
  lookup-written table t op e =
      ap (λ m. Map.lookup table m) (tables-written c table t op e)
      ∙ lookup-insert_self table t e.tables

  delete-there :
      (id : ℕ) (t : TableData (Value J)) {row : Row (Value J)}
      → Table.get id t ≡ some row
      → (Table.delete id t).0 ≡ true
  unfolding Table.get Table.delete
  delete-there id t q = ground (arith, q)

  -- The undo of a DELETE: the row is back under its number, with its version, and all other rows
  -- are as they were before the DELETE.
  pub undo_delete_restores :
      (table : String) (id txn_id : ℕ) (row : Row (Value J)) (e : StorageEngine (Value J))
      (d : Database (Value J)) {t : TableData (Value J)} {schema : TableSchema}
      → Map.lookup table e.tables ≡ some t
      → Table.get id t ≡ some row
      → d.storage ≡ (Engine.delete c table id txn_id e).1
      → get_table table d.catalog ≡ ok schema
      → (k : String) (j : ℕ)
      → get k j (apply_undo json_to_string c (UndoRecord.delete table id row) d).1.storage
        ≡ get k j e
  unfolding get
  undo_delete_restores table id txn_id row e d {t} {schema} p q now known k j =
      let t1 : TableData (Value J) = (Table.delete id t).1 in
      let op : WalOp (Value J) = WalOp.delete txn_id table id in
      let s : d.storage ≡ written c table t1 op e =
        now ∙ ground (arith, delete_lem c table id txn_id e p, delete-there id t q) in
      let there : Map.lookup table d.storage.tables ≡ some t1 =
        ap (λ x. Map.lookup table x.tables) s ∙ lookup-written table t1 op e in
      ap (λ x. get k j x) (storage-undo_delete table id row d known)
      ∙ (get-stored table id row d.storage t1 k j there
          ∙ ground (arith, s, p, q, get-written c table t1 op e k j, get-delete id t j))

  -- The undo of an INSERT: all rows are as they were before the INSERT.
  undo_insert_restores :
      (table : String) (txn_id : ℕ) (row : Row (Value J)) (e : StorageEngine (Value J))
      (d : Database (Value J)) {t : TableData (Value J)} {schema : TableSchema}
      → Map.lookup table e.tables ≡ some t
      → Laws.IsValid t
      → d.storage ≡ (Engine.insert c table row txn_id e).1
      → get_table table d.catalog ≡ ok schema
      → (k : String) (j : ℕ)
      → get k j (apply_undo json_to_string c (UndoRecord.insert table t.next_id) d).1.storage
        ≡ get k j e
  unfolding get
  undo_insert_restores table txn_id row e d {t} {schema} p v now known k j =
      let id : ℕ = t.next_id in
      let t1 : TableData (Value J) = (Table.insert row t).1 in
      let op : WalOp (Value J) = WalOp.insert txn_id table id row in
      let s : d.storage ≡ written c table t1 op e =
        now ∙ ground (arith, insert_lem c table row txn_id e, p) in
      let there : Map.lookup table d.storage.tables ≡ some t1 =
        ap (λ x. Map.lookup table x.tables) s ∙ lookup-written table t1 op e in
      let stored : get table id d.storage ≡ some row = ground (arith, there, get-insert row t id) in
      ap (λ x. get k j x) (storage-undo_insert table id d known stored)
      ∙ (get-removed table id d.storage t1 k j there
          ∙ ground
              (arith, s, p, get-next_id t v, get-written c table t1 op e k j, get-insert row t j))

  -- The undo of an UPDATE: the row has its old values, under a version that is two further, and
  -- all other rows are as they were before the UPDATE.
  pub undo_update_restores :
      (table : String) (id txn_id : ℕ) (row old_row : Row (Value J)) (e : StorageEngine (Value J))
      (d : Database (Value J)) {t : TableData (Value J)} {schema : TableSchema}
      → Map.lookup table e.tables ≡ some t
      → Table.get id t ≡ some old_row
      → d.storage ≡ (Engine.update c table id row txn_id old_row.version e).1
      → get_table table d.catalog ≡ ok schema
      → (k : String) (j : ℕ)
      → get k j (apply_undo json_to_string c (UndoRecord.update table id old_row) d).1.storage
        ≡ ite
            (dec_eq table k)
            (ite (dec_eq id j) (some (versioned c old_row (suc_u64 old_row.version))) (get k j e))
            (get k j e)
  unfolding get
  undo_update_restores table id txn_id row old_row e d {t} {schema} p q now known k j =
      let new_row : Row (Value J) = versioned c row old_row.version in
      let t1 : TableData (Value J) = (Table.update id new_row t).1 in
      let op : WalOp (Value J) = WalOp.update txn_id table id new_row in
      let s : d.storage ≡ written c table t1 op e =
        now ∙ ground (arith, update_lem c table id row txn_id old_row.version e, p, q) in
      let there : Map.lookup table d.storage.tables ≡ some t1 =
        ap (λ x. Map.lookup table x.tables) s ∙ lookup-written table t1 op e in
      let stored : Table.get id t1 ≡ some new_row = ground (arith, get-update id new_row t id) in
      ap (λ x. get k j x) (storage-undo_update table id old_row d known)
      ∙ (get-updated table id old_row d.storage t1 new_row k j there stored
          ∙ ground (arith, s, p, q, get-written c table t1 op e k j, get-update id new_row t j))
