-- ===== src/Recovery/Redone.antt =====
-- Redoing a logged write with `apply_wal_op` of moodeng-core/src/recovery.rs.
pub mod Log
pub mod Run
use moodeng_sql.Prelude.{
  ℕ, String, Bool, true, false, Option, none, some, List, [], ◌∷◌, ◌++◌, map, if◌then◌else◌, ◌≡◌,
  ◌≢◌, refl, ap, sym, ◌∙◌, string_key, nat_key, arith, Bool-cases, Option-cases, inl, inr, ◌==◌,
  ==_self, ◌⊎◌,
}
use moodeng_sql.Prelude.Map
use moodeng_sql.Prelude.Map.{Map}
use moodeng_sql.Prelude.Lists.{}
use moodeng_sql.Error.{Result, ok, err, table_not_found}
use moodeng_sql.Action.{Action, ◌>>=◌, ◌>>◌, for_each}
use moodeng_sql.Types.{Row}
use moodeng_sql.Wal.Defs.{WalOp}
use moodeng_sql.Storage.Table
use moodeng_sql.Storage.Table.{TableData}
use moodeng_sql.Storage.Engine
use moodeng_sql.Storage.Engine.{
  Codecs, StorageEngine, set_table, apply_insert, apply_update, apply_delete,
}
use moodeng_sql.Storage.Engine.Writes.{
  written, tables-written, insert_lem, update_lem, update_outcome, delete_lem, versioned,
}
use moodeng_sql.Recovery.{apply_wal_op}

-- A write of the storage engine, as the executor asks for it.
pub data Write (V : Type 0) : Type 0 where
  insert : (table : String) (row : Row V) → Write V
  update : (table : String) (row_id : ℕ) (row : Row V) (expected_version : ℕ) → Write V
  delete : (table : String) (row_id : ℕ) → Write V

module _ {V : Type 0} (c : Codecs V) where
  -- What the write does, as the state behind it.
  abbrev pub perform : ℕ → Write V → StorageEngine V → StorageEngine V
  perform txn_id (Write.insert table row) e = (Engine.insert c table row txn_id e).1
  perform txn_id (Write.update table id row v) e = (Engine.update c table id row txn_id v e).1
  perform txn_id (Write.delete table id) e = (Engine.delete c table id txn_id e).1

  -- The records that the write appends to the log.
  abbrev pub logged : ℕ → Write V → StorageEngine V → List (WalOp V)
  logged txn_id (Write.insert table row) e =
      WalOp.insert txn_id table (Map.or_insert table Table.empty e.tables).next_id row ∷ []
  logged txn_id (Write.update table id row v) e = elim (Map.lookup table e.tables) [
    | none ↦ []
    | some t ↦ elim (Table.get id t) [
      | none ↦ []
      | some existing ↦
          if existing.version == v
          then WalOp.update txn_id table id (versioned c row v) ∷ []
          else []
    ]
  ]
  logged txn_id (Write.delete table id) e = elim (Map.lookup table e.tables) [
    | none ↦ []
    | some t ↦ if (Table.delete id t).0 then WalOp.delete txn_id table id ∷ [] else []
  ]

  apply_insert-next :
      (row : Row V) (t : TableData V) → Table.apply_insert t.next_id row t ≡ (Table.insert row t).1
  unfolding Table.apply_insert Table.insert
  apply_insert-next row t = ground arith

  -- The state of a redo, by what its tables are.
  abbrev pub IsRedone : WalOp V → StorageEngine V → StorageEngine V → Type 0
  IsRedone op before after =
      (e : StorageEngine V)
      → e.tables ≡ before.tables
      → let (r, e') = apply_wal_op c op false e in (r ≡ ok tt) × (e'.tables ≡ after.tables)

  pub redo_insert :
      (table : String) (row : Row V) (txn_id : ℕ) (e : StorageEngine V)
      → IsRedone
          (WalOp.insert txn_id table (Map.or_insert table Table.empty e.tables).next_id row)
          e
          (Engine.insert c table row txn_id e).1
  unfolding apply_wal_op apply_insert
  redo_insert table row txn_id e e0 same =
      let t : TableData V = Map.or_insert table Table.empty e.tables in
      let op : WalOp V = WalOp.insert txn_id table t.next_id row in
      (
        ground arith,
        ground (
          arith,
          same,
          apply_insert-next row t,
          insert_lem c table row txn_id e,
          tables-written c table (Table.insert row t).1 op e,
        ),
      )

  pub redo_update :
      (table : String) (id : ℕ) (row : Row V) (txn_id : ℕ) (e : StorageEngine V) (t : TableData V)
      (existing : Row V)
      → Map.lookup table e.tables ≡ some t
      → Table.get id t ≡ some existing
      → IsRedone
          (WalOp.update txn_id table id (versioned c row existing.version))
          e
          (Engine.update c table id row txn_id existing.version e).1
  unfolding apply_wal_op apply_update
  redo_update table id row txn_id e t existing p q e0 same =
      let new_row : Row V = versioned c row existing.version in
      let op : WalOp V = WalOp.update txn_id table id new_row in
      (
        ground (arith, same, p, q),
        ground (
          arith,
          same,
          p,
          q,
          update_lem c table id row txn_id existing.version e,
          tables-written c table (Table.update id new_row t).1 op e,
        ),
      )

  pub redo_delete :
      (table : String) (id txn_id : ℕ) (e : StorageEngine V) (t : TableData V)
      → Map.lookup table e.tables ≡ some t
      → (Table.delete id t).0 ≡ true
      → IsRedone (WalOp.delete txn_id table id) e (Engine.delete c table id txn_id e).1
  unfolding apply_wal_op apply_delete
  redo_delete table id txn_id e t p q e0 same =
      let op : WalOp V = WalOp.delete txn_id table id in
      (
        ground (arith, same, p, q),
        ground (
          arith,
          same,
          p,
          q,
          delete_lem c table id txn_id e p,
          tables-written c table (Table.delete id t).1 op e,
        ),
      )
