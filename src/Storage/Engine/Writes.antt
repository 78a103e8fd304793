-- ===== src/Storage/Engine/Writes.antt =====
-- What `insert`, `update` and `delete` of the storage engine of moodeng-core/src/storage.rs do on
-- each branch.
use moodeng_sql.Prelude.{
  ℕ, String, Bool, true, false, ◌≡◌, ◌≢◌, ap, sym, ◌∙◌, Option, none, some, ◌⊎◌, inl, inr, arith,
  Option-cases, ◌==◌, if◌then◌else◌, string_key, nat_key, dec_eq, ite, suc_u64, suc_u64_ne,
}
use moodeng_sql.Prelude.Map
use moodeng_sql.Prelude.Map.{Map, lookup-insert}
use moodeng_sql.Error.{Result, ok, err, table_not_found, version_conflict}
use moodeng_sql.Types.{Row}
use moodeng_sql.Wal.Defs.{WalOp}
use moodeng_sql.Storage.Table
use moodeng_sql.Storage.Table.{TableData}
use moodeng_sql.Storage.Table.Laws.{IsValid, get-next_id, get-update, get-insert}
use moodeng_sql.Storage.Engine.{
  Codecs, StorageEngine, set_table, log_op, maybe_checkpoint, insert, get, update, delete,
}
use moodeng_sql.Storage.Engine.Checkpointed.{maybe_checkpoint-Persists}

module _ {V : Type 0} (c : Codecs V) where
  -- The state after a logged write of a table.
  abbrev pub written : String → TableData V → WalOp V → StorageEngine V → StorageEngine V
  written table t op e = (maybe_checkpoint c (log_op c op (set_table table t e))).1

  pub tables-written :
      (table : String) (t : TableData V) (op : WalOp V) (e : StorageEngine V)
      → (written table t op e).tables ≡ Map.insert table t e.tables
  tables-written table t op e = (maybe_checkpoint-Persists c (log_op c op (set_table table t e))).1

  pub insert_lem :
      (table : String) (row : Row V) (txn_id : ℕ) (e : StorageEngine V)
      → let t = Map.or_insert table Table.empty e.tables in
        insert c table row txn_id e ≡ (
          ok t.next_id,
          written table (Table.insert row t).1 (WalOp.insert txn_id table t.next_id row) e,
        )
  unfolding insert
  insert_lem table row txn_id e =
      let t : TableData V = Map.or_insert table Table.empty e.tables in
      let op : WalOp V = WalOp.insert txn_id table t.next_id row in
      ground (
        arith,
        (maybe_checkpoint-Persists c (log_op c op (set_table table (Table.insert row t).1 e))).0,
      )

  -- The row as an update stores it.
  abbrev pub versioned : Row V → ℕ → Row V
  versioned row v = record row { version = suc_u64 v }

  -- How an update ends, by the row that it finds.
  abbrev pub update_outcome :
      String
      → ℕ
      → Row V
      → ℕ
      → ℕ
      → StorageEngine V
      → Option (TableData V)
      → Result Bool × StorageEngine V
  update_outcome table id row txn_id expected e none = (err (table_not_found table), e)
  update_outcome table id row txn_id expected e (some t) = elim (Table.get id t) [
    | none ↦ (ok false, e)
    | some existing ↦
        if existing.version == expected
        then (
          ok true,
          written table (Table.update id (versioned row expected) t).1
              (WalOp.update txn_id table id (versioned row expected)) e,
        )
        else (err (version_conflict table id), e)
  ]

  pub update_lem :
      (table : String) (id : ℕ) (row : Row V) (txn_id expected : ℕ) (e : StorageEngine V)
      → update c table id row txn_id expected e
        ≡ update_outcome table id row txn_id expected e (Map.lookup table e.tables)
  unfolding update
  update_lem table id row txn_id expected e = elim (Option-cases (Map.lookup table e.tables)) [
    | inl p ↦ ground (arith, p)
    | inr (t, p) ↦
        let new_row : Row V = versioned row expected in
        ground (
          arith,
          p,
          (maybe_checkpoint-Persists c (
              log_op c (WalOp.update txn_id table id new_row)
                (set_table table (Table.update id new_row t).1 e))).0,
        )
  ]

  pub delete_lem :
      (table : String) (id txn_id : ℕ) (e : StorageEngine V) {t : TableData V}
      → Map.lookup table e.tables ≡ some t
      → delete c table id txn_id e ≡ (
          if (Table.delete id t).0
          then (ok true, written table (Table.delete id t).1 (WalOp.delete txn_id table id) e)
          else (ok false, set_table table (Table.delete id t).1 e))
  unfolding delete
  delete_lem table id txn_id e {t} p = ground (
    arith,
    p,
    (maybe_checkpoint-Persists c
        (log_op c (WalOp.delete txn_id table id) (set_table table (Table.delete id t).1 e))).0,
  )

  -- Another table is not touched by a write of this one.
  pub get-written :
      (table : String) (t : TableData V) (op : WalOp V) (e : StorageEngine V) (k : String) (id : ℕ)
      → get k id (written table t op e) ≡ ite (dec_eq table k) (Table.get id t) (get k id e)
  unfolding get
  get-written table t op e k id =
      ground (arith, tables-written table t op e, lookup-insert table k t e.tables)

  -- INSERT: the row gets the table's next number, which no row had; it is stored under that
  -- number, and nothing else is changed.
  pub insert_stores :
      (table : String) (row : Row V) (txn_id : ℕ) (e : StorageEngine V) {t : TableData V}
      → Map.lookup table e.tables ≡ some t
      → IsValid t
      → let (r, e') = insert c table row txn_id e in
        (r ≡ ok t.next_id)
        × (get table t.next_id e ≡ none)
        × (get table t.next_id e' ≡ some row)
        × ((k : String) (id : ℕ) → (table ≢ k) ⊎ (t.next_id ≢ id) → get k id e' ≡ get k id e)
  unfolding get
  insert_stores table row txn_id e {t} p v =
      let op : WalOp V = WalOp.insert txn_id table t.next_id row in
      let whole : insert c table row txn_id e
          ≡ (ok t.next_id, written table (Table.insert row t).1 op e) =
        ground (arith, insert_lem table row txn_id e, p) in
      (
        ap (λ x. x.0) whole,
        ground (arith, p, get-next_id t v),
        ap (λ x. get table t.next_id x.1) whole
            ∙ ground (
              arith,
              get-written table (Table.insert row t).1 op e table t.next_id,
              get-insert row t t.next_id,
            ),
        λ k id other.
            ap (λ x. get k id x.1) whole
            ∙ ground
                (arith, p, get-written table (Table.insert row t).1 op e k id, get-insert row t id),
      )

  -- UPDATE with the current version: the row is stored under the next version, and nothing else
  -- is changed.
  update_stores :
      (table : String) (id : ℕ) (row : Row V) (txn_id : ℕ) (e : StorageEngine V) {existing : Row V}
      → get table id e ≡ some existing
      → let (r, e') = update c table id row txn_id existing.version e in
        (r ≡ ok true)
        × (get table id e' ≡ some (versioned row existing.version))
        × ((k : String) (j : ℕ) → (table ≢ k) ⊎ (id ≢ j) → get k j e' ≡ get k j e)
  unfolding get
  update_stores table id row txn_id e {existing} found =
      elim (Option-cases (Map.lookup table e.tables)) [
        | inl p ↦ absurd (ground arith)
        | inr (t, p) ↦
            let new_row : Row V = versioned row existing.version in
            let t' : TableData V = (Table.update id new_row t).1 in
            let op : WalOp V = WalOp.update txn_id table id new_row in
            let there : Table.get id t ≡ some existing = ground (arith, p) in
            let whole : update c table id row txn_id existing.version e
                ≡ (ok true, written table t' op e) =
              ground (arith, p, there, update_lem table id row txn_id existing.version e) in
            (
              ap (λ x. x.0) whole,
              ap (λ x. get table id x.1) whole
                  ∙ ground (
                    arith,
                    there,
                    get-written table t' op e table id,
                    get-update id new_row t id,
                  ),
              λ k j other.
                  ap (λ x. get k j x.1) whole
                  ∙ ground (arith, p, get-written table t' op e k j, get-update id new_row t j),
            )
      ]

  -- UPDATE with another version: a conflict, and nothing is changed.
  update_conflict :
      (table : String) (id : ℕ) (row : Row V) (txn_id expected : ℕ) (e : StorageEngine V)
      {existing : Row V}
      → get table id e ≡ some existing
      → existing.version ≢ expected
      → update c table id row txn_id expected e ≡ (err (version_conflict table id), e)
  unfolding get
  update_conflict table id row txn_id expected e found stale =
      elim (Option-cases (Map.lookup table e.tables)) [
        | inl p ↦ absurd (ground arith)
        | inr (t, p) ↦ ground (arith, p, update_lem table id row txn_id expected e)
      ]

  -- No update is lost: of two updates that start from the same version, the second is refused.
  pub no_lost_update :
      (table : String) (id : ℕ) (first second : Row V) (txn_a txn_b : ℕ) (e : StorageEngine V)
      {existing : Row V}
      → get table id e ≡ some existing
      → let (r, e') = update c table id first txn_a existing.version e in
        (r ≡ ok true)
        × (update c table id second txn_b existing.version e'
            ≡ (err (version_conflict table id), e'))
  no_lost_update table id first second txn_a txn_b e {existing} found =
      let (done, stored, _) = update_stores table id first txn_a e found in
      (
        done,
        update_conflict table id second txn_b existing.version
            (update c table id first txn_a existing.version e).1 stored
            (λ same. suc_u64_ne existing.version (sym same)),
      )
