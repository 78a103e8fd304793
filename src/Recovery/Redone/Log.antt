-- ===== src/Recovery/Redone/Log.antt =====
-- What the writes of the storage engine of moodeng-core/src/storage.rs append to the log.
use moodeng_sql.Prelude.{
  ℕ, String, false, List, [], ◌∷◌, ◌++◌, ◌+◌, ◌^◌, ◌≤◌, ◌<◌, ◌≡◌, refl, ap, sym, ◌∙◌, string_key,
  nat_key, arith, Bool-cases, Option-cases, inl, inr, ◌==◌, suc_u64,
}
use moodeng_sql.Prelude.Map
use moodeng_sql.Prelude.Lists.{length}
use moodeng_sql.Types.{Row}
use moodeng_sql.Wal.Defs.{WalOp, checkpoint_interval}
use moodeng_sql.Wal.Log.{WriteAheadLog, append, should_checkpoint}
use moodeng_sql.Wal.Log.Runs.{append_all, append_all-append}
use moodeng_sql.Storage.Table
use moodeng_sql.Storage.Table.{TableData}
use moodeng_sql.Storage.Engine
use moodeng_sql.Storage.Engine.{Codecs, StorageEngine, set_table, log_op}
use moodeng_sql.Storage.Engine.Checkpointed.{maybe_checkpoint-Persists}
use moodeng_sql.Storage.Engine.Writes.{written, insert_lem, update_lem, delete_lem, versioned}
use moodeng_sql.Recovery.Redone.{Write, perform, logged}

module _ {V : Type 0} (c : Codecs V) where
  -- A run of writes, each with the number of its transaction, as the state behind it.
  abbrev pub perform_all : List (ℕ × Write V) → StorageEngine V → StorageEngine V
  perform_all [] e = e
  perform_all ((txn_id, w) ∷ ws) e = perform_all ws (perform c txn_id w e)

  -- The records of the run.
  abbrev pub logged_all : List (ℕ × Write V) → StorageEngine V → List (WalOp V)
  logged_all [] e = []
  logged_all ((txn_id, w) ∷ ws) e = logged c txn_id w e ++ logged_all ws (perform c txn_id w e)

  -- No checkpoint falls within this many more records.
  abbrev pub HasNoCheckpoint : ℕ → StorageEngine V → Type 0
  HasNoCheckpoint n e = e.wal.ops_since_checkpoint + n < checkpoint_interval

  since-append :
      (op : WalOp V) (w : WriteAheadLog)
      → (append c.ops op w).1.ops_since_checkpoint ≡ suc_u64 w.ops_since_checkpoint
  unfolding append
  since-append op w = ground arith

  wal-written :
      (table : String) (t : TableData V) (op : WalOp V) (e : StorageEngine V)
      → HasNoCheckpoint 1 e
      → (written c table t op e).wal ≡ append_all c.ops (op ∷ []) e.wal
  unfolding should_checkpoint append_all
  wal-written table t op e early =
      let due : should_checkpoint (append c.ops op e.wal).1 ≡ false =
        ground (arith, since-append op e.wal, early) in
      (maybe_checkpoint-Persists c (log_op c op (set_table table t e))).2 due

  wal-delete :
      (table : String) (id txn_id : ℕ) (e : StorageEngine V)
      → HasNoCheckpoint 1 e
      → (Engine.delete c table id txn_id e).1.wal
        ≡ append_all c.ops (logged c txn_id (Write.delete table id) e) e.wal
  unfolding append_all Engine.delete
  wal-delete table id txn_id e early = elim (Option-cases (Map.lookup table e.tables)) [
    | inl p ↦ ground (arith, p)
    | inr (t, p) ↦ elim (Bool-cases (Table.delete id t).0) [
      | inl q ↦
          ap (λ x. x.1.wal) (delete_lem c table id txn_id e p)
          ∙ ground (
            arith,
            p,
            q,
            wal-written table (Table.delete id t).1 (WalOp.delete txn_id table id) e early,
          )
      | inr q ↦ ap (λ x. x.1.wal) (delete_lem c table id txn_id e p) ∙ ground (arith, p, q)
    ]
  ]

  -- What a write appends: one record, or nothing where it changes nothing.
  wal-perform :
      (txn_id : ℕ) (w : Write V) (e : StorageEngine V)
      → HasNoCheckpoint 1 e
      → (perform c txn_id w e).wal ≡ append_all c.ops (logged c txn_id w e) e.wal
  unfolding append_all
  wal-perform txn_id (Write.insert table row) e early =
      let t : TableData V = Map.or_insert table Table.empty e.tables in
      ap (λ x. x.1.wal) (insert_lem c table row txn_id e)
      ∙ wal-written table (Table.insert row t).1 (WalOp.insert txn_id table t.next_id row) e early
  wal-perform txn_id (Write.update table id row v) e early =
      elim (Option-cases (Map.lookup table e.tables)) [
        | inl p ↦ ground (arith, p, update_lem c table id row txn_id v e)
        | inr (t, p) ↦ elim (Option-cases (Table.get id t)) [
          | inl q ↦ ground (arith, p, q, update_lem c table id row txn_id v e)
          | inr (existing, q) ↦ elim (Bool-cases (existing.version == v)) [
            | inl r ↦
                let new_row : Row V = versioned c row v in
                ground (
                  arith,
                  p,
                  q,
                  r,
                  update_lem c table id row txn_id v e,
                  wal-written table (Table.update id new_row t).1
                      (WalOp.update txn_id table id new_row) e early,
                )
            | inr r ↦ ground (arith, p, q, r, update_lem c table id row txn_id v e)
          ]
        ]
      ]
  wal-perform txn_id (Write.delete table id) e early = wal-delete table id txn_id e early

  length-logged :
      (txn_id : ℕ) (w : Write V) (e : StorageEngine V) → length (logged c txn_id w e) ≤ 1
  length-logged txn_id (Write.insert table row) e = omega arith
  length-logged txn_id (Write.update table id row v) e =
      elim (Option-cases (Map.lookup table e.tables)) [
        | inl p ↦ ground (arith, p)
        | inr (t, p) ↦ elim (Option-cases (Table.get id t)) [
          | inl q ↦ ground (arith, p, q)
          | inr (existing, q) ↦ elim (Bool-cases (existing.version == v)) [
            | inl r ↦ ground (arith, p, q, r)
            | inr r ↦ ground (arith, p, q, r)
          ]
        ]
      ]
  length-logged txn_id (Write.delete table id) e = elim (Option-cases (Map.lookup table e.tables)) [
    | inl p ↦ ground (arith, p)
    | inr (t, p) ↦ elim (Bool-cases (Table.delete id t).0) [
      | inl q ↦ ground (arith, p, q)
      | inr q ↦ ground (arith, p, q)
    ]
  ]

  since-append_all :
      (ops : List (WalOp V)) (w : WriteAheadLog)
      → w.ops_since_checkpoint + length ops < 2 ^ 64
      → (append_all c.ops ops w).ops_since_checkpoint ≡ w.ops_since_checkpoint + length ops
  unfolding append_all
  since-append_all [] w room = omega arith
  since-append_all (op ∷ ops) w room =
      let next : (append c.ops op w).1.ops_since_checkpoint ≡ w.ops_since_checkpoint + 1 =
        omega (arith, since-append op w) in
      since-append_all ops (append c.ops op w).1 (omega arith) ∙ omega arith

  -- A run of writes appends its records to the log, if no checkpoint falls in it.
  pub wal-perform_all :
      (ws : List (ℕ × Write V)) (e : StorageEngine V)
      → HasNoCheckpoint (length ws) e
      → (perform_all ws e).wal ≡ append_all c.ops (logged_all ws e) e.wal
  unfolding append_all
  wal-perform_all [] e early = refl
  wal-perform_all ((txn_id, w) ∷ ws) e early =
      let e' : StorageEngine V = perform c txn_id w e in
      let xs : List (WalOp V) = logged c txn_id w e in
      let few : length xs ≤ 1 = length-logged txn_id w e in
      let one : e'.wal ≡ append_all c.ops xs e.wal = wal-perform txn_id w e (omega arith) in
      let since : e'.wal.ops_since_checkpoint ≡ e.wal.ops_since_checkpoint + length xs =
        ap (λ l. l.ops_since_checkpoint) one ∙ since-append_all xs e.wal (omega arith) in
      wal-perform_all ws e' (omega arith)
      ∙ (ap (append_all c.ops (logged_all ws e')) one
          ∙ sym (append_all-append c.ops xs (logged_all ws e') e.wal))
