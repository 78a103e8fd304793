-- ===== src/Recovery/Redone/Run.antt =====
-- Redoing a whole run of writes with `replay_wal` of moodeng-core/src/recovery.rs.
use mathlib.Core.Path.{subst}
use moodeng_sql.Prelude.{
  ℕ, String, false, none, List, [], ◌∷◌, ◌++◌, map, ◌≡◌, refl, ap, sym, ◌∙◌, string_key, nat_key,
  arith, ◌+◌, ◌^◌, ◌<◌, Bool-cases, Option-cases, inl, inr, ◌==◌, ==_iff,
}
use moodeng_sql.Prelude.Map
use moodeng_sql.Prelude.Map.{Map, insert_same, remove_absent}
use moodeng_sql.Prelude.Lists.{length, All}
use moodeng_sql.Error.{ok}
use moodeng_sql.Action.{Action, for_each, for_each-cons, for_each-append, for_each-map}
use moodeng_sql.Types.{Row}
use moodeng_sql.Wal.Defs.{WalOp}
use moodeng_sql.Wal.Codec.{Entry}
use moodeng_sql.Storage.Table
use moodeng_sql.Storage.Table.{TableData}
use moodeng_sql.Storage.Engine
use moodeng_sql.Storage.Engine.{Codecs, StorageEngine, set_table}
use moodeng_sql.Storage.Engine.Writes.{update_lem, delete_lem, versioned}
use moodeng_sql.Recovery.{apply_wal_op, apply_all}
use moodeng_sql.Wal.Log.Runs.{numbered, BodyFits, append_all-Holds}
use moodeng_sql.Wal.Log.Appended.{Holds}
use moodeng_sql.Recovery.Redone.Log.{perform_all, logged_all, HasNoCheckpoint, wal-perform_all}
use moodeng_sql.Recovery.Redone.{
  Write, perform, logged, IsRedone, redo_insert, redo_update, redo_delete,
}

module _ {V : Type 0} (c : Codecs V) where
  unfoldable redo : List (WalOp V) → Action (StorageEngine V) (Unit {0})
  redo = for_each (λ op. apply_wal_op c op false)

  -- Redoing these records on the tables of one state gives the tables of the other.
  abbrev IsRedoneBy : List (WalOp V) → StorageEngine V → StorageEngine V → Type 0
  IsRedoneBy ops before after =
      (e : StorageEngine V)
      → e.tables ≡ before.tables
      → let (r, e') = redo ops e in (r ≡ ok tt) × (e'.tables ≡ after.tables)

  IsRedoneBy-nil :
      (before after : StorageEngine V) → after.tables ≡ before.tables → IsRedoneBy [] before after
  unfolding redo for_each
  IsRedoneBy-nil before after same e start = (refl, start ∙ sym same)

  IsRedoneBy-cons :
      (op : WalOp V) (ops : List (WalOp V)) (before middle after : StorageEngine V)
      → IsRedone c op before middle
      → IsRedoneBy ops middle after
      → IsRedoneBy (op ∷ ops) before after
  unfolding redo
  IsRedoneBy-cons op ops before middle after one rest e start =
      let (done, tables) = one e start in
      rw (for_each-cons (λ o. apply_wal_op c o false) op ops e done)
        (rest (apply_wal_op c op false e).1 tables)

  IsRedoneBy-append :
      (xs ys : List (WalOp V)) (before middle after : StorageEngine V)
      → IsRedoneBy xs before middle
      → IsRedoneBy ys middle after
      → IsRedoneBy (xs ++ ys) before after
  unfolding redo
  IsRedoneBy-append xs ys before middle after first second e start =
      let (done, tables) = first e start in
      rw (for_each-append (λ o. apply_wal_op c o false) xs ys e done) (second (redo xs e).1 tables)

  nothing_to_redo :
      (ops : List (WalOp V)) (before after : StorageEngine V)
      → ops ≡ []
      → after.tables ≡ before.tables
      → IsRedoneBy ops before after
  nothing_to_redo ops before after e same =
      subst (λ o. IsRedoneBy o before after) (sym e) (IsRedoneBy-nil before after same)

  one_to_redo :
      (op : WalOp V) (ops : List (WalOp V)) (before after : StorageEngine V)
      → ops ≡ op ∷ []
      → IsRedone c op before after
      → IsRedoneBy ops before after
  one_to_redo op ops before after e one =
      subst (λ o. IsRedoneBy o before after) (sym e)
        (IsRedoneBy-cons op [] before after after one (IsRedoneBy-nil after after refl))

  -- A delete of a row that is not there leaves the table as it is.
  delete_absent :
      (id : ℕ) (t : TableData V) → (Table.delete id t).0 ≡ false → (Table.delete id t).1 ≡ t
  unfolding Table.delete
  delete_absent id t q = elim (Option-cases (Map.lookup id t.rows)) [
    | inl p ↦ rw (remove_absent id t.rows p) refl
    | inr (row, p) ↦ absurd (ground (arith, p))
  ]

  delete_missing :
      (table : String) (id txn_id : ℕ) (e : StorageEngine V)
      → Map.lookup table e.tables ≡ none
      → (Engine.delete c table id txn_id e).1.tables ≡ e.tables
  unfolding Engine.delete
  delete_missing table id txn_id e p = ground (arith, p)

  redo-logged_on_update :
      (txn_id : ℕ) (table : String) (id : ℕ) (row : Row V) (v : ℕ) (e : StorageEngine V)
      → IsRedoneBy
          (logged c txn_id (Write.update table id row v) e)
          e
          (perform c txn_id (Write.update table id row v) e)
  redo-logged_on_update txn_id table id row v e =
      let w : Write V = Write.update table id row v in
      let after : StorageEngine V = perform c txn_id w e in
      elim (Option-cases (Map.lookup table e.tables)) [
        | inl p ↦
            nothing_to_redo (logged c txn_id w e) e after (ground (arith, p))
              (ground (arith, p, update_lem c table id row txn_id v e))
        | inr (t, p) ↦ elim (Option-cases (Table.get id t)) [
          | inl q ↦
              nothing_to_redo (logged c txn_id w e) e after (ground (arith, p, q))
                (ground (arith, p, q, update_lem c table id row txn_id v e))
          | inr (existing, q) ↦ elim (Bool-cases (existing.version == v)) [
            | inl r ↦
                one_to_redo (WalOp.update txn_id table id (versioned c row v)) (logged c txn_id w e)
                  e after (ground (arith, p, q, r))
                  (subst
                    (λ u.
                      IsRedone c (WalOp.update txn_id table id (versioned c row u)) e
                        (Engine.update c table id row txn_id u e).1)
                    ((==_iff existing.version v).0 r)
                    (redo_update c table id row txn_id e t existing p q))
            | inr r ↦
                nothing_to_redo (logged c txn_id w e) e after (ground (arith, p, q, r))
                  (ground (arith, p, q, r, update_lem c table id row txn_id v e))
          ]
        ]
      ]

  redo-logged_on_delete :
      (txn_id : ℕ) (table : String) (id : ℕ) (e : StorageEngine V)
      → IsRedoneBy
          (logged c txn_id (Write.delete table id) e)
          e
          (perform c txn_id (Write.delete table id) e)
  redo-logged_on_delete txn_id table id e =
      let w : Write V = Write.delete table id in
      let after : StorageEngine V = perform c txn_id w e in
      elim (Option-cases (Map.lookup table e.tables)) [
        | inl p ↦
            nothing_to_redo (logged c txn_id w e) e after (ground (arith, p))
              (delete_missing table id txn_id e p)
        | inr (t, p) ↦ elim (Bool-cases (Table.delete id t).0) [
          | inl q ↦
              one_to_redo (WalOp.delete txn_id table id) (logged c txn_id w e) e after
                (ground (arith, p, q)) (redo_delete c table id txn_id e t p q)
          | inr q ↦ nothing_to_redo (logged c txn_id w e) e after (ground (arith, p, q)) (
              ap (λ x. x.1.tables) (delete_lem c table id txn_id e p)
              ∙ rw q (
                  ap (λ t'. Map.insert table t' e.tables) (delete_absent id t q)
                  ∙ insert_same table t e.tables p))
        ]
      ]

  redo-logged :
      (txn_id : ℕ) (w : Write V) (e : StorageEngine V)
      → IsRedoneBy (logged c txn_id w e) e (perform c txn_id w e)
  redo-logged txn_id (Write.insert table row) e =
      let after : StorageEngine V = perform c txn_id (Write.insert table row) e in
      IsRedoneBy-cons
        (WalOp.insert txn_id table (Map.or_insert table Table.empty e.tables).next_id row) [] e
        after after (redo_insert c table row txn_id e) (IsRedoneBy-nil after after refl)
  redo-logged txn_id (Write.update table id row v) e = redo-logged_on_update txn_id table id row v e
  redo-logged txn_id (Write.delete table id) e = redo-logged_on_delete txn_id table id e

  redo-logged_all :
      (ws : List (ℕ × Write V)) (e : StorageEngine V)
      → IsRedoneBy (logged_all c ws e) e (perform_all c ws e)
  redo-logged_all [] e = IsRedoneBy-nil e e refl
  redo-logged_all ((txn_id, w) ∷ ws) e =
      IsRedoneBy-append (logged c txn_id w e) (logged_all c ws (perform c txn_id w e)) e
        (perform c txn_id w e) (perform_all c ((txn_id, w) ∷ ws) e) (redo-logged txn_id w e)
        (redo-logged_all ws (perform c txn_id w e))

  pub apply_all-logged_all :
      (ws : List (ℕ × Write V)) (before e : StorageEngine V) (entries : List (Entry V))
      → map (λ entry. entry.1) entries ≡ logged_all c ws before
      → e.tables ≡ before.tables
      → let (r, e') = apply_all c entries e in
        (r ≡ ok tt) × (e'.tables ≡ (perform_all c ws before).tables)
  unfolding apply_all redo
  apply_all-logged_all ws before e entries shape start =
      rw (for_each-map (λ o. apply_wal_op c o false) (λ entry. entry.1) entries e, shape)
        (redo-logged_all ws before e start)

  map-numbered : (lsn : ℕ) (ops : List (WalOp V)) → map (λ entry. entry.1) (numbered lsn ops) ≡ ops
  map-numbered lsn [] = refl
  map-numbered lsn (op ∷ ops) = ap (λ l. op ∷ l) (map-numbered (lsn + 1) ops)

  -- A run of writes, each of a transaction of its own or of the same, whether or not each finds
  -- its row; no checkpoint falls in it, and its records fit their fields.
  pub record CanRun (ws : List (ℕ × Write V)) (before : StorageEngine V) : Type 0 where
    pub early : HasNoCheckpoint c (length ws) before
    pub bodies : All (BodyFits c.ops) (logged_all c ws before)
    pub lsns : before.wal.lsn + length (logged_all c ws before) < 2 ^ 64

  pub perform_all-Holds :
      (ws : List (ℕ × Write V)) (before : StorageEngine V) (es : List (Entry V))
      → Holds c.ops before.wal es
      → CanRun ws before
      → Holds c.ops
          (perform_all c ws before).wal
          (es ++ numbered before.wal.lsn (logged_all c ws before))
  perform_all-Holds ws before es h can =
      subst (λ w. Holds c.ops w (es ++ numbered before.wal.lsn (logged_all c ws before)))
        (sym (wal-perform_all c ws before can.early))
        (append_all-Holds c.ops (logged_all c ws before) before.wal es h can.bodies can.lsns).0

  -- Any run of writes, each under its own transaction number, whether or not each finds its row,
  -- if no checkpoint falls in it and its records fit their fields: it leaves records behind those
  -- of the log, and applying these to its first tables, with no more logging, succeeds and
  -- gives its last tables, with the same row numbers and versions.
  pub apply_all-perform_all :
      (ws : List (ℕ × Write V)) (before e : StorageEngine V) (es : List (Entry V))
      → Holds c.ops before.wal es
      → CanRun ws before
      → e.tables ≡ before.tables
      → (new : List (Entry V)) × Holds c.ops (perform_all c ws before).wal (es ++ new)
        × ((apply_all c new e).0 ≡ ok tt)
        × ((apply_all c new e).1.tables ≡ (perform_all c ws before).tables)
  apply_all-perform_all ws before e es h can start =
      let new : List (Entry V) = numbered before.wal.lsn (logged_all c ws before) in
      let (done, tables) =
        apply_all-logged_all ws before e new (map-numbered before.wal.lsn (logged_all c ws before))
          start in
      (new, perform_all-Holds ws before es h can, done, tables)
