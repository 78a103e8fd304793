-- ===== src/Storage/Engine/Checkpointed.antt =====
-- What a checkpoint of moodeng-core/src/recovery.rs does: all tables on disk, and an empty log.
use moodeng_sql.Prelude.{
  String, false, ◌≡◌, refl, ap, some, List, [], ◌∷◌, ◌⊎◌, inl, inr, arith, Bool-cases, Option-cases,
  string_key, dec_eq,
}
use moodeng_sql.Prelude.Lists.{In}
use moodeng_sql.Prelude.Map
use moodeng_sql.Prelude.Map.{Map, In-lookup, lookup-insert}
use moodeng_sql.Error.{ok}
use moodeng_sql.Action.{Action, for_each}
use moodeng_sql.Wal.Defs.{checkpoint_state}
use moodeng_sql.Wal.Log.{should_checkpoint, mark_checkpoint, truncate}
use moodeng_sql.Storage.Table.{TableData}
use moodeng_sql.Storage.Engine.{
  Codecs, StorageEngine, table_names, persist_if_there, checkpoint_all, checkpoint,
  maybe_checkpoint,
}

or_later : {A A' B C : Type 0} → A ⊎ (B ⊎ C) → (A ⊎ B → A') → A' ⊎ C
or_later (inl a) f = inl (f (inl a))
or_later (inr (inl b)) f = inl (f (inr b))
or_later (inr (inr c)) f = inr c

module _ {V : Type 0} (c : Codecs V) where
  -- An action that may write files, and neither fails nor changes the tables or the log.
  pub record Persists (m : Action (StorageEngine V) (Unit {0})) (e : StorageEngine V) : Type 0 where
    pub succeeds : (m e).0 ≡ ok tt
    pub tables : (m e).1.tables ≡ e.tables
    pub wal : (m e).1.wal ≡ e.wal

  persist_if_there-Persists :
      (table : String) (e : StorageEngine V) → Persists (persist_if_there c table) e
  unfolding persist_if_there
  persist_if_there-Persists table e = elim (Option-cases (Map.lookup table e.tables)) [
    | inl p ↦ ground arith
    | inr (t, p) ↦ ground arith
  ]

  dat-persist_if_there :
      (table : String) (e : StorageEngine V) (k : String) {t : TableData V}
      → Map.lookup k e.tables ≡ some t
      → (Map.lookup k e.dat ≡ some (c.tables.serialize t)) ⊎ (table ≡ k)
      → Map.lookup k (persist_if_there c table e).1.dat ≡ some (c.tables.serialize t)
  unfolding persist_if_there
  dat-persist_if_there table e k {t} there known = elim (dec_eq table k) [
    | yes p ↦
        let here : Map.lookup table e.tables ≡ some t = rw p there in
        ground (arith, here, lookup-insert table k (c.tables.serialize t) e.dat)
    | no p ↦ elim (Option-cases (Map.lookup table e.tables)) [
      | inl q ↦ ground arith
      | inr (u, q) ↦ ground (arith, lookup-insert table k (c.tables.serialize u) e.dat)
    ]
  ]

  for_each-Persists :
      (names : List String) (e : StorageEngine V) → Persists (for_each (persist_if_there c) names) e
  unfolding for_each
  for_each-Persists [] e = record { succeeds = refl; tables = refl; wal = refl }
  for_each-Persists (name ∷ names) e =
      let first = persist_if_there-Persists name e in
      let rest = for_each-Persists names (persist_if_there c name e).1 in
      record {
        succeeds = ground (arith, first.succeeds, rest.succeeds);
        tables = ground (arith, first.succeeds, first.tables, rest.tables);
        wal = ground (arith, first.succeeds, first.wal, rest.wal);
      }

  dat-for_each :
      (names : List String) (e : StorageEngine V) (k : String) {t : TableData V}
      → Map.lookup k e.tables ≡ some t
      → (Map.lookup k e.dat ≡ some (c.tables.serialize t)) ⊎ In k names
      → Map.lookup k (for_each (persist_if_there c) names e).1.dat ≡ some (c.tables.serialize t)
  unfolding for_each
  dat-for_each [] e k there (inl known) = known
  dat-for_each [] e k there (inr known) = elim known [ ]
  dat-for_each (name ∷ names) e k there known =
      let first = persist_if_there-Persists name e in
      let still = rw (← first.tables) at there in
      ground (
        arith,
        first.succeeds,
        dat-for_each names (persist_if_there c name e).1 k still
            (or_later known (dat-persist_if_there name e k there)),
      )

  pub checkpoint_all-Persists : (e : StorageEngine V) → Persists (checkpoint_all c) e
  unfolding checkpoint_all
  checkpoint_all-Persists e =
      let p = for_each-Persists (table_names e.tables) e in
      record { succeeds = p.succeeds; tables = p.tables; wal = p.wal }

  dat-checkpoint_all :
      (e : StorageEngine V) (k : String) {t : TableData V}
      → Map.lookup k e.tables ≡ some t
      → Map.lookup k (checkpoint_all c e).1.dat ≡ some (c.tables.serialize t)
  unfolding checkpoint_all
  dat-checkpoint_all e k there =
      dat-for_each (table_names e.tables) e k there (inr (In-lookup k e.tables there))

  -- The state behind a checkpoint.
  pub record IsCheckpoint (before after : StorageEngine V) : Type 0 where
    pub tables : after.tables ≡ before.tables
    pub files :
        (k : String) {t : TableData V}
        → Map.lookup k before.tables ≡ some t
        → Map.lookup k after.dat ≡ some (c.tables.serialize t)
    pub empty : after.wal.file ≡ []
    pub restarted : (after.wal.lsn ≡ 0) × (after.wal.synced ≡ 0) × (after.wal.unsynced_writes ≡ 0)
    pub marked :
        after.wal.checkpoint_file ≡ some (c.states.serialize (checkpoint_state before.wal.lsn))
    pub since : after.wal.ops_since_checkpoint ≡ 0
    pub numbers : after.wal.next_txn_id ≡ before.wal.next_txn_id

  -- A checkpoint succeeds and keeps the tables; each table then stands in its file, and the LSN
  -- that the log had in the checkpoint file. The log is empty, its LSNs begin again at 1, the next
  -- checkpoint is counted from 0, and transaction numbers go on.
  pub checkpoint_lem :
      (e : StorageEngine V) → ((checkpoint c e).0 ≡ ok tt) × IsCheckpoint e (checkpoint c e).1
  unfolding checkpoint truncate mark_checkpoint
  checkpoint_lem e =
      let p = checkpoint_all-Persists e in
      let log : (checkpoint c e).1.wal ≡ truncate (mark_checkpoint c.states e.wal.lsn e.wal) =
        ground (arith, p.succeeds, p.wal) in
      (
        ground (arith, p.succeeds),
        record {
          tables = ground (arith, p.succeeds, p.tables);
          files = λ k there. ground (arith, p.succeeds, dat-checkpoint_all e k there);
          empty = ap (λ w. w.file) log;
          restarted =
              (ap (λ w. w.lsn) log, ap (λ w. w.synced) log, ap (λ w. w.unsynced_writes) log);
          marked = ap (λ w. w.checkpoint_file) log;
          since = ap (λ w. w.ops_since_checkpoint) log;
          numbers = ap (λ w. w.next_txn_id) log;
        },
      )

  pub maybe_checkpoint-Persists :
      (e : StorageEngine V)
      → ((maybe_checkpoint c e).0 ≡ ok tt)
        × ((maybe_checkpoint c e).1.tables ≡ e.tables)
        × ((should_checkpoint e.wal ≡ false) → (maybe_checkpoint c e).1.wal ≡ e.wal)
  unfolding maybe_checkpoint
  maybe_checkpoint-Persists e = elim (Bool-cases (should_checkpoint e.wal)) [
    | inl due ↦
        let (done, is) = checkpoint_lem e in (rw due done, rw due is.tables, λ p. cc (due, p))
    | inr early ↦ rw early (refl, refl, λ _. refl)
  ]
