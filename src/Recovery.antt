-- ===== src/Recovery.antt =====
-- moodeng-core/src/recovery.rs: what is done with the records of the log when a database opens.
pub mod Selected
pub mod Redone
pub mod Replayed
use moodeng_sql.Prelude.{
  ℕ, Bool, true, false, not, ◌&&◌, Option, none, some, List, [], ◌∷◌, ◌++◌, map, if◌then◌else◌,
  nat_key,
}
use moodeng_sql.Prelude.Map
use moodeng_sql.Prelude.Map.{Map}
use moodeng_sql.Prelude.Lists.{length, concat}
use moodeng_sql.Prelude.Sort.{sort_by_key}
use moodeng_sql.Action.{Action, pure, ok_or_raise, for_each, ◌>>=◌, ◌>>◌}
use moodeng_sql.Error.{Result, ok, err}
use moodeng_sql.Wal.Defs.{WalOp, control_txn_id, data_txn_id, is_data_op}
use moodeng_sql.Wal.Codec.{Entry}
use moodeng_sql.Wal.Log.{replay_since}
use moodeng_sql.Storage.Engine.{Codecs, StorageEngine, apply_insert, apply_update, apply_delete}

pub record TxnState (V : Type 0) : Type 0 where
  pub committed : Bool
  pub aborted : Bool
  pub data_ops : List (Entry V)

module _ {V : Type 0} where
  -- `TxnState::default`
  abbrev pub fresh : TxnState V
  fresh = record { committed = false; aborted = false; data_ops = [] }

  abbrev pub note_control : WalOp V → TxnState V → TxnState V
  note_control (WalOp.commit _) state = record state { committed = true; aborted = false }
  note_control (WalOp.abort _) state = record state { committed = false; aborted = true }
  note_control (WalOp.begin _) state = state
  note_control (WalOp.insert _ _ _ _) state = state
  note_control (WalOp.update _ _ _ _) state = state
  note_control (WalOp.delete _ _ _) state = state

  abbrev pub push_data : Entry V → TxnState V → TxnState V
  push_data entry state = record state { data_ops = state.data_ops ++ entry ∷ [] }

  -- One round of the first pass.
  unfoldable pub note_entry : Entry V → Map ℕ (TxnState V) → Map ℕ (TxnState V)
  note_entry (lsn, op) txns = elim (control_txn_id op) [
    | some t ↦ Map.insert t (note_control op (Map.or_insert t fresh txns)) txns
    | none ↦
        if is_data_op op
        then (elim (data_txn_id op) [
          | some t ↦ Map.insert t (push_data (lsn, op) (Map.or_insert t fresh txns)) txns
          | none ↦ txns
        ])
        else txns
  ]

  abbrev pub group : List (Entry V) → Map ℕ (TxnState V) → Map ℕ (TxnState V)
  group [] txns = txns
  group (entry ∷ entries) txns = group entries (note_entry entry txns)

  abbrev pub is_live : TxnState V → Bool
  is_live state = state.committed && not state.aborted

  abbrev pub live_ops : TxnState V → List (Entry V)
  live_ops state = if is_live state then state.data_ops else []

  -- The second pass up to the sort.
  unfoldable pub to_apply : List (Entry V) → List (Entry V)
  to_apply entries =
      sort_by_key (λ entry. entry.0) (concat (map (λ txn. live_ops txn.1) (group entries [])))

module _ {V : Type 0} (c : Codecs V) where
  unfoldable pub apply_wal_op : WalOp V → Bool → Action (StorageEngine V) (Unit {0})
  unfolding apply_insert apply_update apply_delete
  apply_wal_op (WalOp.begin _) logged = pure tt
  apply_wal_op (WalOp.commit _) logged = pure tt
  apply_wal_op (WalOp.abort _) logged = pure tt
  apply_wal_op (WalOp.insert _ table row_id row) logged = do
    apply_insert c table row_id row logged 0
    pure tt
  apply_wal_op (WalOp.update _ table row_id row) logged = do
    apply_update c table row_id row logged 0
    pure tt
  apply_wal_op (WalOp.delete _ table row_id) logged = do
    apply_delete c table row_id logged 0
    pure tt

  unfoldable pub apply_all : List (Entry V) → Action (StorageEngine V) (Unit {0})
  unfolding for_each apply_wal_op
  apply_all entries = for_each (λ entry. apply_wal_op entry.1 false) entries

  -- The result is the number of the operations applied.
  unfoldable pub replay_wal : Action (StorageEngine V) ℕ
  unfolding replay_since to_apply
  replay_wal e =
      (do
        let ops = to_apply (replay_since c.ops e.wal.checkpoint_lsn e.wal)
        apply_all ops
        pure (length ops))
        e
