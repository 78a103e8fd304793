-- ===== src/Wal/Defs.antt =====
-- moodeng-core/src/wal.rs: the records of the write-ahead log.
use moodeng_sql.Prelude.{ℕ, String, Bool, true, false, Option, none, some, ◌≡◌, ◌⊎◌, inr}
use moodeng_sql.Prelude.Bytes.{Bytes}
use moodeng_sql.Types.{Row}

abbrev pub checkpoint_interval : ℕ
checkpoint_interval = 50

abbrev pub wal_sync_batch : ℕ
wal_sync_batch = 10

-- A row's values are of any type `V`: neither the log nor the storage looks at one.
pub data WalOp (V : Type 0) : Type 0 where
  begin : (txn_id : ℕ) → WalOp V
  commit : (txn_id : ℕ) → WalOp V
  abort : (txn_id : ℕ) → WalOp V
  insert : (txn_id : ℕ) (table : String) (row_id : ℕ) (row : Row V) → WalOp V
  update : (txn_id : ℕ) (table : String) (row_id : ℕ) (row : Row V) → WalOp V
  delete : (txn_id : ℕ) (table : String) (row_id : ℕ) → WalOp V

module _ {V : Type 0} where
  abbrev pub data_txn_id : WalOp V → Option ℕ
  data_txn_id (WalOp.insert t _ _ _) = some t
  data_txn_id (WalOp.update t _ _ _) = some t
  data_txn_id (WalOp.delete t _ _) = some t
  data_txn_id (WalOp.begin _) = none
  data_txn_id (WalOp.commit _) = none
  data_txn_id (WalOp.abort _) = none

  abbrev pub control_txn_id : WalOp V → Option ℕ
  control_txn_id (WalOp.begin t) = some t
  control_txn_id (WalOp.commit t) = some t
  control_txn_id (WalOp.abort t) = some t
  control_txn_id (WalOp.insert _ _ _ _) = none
  control_txn_id (WalOp.update _ _ _ _) = none
  control_txn_id (WalOp.delete _ _ _) = none

  abbrev pub is_data_op : WalOp V → Bool
  is_data_op (WalOp.insert _ _ _ _) = true
  is_data_op (WalOp.update _ _ _ _) = true
  is_data_op (WalOp.delete _ _ _) = true
  is_data_op (WalOp.begin _) = false
  is_data_op (WalOp.commit _) = false
  is_data_op (WalOp.abort _) = false

-- `bincode::serialize` and `bincode::deserialize` at one type, with the text of the error on
-- bytes that encode no value. What is assumed is that an encoding is read back.
pub record Bincode (A : Type 0) : Type 0 where
  pub serialize : A → Bytes
  pub deserialize : Bytes → String ⊎ A
  pub deserialize-serialize : (a : A) → deserialize (serialize a) ≡ inr a

pub data CheckpointState : Type 0 where
  checkpoint_state : (lsn : ℕ) → CheckpointState
