-- ===== src/Transaction/Session.antt =====
-- The session of moodeng-core/src/transaction.rs, and how moodeng-core/src/executor.rs begins and
-- ends the transactions of its statements.
use moodeng_sql.Prelude.{
  ℕ, Bool, true, false, none, some, ◌+◌, ◌-◌, ◌%◌, ◌^◌, ◌<◌, ◌≡◌, arith, if◌then◌else◌, suc_u64,
}
use moodeng_sql.Error.{ok, err, execution}
use moodeng_sql.Action.{Action, pure, raise, modify, ◌>>◌}
use moodeng_sql.Types.Value.{QueryResult, modified}
use moodeng_sql.Wal.Defs.{WalOp, Bincode}
use moodeng_sql.Wal.Log
use moodeng_sql.Transaction
use moodeng_sql.Transaction.{is_active, current_txn_id, Transaction, Logged, commit}
use moodeng_sql.Transaction.Laws.{IsIdle}

-- The log comes with the transaction; the counter is shared by the sessions of a database.
pub record Session (V : Type 0) : Type 0 where
  pub logged : Logged V
  pub auto_commit : Bool
  pub active_write_txns : ℕ

module _ {V : Type 0} (b : Bincode (WalOp V)) where
  -- A call of the session's transaction.
  abbrev pub on_transaction : {A : Type 0} → Action (Logged V) A → Action (Session V) A
  on_transaction m s = let (r, logged) = m s.logged in (r, record s { logged = logged })

  abbrev track_write_txn_start : Session V → Session V
  track_write_txn_start s = record s { active_write_txns = suc_u64 s.active_write_txns }

  -- `fetch_sub(1)` wraps around at 0.
  abbrev pub track_write_txn_end : Session V → Session V
  track_write_txn_end s = record s {
    active_write_txns = (s.active_write_txns + (2 ^ 64 - 1)) % 2 ^ 64;
  }

  unfoldable pub begin_statement : Action (Session V) (QueryResult V)
  unfolding Transaction.begin
  begin_statement s =
      if is_active s.logged.txn
      then raise (execution "transaction already active") s
      else ((do
        modify (λ s. record s { auto_commit = false })
        on_transaction (Transaction.begin b)
        modify track_write_txn_start
        pure (modified 0 "BEGIN"))
          s)

  unfoldable pub commit_statement : Action (Session V) (QueryResult V)
  unfolding Transaction.commit
  commit_statement s =
      if is_active s.logged.txn
      then ((do
        modify (λ s. record s { auto_commit = false })
        on_transaction (Transaction.commit b)
        modify track_write_txn_end
        pure (modified 0 "COMMIT"))
          s)
      else raise (execution "no active transaction") s

  -- The `unwrap` at the end, which would panic on none, is an error here.
  unfoldable pub begin_write_txn : Action (Session V) ℕ
  unfolding Transaction.begin
  begin_write_txn s = elim (current_txn_id s.logged.txn) [
    | some txn_id ↦ (ok txn_id, s)
    | none ↦
        (do
          on_transaction (Transaction.begin b)
          modify (λ s. record s { auto_commit = true })
          modify track_write_txn_start
          (λ s. elim (current_txn_id s.logged.txn) [
            | none ↦ (err (execution "unwrap"), s)
            | some t ↦ (ok t, s)
          ]))
          s
  ]

  unfoldable pub finish_auto_commit_if_needed : Action (Session V) (Unit {0})
  unfolding Transaction.commit
  finish_auto_commit_if_needed s =
      if s.auto_commit
      then ((do
        on_transaction (Transaction.commit b)
        modify (λ s. record s { auto_commit = false })
        modify track_write_txn_end)
          s)
      else (ok tt, s)

  -- A statement outside a transaction: it gets one of its own, with the log's next number, whose
  -- Begin is logged; at the end its Commit is logged under the same number, and the transaction,
  -- the flag and the count of writers are as they were.
  pub auto_commit_lem :
      (s : Session V)
      → IsIdle s.logged.txn
      → s.auto_commit ≡ false
      → s.active_write_txns + 1 < 2 ^ 64
      → let (r, running) = begin_write_txn s in
        let (r', after) = finish_auto_commit_if_needed running in
        (r ≡ ok s.logged.wal.next_txn_id)
        × (running.logged.txn.active ≡ true)
        × (running.logged.wal
            ≡ (Log.append b
                (WalOp.begin s.logged.wal.next_txn_id)
                (record s.logged.wal { next_txn_id = suc_u64 s.logged.wal.next_txn_id })).1)
        × (running.active_write_txns ≡ s.active_write_txns + 1)
        × (r' ≡ ok tt)
        × (after.logged.wal
            ≡ (Log.append b (WalOp.commit s.logged.wal.next_txn_id) running.logged.wal).1)
        × (after.logged.txn ≡ Transaction.new)
        × (after.auto_commit ≡ false)
        × (after.active_write_txns ≡ s.active_write_txns)
  unfolding begin_write_txn finish_auto_commit_if_needed Transaction.begin Transaction.commit
      Log.alloc_txn_id
  auto_commit_lem s idle off room = ground (arith, idle.0, idle.1, idle.2, off, room)
