-- ===== src/Executor/Rollback.antt =====
-- ROLLBACK, of moodeng-core/src/executor.rs: the end of the session's transaction, and its undo.
use moodeng_sql.Prelude.{String, false, if◌then◌else◌}
use moodeng_sql.Error.{ok, execution}
use moodeng_sql.Action.{Action, modify, pure, raise, ◌>>=◌, ◌>>◌}
use moodeng_sql.Types.Value.{Value, QueryResult, modified}
use moodeng_sql.Storage.Engine.{Codecs}
use moodeng_sql.Transaction
use moodeng_sql.Transaction.{is_active, apply_undo_all}
use moodeng_sql.Transaction.Session.{on_transaction, track_write_txn_end}
use moodeng_sql.Executor.{Executor, on_database, on_session}

module _ {J : Type 0} (json_to_string : J → String) (c : Codecs (Value J)) where
  -- An undo that fails ends it, and the transaction stays counted.
  unfoldable pub rollback_statement : Action (Executor (Value J)) (QueryResult (Value J))
  unfolding Transaction.rollback apply_undo_all
  rollback_statement e =
      if is_active e.txn
      then ((do
        modify (λ e. record e { auto_commit = false })
        records ← on_session (on_transaction c.ops (Transaction.rollback c.ops))
        on_database (apply_undo_all json_to_string c records)
        on_session (λ s. (ok tt, track_write_txn_end c.ops s))
        pure (modified 0 "ROLLBACK"))
          e)
      else raise (execution "no active transaction") e
