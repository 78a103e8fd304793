-- ===== src/Server/Session/Replied.antt =====
-- protocol.rs: a client that sends a query gets an answer to it.
use moodeng_sql.Prelude.{ℕ, true, false, ◌≡◌, refl, ◌∙◌, [], ◌∷◌, ◌++◌}
use moodeng_sql.Prelude.Bytes.{Bytes}
use moodeng_sql.Server.Wire.{Host, done}
use moodeng_sql.Server.Substitute.{summarize_sql_panics}
use moodeng_sql.Server.Session.{Engine, World, round}
use moodeng_sql.Server.Session.Replies.{sent, answer, fails, status_of, ready_for_query}
use moodeng_sql.Server.Session.Responses.{respond}
use moodeng_sql.Server.Session.Messages.{simple_query, encode, IsSendable}
use moodeng_sql.Server.Session.Answered.{at, round_lem}

module _ {D S : Type 0} (e : Engine D S) (h : Host) where
  -- Every query is answered: a client whose query is a text without a zero, not empty, and is not
  -- cut inside of a character for the log, gets the frames of its result (the columns, each of
  -- the rows, the number of rows; or just what a result without rows says), or the one of its
  -- error, and after that the one that tells whether the connection is failing, in a transaction
  -- or idle, from the session that the statement left; the server goes on with what is sent next.
  pub round_answered :
      (b : ℕ) (sql rest : Bytes) (w : World D S)
      → IsSendable h (simple_query (b ∷ sql))
      → summarize_sql_panics (b ∷ sql) ≡ false
      → let x = e.execute_session w.db w.conn.session (b ∷ sql) in
        round e h (at e h (encode (simple_query (b ∷ sql)) ++ rest) w) ≡ (
          done true,
          record {
            wire = record {
              input = rest;
              output =
                  (w.wire.output ++ sent (answer x.0))
                  ++ sent (ready_for_query (status_of (fails x.0) (e.is_active x.1)) ∷ []);
            };
            conn = record w.conn { session = x.1; in_error = fails x.0 };
            db = x.2;
          },
        )
  unfolding respond
  round_answered b sql rest w ok plain =
      round_lem e h (simple_query (b ∷ sql)) rest w ok ∙ rw plain refl
