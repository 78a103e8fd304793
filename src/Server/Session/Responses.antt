-- ===== src/Server/Session/Responses.antt =====
-- protocol.rs: what each message of a client asks of a connection, and that the handlers do it.
use moodeng_sql.Prelude.{
  Bool, true, false, Option, none, some, List, [], ◌∷◌, ◌≡◌, refl, ap, ◌∙◌, arith, inl, inr,
  Bool-cases, Option-cases, if◌then◌else◌,
}
use moodeng_sql.Prelude.Map.{lookup, insert}
use moodeng_sql.Prelude.Bytes.{Bytes, to_be_bytes}
use moodeng_sql.Server.Text.{bytes_key}
use moodeng_sql.Server.Wire.{Host, Handler, done, panicked, and_then}
use moodeng_sql.Server.Substitute.{substitute_params, summarize_sql_panics}
use moodeng_sql.Server.Session.{Engine, World, run_sql, handle_execute, send_ready, query, dispatch}
use moodeng_sql.Server.Session.Prepared.{store, bound}
use moodeng_sql.Server.Session.Replies.{executed, told, run_sql_lem, run_sql_panics, send_ready_lem}
use moodeng_sql.Server.Session.Messages.{
  Message, payload_of, tag_of, IsSpelled, simple_query, parse_as, bind_to, execute, sync, terminate,
  read_cstring_lem, handle_parse_lem, handle_bind_lem,
}

-- A query is executed at once, and the state told. A statement is stored under its name, or as the
-- last one if it has none. A bind sets the parameters, and makes the named statement the last
-- one, if there is such. An execute runs the last one with the parameters in it. After a sync the
-- connection is not failing any more, and the state is told.
module _ {D S : Type 0} (e : Engine D S) where
  -- A statement that the summary for the log cuts inside of a character ends in a panic.
  abbrev ran : Bytes → Handler (World D S) Bool
  ran sql w = if summarize_sql_panics sql then (panicked, w) else (done true, executed e sql w)

  abbrev asked : Bytes → Handler (World D S) Bool
  asked [] w = (done true, w)
  asked (b ∷ sql) w =
      if summarize_sql_panics (b ∷ sql)
      then (panicked, w)
      else (done true, told e (executed e (b ∷ sql) w))

  abbrev stored : (name sql : Bytes) → World D S → World D S
  stored [] sql w = record w { conn = record w.conn { last_statement = some sql } }
  stored (b ∷ name) sql w = record w {
    conn = record w.conn { prepared = insert (b ∷ name) sql w.conn.prepared };
  }

  abbrev named_one : Option Bytes → World D S → World D S
  named_one none w = w
  named_one (some sql) w = record w { conn = record w.conn { last_statement = some sql } }

  abbrev prepared_for : (statement : Bytes) → List (Option Bytes) → World D S → World D S
  prepared_for [] params w = record w { conn = record w.conn { portal_params = params } }
  prepared_for (b ∷ name) params w =
      named_one (lookup (b ∷ name) w.conn.prepared)
        (record w { conn = record w.conn { portal_params = params } })

  abbrev ran_last : Option Bytes → Handler (World D S) Bool
  ran_last none w = (done true, w)
  ran_last (some []) w = (done true, w)
  ran_last (some (b ∷ sql)) w = ran (substitute_params (b ∷ sql) w.conn.portal_params) w

  unfoldable pub respond : Message → Handler (World D S) Bool
  respond (simple_query sql) w = asked sql w
  respond (parse_as name sql) w = (done true, stored name sql w)
  respond (bind_to statement params) w = (done true, prepared_for statement params w)
  respond execute w = ran_last w.conn.last_statement w
  respond sync w = (done true, told e (record w { conn = record w.conn { in_error = false } }))
  respond terminate w = (done false, w)

  asked_lem : (h : Host) (sql : Bytes) (w : World D S) → query e h sql w ≡ asked sql w
  asked_lem h [] w = refl
  asked_lem h (b ∷ sql) w = elim (Bool-cases (summarize_sql_panics (b ∷ sql))) [
    | inl bad ↦
        ap (and_then (λ _ v. and_then (λ _ u. (done true, u)) (send_ready e v)))
          (run_sql_panics e (b ∷ sql) w bad)
        ∙ rw bad refl
    | inr plain ↦
        ap (and_then (λ _ v. and_then (λ _ u. (done true, u)) (send_ready e v)))
          (run_sql_lem e (b ∷ sql) w plain)
        ∙ (ap (and_then (λ _ u. (done true, u))) (send_ready_lem e (executed e (b ∷ sql) w))
            ∙ rw plain refl)
  ]

  ran_lem :
      (sql : Bytes) (w : World D S) → and_then (λ _ v. (done true, v)) (run_sql e sql w) ≡ ran sql w
  ran_lem sql w = elim (Bool-cases (summarize_sql_panics sql)) [
    | inl bad ↦ ap (and_then (λ _ v. (done true, v))) (run_sql_panics e sql w bad) ∙ rw bad refl
    | inr plain ↦ ap (and_then (λ _ v. (done true, v))) (run_sql_lem e sql w plain) ∙ rw plain refl
  ]

  ran_last_lem :
      (last : Option Bytes) (w : World D S)
      → and_then
          (λ _ v. (done true, v))
          (handle_execute e (record w { conn = record w.conn { last_statement = last } }))
        ≡ ran_last last (record w { conn = record w.conn { last_statement = last } })
  unfolding handle_execute
  ran_last_lem none w = refl
  ran_last_lem (some []) w = refl
  ran_last_lem (some (b ∷ sql)) w =
      ran_lem (substitute_params (b ∷ sql) w.conn.portal_params)
        (record w { conn = record w.conn { last_statement = some (b ∷ sql) } })

  stored_lem :
      (name sql : Bytes) (w : World D S)
      → record w { conn = store name sql w.conn } ≡ stored name sql w
  stored_lem [] sql w = refl
  stored_lem (b ∷ name) sql w = refl

  prepared_for_lem :
      (statement : Bytes) (params : List (Option Bytes)) (w : World D S)
      → record w { conn = bound statement params w.conn } ≡ prepared_for statement params w
  prepared_for_lem [] params w = refl
  prepared_for_lem (b ∷ name) params w = elim (Option-cases (lookup (b ∷ name) w.conn.prepared)) [
    | inl p ↦ ground (arith, p)
    | inr (sql, p) ↦ ground (arith, p)
  ]

  pub dispatch_lem :
      (h : Host) (m : Message) (w : World D S)
      → IsSpelled h m
      → dispatch e h (tag_of m) (payload_of m) w ≡ respond m w
  unfolding dispatch respond
  dispatch_lem h (simple_query sql) w text =
      ap (λ s. query e h s w) (read_cstring_lem h sql [] text) ∙ asked_lem h sql w
  dispatch_lem h (parse_as name sql) w (named, text) =
      ap (λ conn. (done true, record w { conn = conn }))
        (handle_parse_lem h name sql (to_be_bytes 2 0) w.conn named text)
      ∙ ap (λ v. (done true, v)) (stored_lem name sql w)
  dispatch_lem h (bind_to statement params) w ok =
      ap (λ conn. (done true, record w { conn = conn }))
        (handle_bind_lem h statement params w.conn ok)
      ∙ ap (λ v. (done true, v)) (prepared_for_lem statement params w)
  dispatch_lem h execute w ok = ran_last_lem w.conn.last_statement w
  dispatch_lem h sync w ok =
      ap (and_then (λ _ v. (done true, v)))
        (send_ready_lem e (record w { conn = record w.conn { in_error = false } }))
  dispatch_lem h terminate w ok = refl
