-- ===== src/Server/Session/Finished.antt =====
-- protocol.rs, `run_session`: the loop comes to its end.
use moodeng_sql.Prelude.{
  ℕ, zero, suc, Bool, true, false, ◌<◌, ◌≤◌, ◌≡◌, ◌≢◌, refl, ap, ◌∙◌, [], ◌∷◌, ◌++◌, inl, inr, ◌⊎◌,
  arith, not, ◌==◌, if◌then◌else◌, Bool-cases,
}
use moodeng_sql.Prelude.Lists.{length, length-append}
use moodeng_sql.Prelude.Bytes.{Bytes, from_be_bytes}
use moodeng_sql.Server.Wire.{
  Host, Wire, Outcome, Handler, done, failed, panicked, unfinished, and_then, ◌>>=◌, pure, receive,
  read_u8, read_body, write_all, send_message, send_error, read_cstring, message,
}
use moodeng_sql.Server.Wire.Sent.{receive_inv, read_body-Reads, bind_inv, pure_inv}
use moodeng_sql.Server.Wire.Ending.{read_body-Ends}
use moodeng_sql.Server.Substitute.{substitute_params, summarize_sql_panics}
use moodeng_sql.Server.Session.{
  Engine, World, lift, modify, reply, is_err, send_ready, run_sql, handle_execute, query, dispatch,
  handle, round, serve, ready_status,
}
use moodeng_sql.Server.Session.Result.{QueryResult, unwrap_or, query_result_bytes}
use moodeng_sql.Server.Session.Prepared.{ConnectionSession, with_session, handle_parse, handle_bind}

-- What answers a message without reading, and does not run out of fuel.
abbrev pub Answers : {D S A : Type 0} → Handler (World D S) A → Type 0
Answers {D} {S} m = (w : World D S) → ((m w).0 ≢ unfinished) × ((m w).1.wire.input ≡ w.wire.input)

module _ {D S : Type 0} where
  pure-Answers : {A : Type 0} (a : A) → Answers {D = D} {S = S} (pure a)
  pure-Answers a w = ((λ h. ground (arith, h)), refl)

  bind-Answers :
      {A B : Type 0} (m : Handler (World D S) A) (f : A → Handler (World D S) B)
      → Answers m
      → ((a : A) → Answers (f a))
      → Answers (m >>= f)
  bind-Answers m f hm hf w = answers (m w) (hm w)
    where
      answers :
          (r : Outcome _ × World D S)
          → (r.0 ≢ unfinished) × (r.1.wire.input ≡ w.wire.input)
          → ((and_then f r).0 ≢ unfinished) × ((and_then f r).1.wire.input ≡ w.wire.input)
      answers (done a, w1) h = ((hf a w1).0, (hf a w1).1 ∙ h.1)
      answers (failed, w1) h = ((λ e. ground (arith, e)), h.1)
      answers (panicked, w1) h = ((λ e. ground (arith, e)), h.1)
      answers (unfinished, w1) h = ((λ e. h.0 refl), h.1)

  write-Answers : (bytes : Bytes) → Answers {D = D} {S = S} (lift (write_all bytes))
  unfolding write_all
  write-Answers bytes w = ((λ h. ground (arith, h)), refl)

  send-Answers : (tag : ℕ) (body : Bytes) → Answers {D = D} {S = S} (lift (send_message tag body))
  unfolding send_message
  send-Answers tag body = write-Answers (message tag body)

  modify-Answers :
      (f : ConnectionSession S → ConnectionSession S) → Answers {D = D} {S = S} (modify f)
  modify-Answers f w = ((λ h. ground (arith, h)), refl)

  if-Answers :
      {A : Type 0} (b : Bool) (m n : Handler (World D S) A)
      → Answers m
      → Answers n
      → Answers (if b then m else n)
  if-Answers true m n hm hn = hm
  if-Answers false m n hm hn = hn

module _ {D S : Type 0} (e : Engine D S) where
  reply-Answers : (r : Bytes ⊎ QueryResult) → Answers {D = D} {S = S} (lift (reply e r))
  unfolding send_error
  reply-Answers (inl err) = send-Answers b'E' (b'M' ∷ (err ++ 0 ∷ 0 ∷ []))
  reply-Answers (inr result) = write-Answers (query_result_bytes result)

  send_ready-Answers : Answers (send_ready e)
  unfolding send_ready
  send_ready-Answers w = send-Answers b'Z' (ready_status e w.conn ∷ []) w

  run_sql-Answers : (sql : Bytes) → Answers (run_sql e sql)
  unfolding run_sql
  run_sql-Answers sql w = elim (Bool-cases (summarize_sql_panics sql)) [
    | inl p ↦ rw p ((λ h. ground (arith, h)), refl)
    | inr p ↦ rw p (
        let (result, session, db) = e.execute_session w.db w.conn.session sql in
        reply-Answers result
          record { wire = w.wire; conn = with_session session (is_err e result) w.conn; db = db })
  ]

  handle_execute-Answers : Answers (handle_execute e)
  unfolding handle_execute
  handle_execute-Answers w = execute (unwrap_or w.conn.last_statement [])
    where
      execute :
          (sql : Bytes)
          → let r : Outcome Unit × World D S = elim sql as (λ _. Outcome Unit × World D S) [
            | [] ↦ (done tt, w)
            | b ∷ rest ↦ run_sql e (substitute_params (b ∷ rest) w.conn.portal_params) w
          ] in
            (r.0 ≢ unfinished) × (r.1.wire.input ≡ w.wire.input)
      execute [] = ((λ h. ground (arith, h)), refl)
      execute (b ∷ rest) = run_sql-Answers (substitute_params (b ∷ rest) w.conn.portal_params) w

  module _ (h : Host) where
    changed-Answers :
        (f : ConnectionSession S → ConnectionSession S)
        → Answers {D = D} {S = S} (modify f >>= λ _. pure true)
    changed-Answers f w = ((λ h. ground (arith, h)), refl)

    ready-Answers : Answers (send_ready e >>= λ _. pure true)
    ready-Answers =
        bind-Answers (send_ready e) (λ _. pure true) send_ready-Answers (λ _. pure-Answers true)

    query-Answers : (sql : Bytes) → Answers (query e h sql)
    query-Answers [] = pure-Answers true
    query-Answers (b ∷ rest) =
        bind-Answers (run_sql e (b ∷ rest)) (λ _. send_ready e >>= λ _. pure true)
          (run_sql-Answers (b ∷ rest)) (λ _. ready-Answers)

    sync-Answers : Answers {D = D} {S = S} (
        modify (λ conn. with_session conn.session false conn) >>= λ _.
        send_ready e >>= λ _. pure true)
    sync-Answers =
        bind-Answers (modify (λ conn. with_session conn.session false conn))
          (λ _. send_ready e >>= λ _. pure true)
          (modify-Answers (λ conn. with_session conn.session false conn)) (λ _. ready-Answers)

    execute-Answers : Answers (handle_execute e >>= λ _. pure true)
    execute-Answers =
        bind-Answers (handle_execute e) (λ _. pure true) handle_execute-Answers
          (λ _. pure-Answers true)

    pub dispatch-Answers :
        (msg_type : ℕ) (payload : Bytes) → Answers (dispatch e h msg_type payload)
    unfolding dispatch
    dispatch-Answers t payload =
        if-Answers (t == b'Q') _ _ (query-Answers (read_cstring h payload)) (
          if-Answers (t == b'P') _ _ (changed-Answers (handle_parse h payload)) (
            if-Answers (t == b'B') _ _ (changed-Answers (handle_bind h payload)) (
              if-Answers (t == b'E') _ _ execute-Answers
                (if-Answers (t == b'S') _ _ sync-Answers (pure-Answers (not (t == b'X')))))))

    -- A round takes at least a byte off the stream, if the loop goes on.
    abbrev Steps : World D S → Outcome Bool × World D S → Type 0
    Steps w r = (r.0 ≢ unfinished) × (r.0 ≡ done true → length r.1.wire.input < length w.wire.input)

    read_u8_shorter :
        (w : Wire) {t : ℕ} {w' : Wire} → read_u8 w ≡ (done t, w') → length w'.input < length w.input
    unfolding read_u8
    read_u8_shorter w {t} {w'} k =
        let (got, w1, e1, k1) = bind_inv (receive 1) (λ g. pure (from_be_bytes g)) w k in
        let (parts, long) = receive_inv 1 w e1 in
        let same : w1 ≡ w' = (pure_inv (from_be_bytes got) w1 k1).1 in
        omega
          (arith, ap length parts, long, length-append got w1.input, ap (λ v. length v.input) same)

    handle_body :
        (msg_type : ℕ) (w v : World D S)
        → length v.wire.input < length w.wire.input
        → Steps w (handle e h (done msg_type) v)
    unfolding handle
    handle_body t w v shorter = body (read_body v.wire) refl
      where
        body :
            (r : Outcome Bytes × Wire)
            → read_body v.wire ≡ r
            → Steps w
                (and_then (dispatch e h t) (r.0, record { wire = r.1; conn = v.conn; db = v.db }))
        body (done payload, wire) got =
            let (front, parts) = read_body-Reads v.wire payload wire got in
            let less : length wire.input ≤ length v.wire.input =
              omega (arith, ap length parts, length-append front wire.input) in
            let (ends, same) =
              dispatch-Answers t payload record { wire = wire; conn = v.conn; db = v.db } in
            (ends, λ _. omega (arith, ap length same, less, shorter))
        body (failed, wire) got = ((λ e. ground (arith, e)), λ e. absurd (ground (arith, e)))
        body (panicked, wire) got = ((λ e. ground (arith, e)), λ e. absurd (ground (arith, e)))
        body (unfinished, wire) got = absurd (read_body-Ends v.wire (ap (λ p. p.0) got))

    round-Steps : (w : World D S) → Steps w (round e h w)
    unfolding round
    round-Steps w = tag (read_u8 w.wire) refl
      where
        tag :
            (r : Outcome ℕ × Wire)
            → read_u8 w.wire ≡ r
            → Steps w (handle e h r.0 record { wire = r.1; conn = w.conn; db = w.db })
        tag (done t, wire) got =
            handle_body t w record { wire = wire; conn = w.conn; db = w.db }
              (read_u8_shorter w.wire got)
        tag (failed, wire) got = ((λ e. ground (arith, e)), λ e. absurd (ground (arith, e)))
        tag (panicked, wire) got = ((λ e. ground (arith, e)), λ e. absurd (ground (arith, e)))
        tag (unfinished, wire) got = ((λ e. ground (arith, e)), λ e. absurd (ground (arith, e)))

    -- The loop ends when it has as many rounds as there are bytes left, and one more.
    pub serve_done :
        (fuel : ℕ) (w : World D S) → length w.wire.input < fuel → (serve e h fuel w).0 ≢ unfinished
    unfolding serve
    serve_done zero w room = absurd (omega arith)
    serve_done (suc fuel) w room = rounds (round e h w) (round-Steps w) (serve_done fuel)
      where
        rounds :
            (r : Outcome Bool × World D S)
            → Steps w r
            → ((v : World D S) → length v.wire.input < fuel → (serve e h fuel v).0 ≢ unfinished)
            → (and_then (λ more. if more then serve e h fuel else pure tt) r).0 ≢ unfinished
        rounds (done true, v) s next = next v (omega (arith, s.1 refl, room))
        rounds (done false, v) s next = λ e. ground (arith, e)
        rounds (failed, v) s next = λ e. ground (arith, e)
        rounds (panicked, v) s next = λ e. ground (arith, e)
        rounds (unfinished, v) s next = absurd (s.0 refl)
