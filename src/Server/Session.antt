-- ===== src/Server/Session.antt =====
-- moodeng-server/src/protocol.rs: `run_session`, its loop and the execution of statements. The
-- engine behind it is an interface; the log and the metrics are left out.
pub mod Result
pub mod Prepared
pub mod Locked
pub mod Finished
pub mod Ended
pub mod Replies
pub mod Messages
pub mod Responses
pub mod Answered
pub mod Replied
use moodeng_sql.Prelude.{
  ℕ, zero, suc, Bool, true, false, ◌+◌, ◌-◌, ◌%◌, ◌^◌, Option, none, some, List, [], ◌∷◌, ◌++◌, ltb,
  ◌==◌, not, ◌&&◌, inl, inr, ◌⊎◌, if◌then◌else◌,
}
use moodeng_sql.Prelude.Lists.{length, concat}
use mathlib.Core.List.{map}
use moodeng_sql.Prelude.Map.{Map, lookup, insert}
use moodeng_sql.Prelude.Bytes.{Bytes, to_be_bytes, from_be_bytes, read_exact}
use moodeng_sql.Server.Text.{ascii, decimal, bytes_key}
use moodeng_sql.Server.Scram.{Checked, Crypto}
use moodeng_sql.Server.Wire.{
  Host, Wire, Outcome, Handler, done, failed, panicked, unfinished, and_then, ◌>>=◌, pure, fail,
  panic, receive, read_u8, read_body, negative, message, write_all, send_message, send_error,
  read_cstring, read_cstring_buf,
}
use moodeng_sql.Server.Auth.{
  AuthConfig, TlsSettings, required, scram_available, authenticate, negotiate_stream,
}
use moodeng_sql.Server.Substitute.{substitute_params, summarize_sql_panics}
use moodeng_sql.Server.Session.Result.{
  QueryResult, columns_bytes, values_bytes, rows_bytes, unwrap_or, query_result_bytes,
}
use moodeng_sql.Server.Session.Prepared.{
  ConnectionSession, with_session, store, chosen, bound, count_i16, behind_of, behind_count,
  handle_parse, cut_value, sized_value, next_value, bind_params, sent_params, handle_bind,
}

-- `Session` and `Database` of moodeng-core, as the server uses them: the result, or the text of
-- the error, with the session and the database as they are afterwards.
pub record Engine (D S : Type 0) : Type 0 where
  pub new_session : S
  pub is_active : S → Bool
  pub execute_session : D → S → Bytes → (Bytes ⊎ QueryResult) × S × D

-- A connection with the database that it works on.
pub record World (D S : Type 0) : Type 0 where
  pub wire : Wire
  pub conn : ConnectionSession S
  pub db : D

abbrev pub lift : {D S A : Type 0} → Handler Wire A → Handler (World D S) A
lift m w = let (r, wire) = m w.wire in (r, record { wire = wire; conn = w.conn; db = w.db })

abbrev pub modify :
    {D S : Type 0} → (ConnectionSession S → ConnectionSession S) → Handler (World D S) Unit
modify f w = (done tt, record { wire = w.wire; conn = f w.conn; db = w.db })

abbrev pub parameter_status : Bytes → Bytes → Bytes
parameter_status k v = message b'S' (k ++ 0 ∷ (v ++ 0 ∷ []))

abbrev pub greeting : Bytes
greeting =
    message b'R' (to_be_bytes 4 0)
    ++ (parameter_status (ascii "server_version") (ascii "16.0-moodeng")
        ++ (parameter_status (ascii "server_encoding") (ascii "UTF8")
            ++ (parameter_status (ascii "client_encoding") (ascii "UTF8")
                ++ message b'Z' (b'I' ∷ []))))

-- The version of the protocol, which is read off the startup message.
unfoldable pub read_version : Handler Wire Unit
unfolding read_body
read_version = do buf ← read_body; (if ltb (length buf) 4 then panic else pure tt)

-- The checks before the session, and whether it is reached.
unfoldable pub admit : Crypto → Host → Bytes → AuthConfig → Bool → Handler Wire Bool
unfolding authenticate
admit c h nonce auth encrypted =
    if required auth
      && (not encrypted && (auth.require_tls_for_password && not (scram_available auth)))
    then (do _ ← send_error (ascii "password authentication requires TLS"); pure false)
    else if required auth
    then authenticate c h nonce auth
    else pure true

module _ {D S : Type 0} (e : Engine D S) where
  abbrev pub new : ConnectionSession S
  new = record {
    session = e.new_session;
    prepared = [];
    portal_params = [];
    last_statement = none;
    in_error = false;
  }

  abbrev pub ready_status : ConnectionSession S → ℕ
  ready_status conn =
      if conn.in_error then b'E' else if e.is_active conn.session then b'T' else b'I'

  unfoldable pub send_ready : Handler (World D S) Unit
  send_ready w = lift (send_message b'Z' (ready_status w.conn ∷ [])) w

  abbrev pub reply : Bytes ⊎ QueryResult → Handler Wire Unit
  reply (inr result) = write_all (query_result_bytes result)
  reply (inl err) = send_error err

  abbrev pub is_err : Bytes ⊎ QueryResult → Bool
  is_err (inr result) = false
  is_err (inl err) = true

  -- The summary for the log is made before the statement is executed.
  unfoldable pub run_sql : Bytes → Handler (World D S) Unit
  unfolding write_all send_error query_result_bytes
  run_sql sql w =
      if summarize_sql_panics sql
      then (panicked, w)
      else let (result, session, db) = e.execute_session w.db w.conn.session sql in
        lift (reply result)
          record { wire = w.wire; conn = with_session session (is_err result) w.conn; db = db }

  unfoldable pub handle_execute : Handler (World D S) Unit
  unfolding run_sql substitute_params
  handle_execute w = elim (unwrap_or w.conn.last_statement []) [
    | [] ↦ (done tt, w)
    | b ∷ rest ↦ run_sql (substitute_params (b ∷ rest) w.conn.portal_params) w
  ]

  module _ (h : Host) where
    abbrev pub query : Bytes → Handler (World D S) Bool
    query [] = pure true
    query (b ∷ rest) = do _ ← run_sql (b ∷ rest); _ ← send_ready; pure true

    -- One message; whether the loop goes on.
    unfoldable pub dispatch : ℕ → Bytes → Handler (World D S) Bool
    unfolding run_sql send_ready handle_parse handle_bind handle_execute
    dispatch msg_type payload =
        if msg_type == b'Q'
        then query (read_cstring h payload)
        else if msg_type == b'P'
        then (do _ ← modify (handle_parse h payload); pure true)
        else if msg_type == b'B'
        then (do _ ← modify (handle_bind h payload); pure true)
        else if msg_type == b'E'
        then (do _ ← handle_execute; pure true)
        else if msg_type == b'S'
        then (do
          _ ← modify (λ conn. with_session conn.session false conn)
          _ ← send_ready
          pure true)
        else pure (not (msg_type == b'X'))

    -- Behind the type of a message, or the end of the stream.
    unfoldable pub handle : Outcome ℕ → Handler (World D S) Bool
    unfolding dispatch read_body
    handle (done msg_type) = do payload ← lift read_body; dispatch msg_type payload
    handle r = pure false

    unfoldable pub round : Handler (World D S) Bool
    unfolding handle read_u8
    round w =
        let (r, wire) = read_u8 w.wire in handle r record { wire = wire; conn = w.conn; db = w.db }

    -- The loop, on fuel.
    unfoldable pub serve : ℕ → Handler (World D S) Unit
    unfolding round
    serve zero = λ w. (unfinished, w)
    serve (suc fuel) = round >>= λ more. if more then serve fuel else pure tt

    -- Each round reads at least a byte, so that more fuel than bytes is enough.
    unfoldable pub serve_all : Handler (World D S) Unit
    unfolding serve
    serve_all w = serve (suc (length w.wire.input)) w

    unfoldable pub serve_client : Handler (World D S) Unit
    unfolding serve_all write_all
    serve_client = do _ ← lift (write_all greeting); _ ← modify (λ _. new); serve_all

    module _ (c : Crypto) (nonce : Bytes) (auth : AuthConfig) where
      unfoldable pub run_session : Bool → Handler (World D S) Unit
      unfolding read_version admit serve_client
      run_session encrypted = do
        _ ← lift read_version
        admitted ← lift (admit c h nonce auth encrypted)
        (if admitted then serve_client else pure tt)

      unfoldable pub handle_connection :
          {Config : Type 0} → TlsSettings → Option Config → Handler (World D S) Unit
      unfolding run_session negotiate_stream
      handle_connection tls acceptor = do
        encrypted ← lift (negotiate_stream h tls acceptor)
        run_session encrypted
