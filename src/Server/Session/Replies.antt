-- ===== src/Server/Session/Replies.antt =====
-- protocol.rs: what the server sends back, described by the frames of the protocol, and what a
-- statement does to a connection.
use mathlib.Core.List.{append_assoc, append-nil}
use moodeng_sql.Prelude.{
  ℕ, Bool, true, false, ◌+◌, ◌%◌, ◌^◌, ◌≡◌, refl, ap, sym, ◌∙◌, Option, none, some, List, [], ◌∷◌,
  ◌++◌, map, ◌⊎◌, inl, inr, arith, Bool-cases,
}
use moodeng_sql.Prelude.Lists.{length, concat}
use moodeng_sql.Prelude.Bytes.{Bytes, to_be_bytes}
use moodeng_sql.Server.Text.{ascii, decimal}
use moodeng_sql.Server.Wire.{Wire, done, panicked, message, write_all, send_message, send_error}
use moodeng_sql.Server.Substitute.{summarize_sql_panics}
use moodeng_sql.Server.Session.{Engine, World, ready_status, send_ready, reply, is_err, run_sql}
use moodeng_sql.Server.Session.Result.{
  QueryResult, columns_bytes, values_bytes, rows_bytes, query_result_bytes,
}

-- What the server sends during a session.
pub data Frame : Type 0 where
  row_description : (columns : List Bytes) → Frame
  data_row : (values : List (Option Bytes)) → Frame
  command_complete : (text : Bytes) → Frame
  error_response : (text : Bytes) → Frame
  ready_for_query : (status : ℕ) → Frame

-- A tag, the length of what follows, its own four bytes included, and the body.
abbrev framed : ℕ → Bytes → Bytes
framed tag body = tag ∷ to_be_bytes 4 ((length body + 4) % 2 ^ 32) ++ body

-- A column's name, and table 0, column 0, type 0 of any size.
abbrev column_bytes : Bytes → Bytes
column_bytes col = col ++ 0 ∷ 0 ∷ 0 ∷ 0 ∷ 0 ∷ 0 ∷ 0 ∷ 255 ∷ 255 ∷ 255 ∷ 255 ∷ 0 ∷ 0 ∷ []

-- The length of a value and its text; the length of NULL is -1.
abbrev value_bytes : Option Bytes → Bytes
value_bytes none = 255 ∷ 255 ∷ 255 ∷ 255 ∷ []
value_bytes (some s) = to_be_bytes 4 (length s % 2 ^ 32) ++ s

abbrev frame_bytes : Frame → Bytes
frame_bytes (row_description columns) =
    framed b'T' (to_be_bytes 2 (length columns % 2 ^ 16) ++ concat (map column_bytes columns))
frame_bytes (data_row values) =
    framed b'D' (to_be_bytes 2 (length values % 2 ^ 16) ++ concat (map value_bytes values))
frame_bytes (command_complete text) = framed b'C' (text ++ 0 ∷ [])
frame_bytes (error_response text) = framed b'E' (b'M' ∷ (text ++ 0 ∷ 0 ∷ []))
frame_bytes (ready_for_query status) = framed b'Z' (status ∷ [])

unfoldable pub sent : List Frame → Bytes
sent frames = concat (map frame_bytes frames)

-- A result without rows: what it says of itself, or how many rows it changed.
abbrev done_text : Option Bytes → ℕ → Bytes
done_text none rows_affected = decimal rows_affected ++ ascii " 0"
done_text (some text) rows_affected = text

abbrev result_frames : (columns : List Bytes) → List (List (Option Bytes)) → Bytes → List Frame
result_frames columns [] text = command_complete text ∷ []
result_frames columns (row ∷ rows) text =
    row_description columns
    ∷ (map data_row (row ∷ rows)
        ++ command_complete (ascii "SELECT " ++ decimal (length (row ∷ rows))) ∷ [])

-- A frame for the columns, one for each row, and the number of rows; or the error.
unfoldable pub answer : Bytes ⊎ QueryResult → List Frame
answer (inr result) =
    result_frames result.columns result.rows (done_text result.message result.rows_affected)
answer (inl err) = error_response err ∷ []

unfoldable pub fails : Bytes ⊎ QueryResult → Bool
fails (inr result) = false
fails (inl err) = true

-- Failing, in a transaction, or idle.
unfoldable pub status_of : (failing active : Bool) → ℕ
status_of true active = b'E'
status_of false true = b'T'
status_of false false = b'I'

columns_bytes_lem : (cols : List Bytes) → columns_bytes cols ≡ concat (map column_bytes cols)
unfolding to_be_bytes
columns_bytes_lem [] = refl
columns_bytes_lem (col ∷ cols) = ap (λ s. column_bytes col ++ s) (columns_bytes_lem cols)

values_bytes_lem : (vals : List (Option Bytes)) → values_bytes vals ≡ concat (map value_bytes vals)
unfolding to_be_bytes
values_bytes_lem [] = refl
values_bytes_lem (none ∷ vals) = ap (λ s. value_bytes none ++ s) (values_bytes_lem vals)
values_bytes_lem (some v ∷ vals) = ap (λ s. value_bytes (some v) ++ s) (values_bytes_lem vals)

row_lem :
    (row : List (Option Bytes))
    → message b'D' (to_be_bytes 2 (length row % 2 ^ 16) ++ values_bytes row)
      ≡ frame_bytes (data_row row)
row_lem row =
    ap (λ s. framed b'D' (to_be_bytes 2 (length row % 2 ^ 16) ++ s)) (values_bytes_lem row)

rows_bytes_lem :
    (rows : List (List (Option Bytes))) (frames : List Frame)
    → rows_bytes rows ++ sent frames ≡ sent (map data_row rows ++ frames)
unfolding sent
rows_bytes_lem [] frames = refl
rows_bytes_lem (row ∷ rows) frames =
    append_assoc (message b'D' (to_be_bytes 2 (length row % 2 ^ 16) ++ values_bytes row))
      (rows_bytes rows) (sent frames)
    ∙ λ i. row_lem row i ++ rows_bytes_lem rows frames i

complete_lem : (text : Bytes) → message b'C' (text ++ 0 ∷ []) ≡ sent (command_complete text ∷ [])
unfolding sent
complete_lem text = sym (append-nil (frame_bytes (command_complete text)))

result_lem :
    (columns : List Bytes) (rows : List (List (Option Bytes))) (rows_affected : ℕ)
    (text : Option Bytes)
    → query_result_bytes
        record { columns = columns; rows = rows; rows_affected = rows_affected; message = text }
      ≡ sent (result_frames columns rows (done_text text rows_affected))
unfolding sent query_result_bytes
result_lem columns [] n none = complete_lem (decimal n ++ ascii " 0")
result_lem columns [] n (some text) = complete_lem text
result_lem columns (row ∷ rows) n text =
    let count : Bytes = ascii "SELECT " ++ decimal (length (row ∷ rows)) in
    let last : message b'C' (ascii "SELECT " ++ (decimal (length (row ∷ rows)) ++ 0 ∷ []))
        ≡ sent (command_complete count ∷ []) =
      ap (message b'C')
        (sym (append_assoc (ascii "SELECT ") (decimal (length (row ∷ rows))) (0 ∷ [])))
      ∙ complete_lem count in
    λ i.
      framed b'T' (to_be_bytes 2 (length columns % 2 ^ 16) ++ columns_bytes_lem columns i)
      ++ (ap (λ s. rows_bytes (row ∷ rows) ++ s) last
            ∙ rows_bytes_lem (row ∷ rows) (command_complete count ∷ []))
          i

module _ {D S : Type 0} (e : Engine D S) where
  reply_lem :
      (r : Bytes ⊎ QueryResult) (w : Wire)
      → reply e r w ≡ (done tt, record { input = w.input; output = w.output ++ sent (answer r) })
  unfolding send_error send_message write_all answer sent
  reply_lem (inl err) w =
      ap (λ s. (done tt, record { input = w.input; output = w.output ++ s }))
        (sym (append-nil (frame_bytes (error_response err))))
  reply_lem (inr result) w =
      ap (λ s. (done tt, record { input = w.input; output = w.output ++ s }))
        (result_lem result.columns result.rows result.rows_affected result.message)

  -- The connection and the database behind a statement that was executed.
  abbrev pub executed : Bytes → World D S → World D S
  executed sql w =
      let x = e.execute_session w.db w.conn.session sql in
      record {
        wire = record { input = w.wire.input; output = w.wire.output ++ sent (answer x.0) };
        conn = record w.conn { session = x.1; in_error = fails x.0 };
        db = x.2;
      }

  is_err_lem : (r : Bytes ⊎ QueryResult) → is_err e r ≡ fails r
  unfolding fails
  is_err_lem (inl err) = refl
  is_err_lem (inr result) = refl

  pub run_sql_lem :
      (sql : Bytes) (w : World D S)
      → summarize_sql_panics sql ≡ false
      → run_sql e sql w ≡ (done tt, executed sql w)
  unfolding run_sql
  run_sql_lem sql w plain =
      let x : (Bytes ⊎ QueryResult) × S × D = e.execute_session w.db w.conn.session sql in
      rw (run_sql, plain)
        (λ i.
          let p = reply_lem x.0 w.wire i in
          (
            p.0,
            record {
              wire = p.1;
              conn = record w.conn { session = x.1; in_error = is_err_lem x.0 i };
              db = x.2;
            },
          ))

  pub run_sql_panics :
      (sql : Bytes) (w : World D S)
      → summarize_sql_panics sql ≡ true
      → run_sql e sql w ≡ (panicked, w)
  unfolding run_sql
  run_sql_panics sql w bad = rw (run_sql, bad) refl

  -- The connection that has been told its state.
  abbrev pub told : World D S → World D S
  told w = record w {
    wire = record {
      input = w.wire.input;
      output =
          w.wire.output
          ++ sent (ready_for_query (status_of w.conn.in_error (e.is_active w.conn.session)) ∷ []);
    };
  }

  status_lem :
      (w : World D S)
      → ready_status e w.conn ≡ status_of w.conn.in_error (e.is_active w.conn.session)
  unfolding status_of
  status_lem w = elim (Bool-cases w.conn.in_error) [
    | inl p ↦ ground (arith, p)
    | inr p ↦ elim (Bool-cases (e.is_active w.conn.session)) [
      | inl q ↦ ground (arith, p, q)
      | inr q ↦ ground (arith, p, q)
    ]
  ]

  pub send_ready_lem : (w : World D S) → send_ready e w ≡ (done tt, told w)
  unfolding send_ready send_message write_all sent
  send_ready_lem w =
      let status : ℕ = status_of w.conn.in_error (e.is_active w.conn.session) in
      let sending : Bytes → World D S = λ bytes. record w {
        wire = record { input = w.wire.input; output = w.wire.output ++ bytes };
      } in
      ap (λ n. (done tt, sending (message b'Z' (n ∷ [])))) (status_lem w)
      ∙ ap (λ s. (done tt, sending s)) (sym (append-nil (frame_bytes (ready_for_query status))))
