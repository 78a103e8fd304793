-- ===== src/Server/Session/Result.antt =====
-- moodeng-server/src/protocol.rs: the messages of `send_query_result`.
use moodeng_sql.Prelude.{ℕ, ◌-◌, ◌%◌, ◌^◌, Option, none, some, List, [], ◌∷◌, ◌++◌}
use moodeng_sql.Prelude.Lists.{length}
use moodeng_sql.Prelude.Bytes.{Bytes, to_be_bytes}
use moodeng_sql.Server.Text.{ascii, decimal, bytes_key}
use moodeng_sql.Server.Wire.{message}

-- A value as its text, none where it is null.
pub record QueryResult : Type 0 where
  pub columns : List Bytes
  pub rows : List (List (Option Bytes))
  pub rows_affected : ℕ
  pub message : Option Bytes

abbrev pub columns_bytes : List Bytes → Bytes
columns_bytes [] = []
columns_bytes (col ∷ cols) =
    (col
      ++ 0
        ∷ (to_be_bytes 4 0 ++ (to_be_bytes 2 0 ++ (to_be_bytes 4 (2 ^ 32 - 1) ++ to_be_bytes 2 0))))
    ++ columns_bytes cols

abbrev pub values_bytes : List (Option Bytes) → Bytes
values_bytes [] = []
values_bytes (none ∷ vals) = to_be_bytes 4 (2 ^ 32 - 1) ++ values_bytes vals
values_bytes (some s ∷ vals) = (to_be_bytes 4 (length s % 2 ^ 32) ++ s) ++ values_bytes vals

abbrev pub rows_bytes : List (List (Option Bytes)) → Bytes
rows_bytes [] = []
rows_bytes (row ∷ rows) =
    message b'D' (to_be_bytes 2 (length row % 2 ^ 16) ++ values_bytes row) ++ rows_bytes rows

abbrev pub unwrap_or : Option Bytes → Bytes → Bytes
unwrap_or none s = s
unwrap_or (some t) s = t

-- The messages of `send_query_result`.
unfoldable pub query_result_bytes : QueryResult → Bytes
query_result_bytes result = elim result.rows [
  | [] ↦
      message b'C' (unwrap_or result.message (decimal result.rows_affected ++ ascii " 0") ++ 0 ∷ [])
  | row ∷ rows ↦
      message b'T' (to_be_bytes 2 (length result.columns % 2 ^ 16) ++ columns_bytes result.columns)
      ++ (rows_bytes (row ∷ rows)
          ++ message b'C' (ascii "SELECT " ++ (decimal (length (row ∷ rows)) ++ 0 ∷ [])))
]
