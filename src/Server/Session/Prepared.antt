-- ===== src/Server/Session/Prepared.antt =====
-- moodeng-server/src: the state of session.rs, and `handle_parse` and `handle_bind` of protocol.rs.
use moodeng_sql.Prelude.{
  ℕ, zero, suc, Bool, true, false, ◌^◌, Option, none, some, List, [], ◌∷◌, ltb, if◌then◌else◌,
}
use moodeng_sql.Prelude.Map.{Map, lookup, insert}
use moodeng_sql.Prelude.Bytes.{Bytes, from_be_bytes, read_exact}
use moodeng_sql.Server.Text.{bytes_key}
use moodeng_sql.Server.Wire.{Host, negative, read_cstring, read_cstring_buf}

pub record ConnectionSession (S : Type 0) : Type 0 where
  pub session : S
  pub prepared : Map Bytes Bytes
  pub portal_params : List (Option Bytes)
  pub last_statement : Option Bytes
  pub in_error : Bool

abbrev pub with_session : {S : Type 0} → S → Bool → ConnectionSession S → ConnectionSession S
with_session s failing conn = record {
  session = s;
  prepared = conn.prepared;
  portal_params = conn.portal_params;
  last_statement = conn.last_statement;
  in_error = failing;
}

-- A statement without a name is the last one.
abbrev pub store : {S : Type 0} → (name sql : Bytes) → ConnectionSession S → ConnectionSession S
store [] sql conn = record {
  session = conn.session;
  prepared = conn.prepared;
  portal_params = conn.portal_params;
  last_statement = some sql;
  in_error = conn.in_error;
}
store (b ∷ name) sql conn = record {
  session = conn.session;
  prepared = insert (b ∷ name) sql conn.prepared;
  portal_params = conn.portal_params;
  last_statement = conn.last_statement;
  in_error = conn.in_error;
}

abbrev pub chosen : {S : Type 0} → (statement : Bytes) → ConnectionSession S → Option Bytes
chosen [] conn = conn.last_statement
chosen (b ∷ name) conn = elim (lookup (b ∷ name) conn.prepared) [
  | none ↦ conn.last_statement
  | some sql ↦ some sql
]

abbrev pub bound :
    {S : Type 0}
    → (statement : Bytes) → List (Option Bytes)
    → ConnectionSession S
    → ConnectionSession S
bound statement params conn = record {
  session = conn.session;
  prepared = conn.prepared;
  portal_params = params;
  last_statement = chosen statement conn;
  in_error = conn.in_error;
}

-- A count of 16 bits, of which a negative one means none.
abbrev pub count_i16 : Bytes → ℕ
count_i16 bits = if ltb (from_be_bytes bits) (2 ^ 15) then from_be_bytes bits else 0

abbrev pub behind_of : Option (Bytes × Bytes) → Bytes → Bytes
behind_of none cur = cur
behind_of (some (_, rest)) cur = rest

abbrev pub behind_count : Bytes → Bytes
behind_count cur = behind_of (read_exact 2 cur) cur

module _ (h : Host) where
  unfoldable pub handle_parse : {S : Type 0} → Bytes → ConnectionSession S → ConnectionSession S
  unfolding read_cstring_buf read_cstring
  handle_parse payload conn =
      let (name, cur) = read_cstring_buf h payload in store name (read_cstring h cur) conn

  -- A value of a parameter and the others behind it. One that is cut off is left out.
  abbrev pub cut_value :
      (Bytes → List (Option Bytes)) → Bytes → Option (Bytes × Bytes) → List (Option Bytes)
  cut_value others rest none = others rest
  cut_value others rest (some (val, behind)) = some (h.from_utf8_lossy val) ∷ others behind

  abbrev pub sized_value : (Bytes → List (Option Bytes)) → ℕ → Bytes → List (Option Bytes)
  sized_value others len rest = elim (negative len) [
    | true ↦ none ∷ others rest
    | false ↦ cut_value others rest (read_exact len rest)
  ]

  abbrev pub next_value :
      (Bytes → List (Option Bytes)) → Option (Bytes × Bytes) → List (Option Bytes)
  next_value others none = []
  next_value others (some (bits, rest)) = sized_value others (from_be_bytes bits) rest

  -- The values of `n` parameters. Where less than a length is left, so it is for the next ones.
  unfoldable pub bind_params : ℕ → Bytes → List (Option Bytes)
  bind_params zero cur = []
  bind_params (suc n) cur = next_value (bind_params n) (read_exact 4 cur)

  abbrev pub sent_params : Option (Bytes × Bytes) → List (Option Bytes) → List (Option Bytes)
  sent_params none before = before
  sent_params (some (bits, rest)) before = bind_params (count_i16 bits) rest

  unfoldable pub handle_bind : {S : Type 0} → Bytes → ConnectionSession S → ConnectionSession S
  unfolding read_cstring_buf bind_params
  handle_bind payload conn =
      let (_, after_portal) = read_cstring_buf h payload in
      let (statement, cur) = read_cstring_buf h after_portal in
      bound statement (sent_params (read_exact 2 (behind_count cur)) conn.portal_params) conn
