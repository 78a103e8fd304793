-- ===== src/Server/Session/Messages.antt =====
-- protocol.rs: the messages of a client, their bytes, and what the handlers read from these.
use moodeng_sql.Prelude.{
  ℕ, false, ◌+◌, ◌-◌, ◌%◌, ◌^◌, ◌<◌, ◌≡◌, refl, ap, ◌∙◌, Option, none, some, List, [], ◌∷◌, ◌++◌,
  arith, if◌then◌else◌,
}
use mathlib.Core.Path.{subst}
use moodeng_sql.Prelude.Lists.{length, All}
use moodeng_sql.Prelude.Bytes.{
  Bytes, to_be_bytes, from_be_bytes, read_exact, read_exact-append, length-to_be_bytes,
  from_be_bytes-to_be_bytes, from_be_acc,
}
use moodeng_sql.Server.Text.{Lacks, split_once_lem, bytes_key}
use moodeng_sql.Server.Wire.{
  Host, Wire, done, and_then, pure, panic, receive, read_u8, read_i32, read_body, negative, message,
  read_cstring, read_cstring_buf,
}
use moodeng_sql.Server.Session.Prepared.{
  ConnectionSession, store, bound, sent_params, behind_of, handle_parse, handle_bind, bind_params,
  next_value, sized_value, cut_value, count_i16, behind_count,
}

-- What a client sends: queries, statements to prepare, binds to the portal without a name that are
-- without formats, executes, syncs and terminates. Describe, Close and Flush are left out, and so is
-- a bind with formats, which the server misreads.
pub data Message : Type 0 where
  simple_query : (sql : Bytes) → Message
  parse_as : (name sql : Bytes) → Message
  bind_to : (statement : Bytes) → (params : List (Option Bytes)) → Message
  execute sync terminate : Message

abbrev pub encode_params : List (Option Bytes) → Bytes
encode_params [] = []
encode_params (none ∷ params) = to_be_bytes 4 (2 ^ 32 - 1) ++ encode_params params
encode_params (some v ∷ params) = to_be_bytes 4 (length v) ++ (v ++ encode_params params)

abbrev pub tag_of : Message → ℕ
tag_of (simple_query sql) = b'Q'
tag_of (parse_as name sql) = b'P'
tag_of (bind_to statement params) = b'B'
tag_of execute = b'E'
tag_of sync = b'S'
tag_of terminate = b'X'

abbrev pub payload_of : Message → Bytes
payload_of (simple_query sql) = sql ++ 0 ∷ []
payload_of (parse_as name sql) = name ++ 0 ∷ (sql ++ 0 ∷ to_be_bytes 2 0)
payload_of (bind_to statement params) =
    0
    ∷ (statement
        ++ 0 ∷ (to_be_bytes 2 0 ++ (to_be_bytes 2 (length params) ++ encode_params params)))
payload_of execute = 0 ∷ to_be_bytes 4 0
payload_of sync = []
payload_of terminate = []

abbrev pub encode : Message → Bytes
encode m = message (tag_of m) (payload_of m)

-- A text without a zero that UTF-8 has.
abbrev pub IsText : Host → Bytes → Type 0
IsText h s = Lacks 0 s × (h.from_utf8_lossy s ≡ s)

abbrev pub IsParam : Host → Option Bytes → Type 0
IsParam h none = Unit
IsParam h (some v) = (length v < 2 ^ 31) × (h.from_utf8_lossy v ≡ v)

abbrev pub IsSpelled : Host → Message → Type 0
IsSpelled h (simple_query sql) = IsText h sql
IsSpelled h (parse_as name sql) = IsText h name × IsText h sql
IsSpelled h (bind_to statement params) =
    (h.from_utf8_lossy [] ≡ [])
    × IsText h statement
    × (length params < 2 ^ 15)
    × All (IsParam h) params
IsSpelled h execute = Unit
IsSpelled h sync = Unit
IsSpelled h terminate = Unit

-- A message that the server can read: its texts are texts, and its length fits in an `i32`.
abbrev pub IsSendable : Host → Message → Type 0
IsSendable h m = IsSpelled h m × (length (payload_of m) + 4 < 2 ^ 31)

read_cstring_buf_lem :
    (h : Host) (s rest : Bytes) → IsText h s → read_cstring_buf h (s ++ 0 ∷ rest) ≡ (s, rest)
unfolding read_cstring_buf
read_cstring_buf_lem h s rest (lacks, utf) =
    rw (read_cstring_buf, split_once_lem 0 s rest lacks) (λ i. (utf i, rest))

pub read_cstring_lem : (h : Host) (s rest : Bytes) → IsText h s → read_cstring h (s ++ 0 ∷ rest) ≡ s
unfolding read_cstring
read_cstring_lem h s rest text = ap (λ p. p.0) (read_cstring_buf_lem h s rest text)

receive_lem :
    (bytes rest output : Bytes)
    → receive (length bytes) record { input = bytes ++ rest; output = output }
      ≡ (done bytes, record { input = rest; output = output })
unfolding receive
receive_lem bytes rest output = rw (receive, read_exact-append bytes rest) refl

read_i32_lem :
    (n : ℕ) (rest output : Bytes)
    → n < 2 ^ 32
    → read_i32 record { input = to_be_bytes 4 n ++ rest; output = output }
      ≡ (done n, record { input = rest; output = output })
unfolding read_i32
read_i32_lem n rest output room =
    let wire : Wire = record { input = to_be_bytes 4 n ++ rest; output = output } in
    let got : receive 4 wire ≡ (done (to_be_bytes 4 n), record { input = rest; output = output }) =
      subst
        (λ k. receive k wire ≡ (done (to_be_bytes 4 n), record { input = rest; output = output }))
        (length-to_be_bytes 4 n) (receive_lem (to_be_bytes 4 n) rest output) in
    ap (and_then (λ g. pure (from_be_bytes g))) got ∙ λ i. (
      done (from_be_bytes-to_be_bytes 4 n (omega (arith, room)) i),
      record { input = rest; output = output },
    )

pub read_body_lem :
    (body rest output : Bytes)
    → length body + 4 < 2 ^ 31
    → read_body record {
      input = to_be_bytes 4 ((length body + 4) % 2 ^ 32) ++ (body ++ rest);
      output = output;
    }
      ≡ (done body, record { input = rest; output = output })
unfolding read_body
read_body_lem body rest output room =
    let whole : (length body + 4) % 2 ^ 32 ≡ length body + 4 = omega (arith, room) in
    let small : negative (length body + 4) ≡ false = ground (arith, room) in
    let back : length body + 4 - 4 ≡ length body = omega arith in
    ap (and_then (λ len. if negative len then panic else receive (len - 4)))
      (read_i32_lem ((length body + 4) % 2 ^ 32) (body ++ rest) output (omega arith))
    ∙ rw (whole, small, back) (receive_lem body rest output)

pub read_u8_lem :
    (t : ℕ) (rest output : Bytes)
    → read_u8 record { input = t ∷ rest; output = output }
      ≡ (done t, record { input = rest; output = output })
unfolding read_u8 receive read_exact from_be_bytes from_be_acc
read_u8_lem t rest output =
    ap (λ n. (done n, record { input = rest; output = output })) (omega arith)

read_bits :
    (k n : ℕ) (rest : Bytes) → read_exact k (to_be_bytes k n ++ rest) ≡ some (to_be_bytes k n, rest)
read_bits k n rest =
    subst (λ l. read_exact l (to_be_bytes k n ++ rest) ≡ some (to_be_bytes k n, rest))
      (length-to_be_bytes k n) (read_exact-append (to_be_bytes k n) rest)

count_i16_lem : (n : ℕ) → n < 2 ^ 15 → count_i16 (to_be_bytes 2 n) ≡ n
count_i16_lem n few = rw (from_be_bytes-to_be_bytes 2 n (omega (arith, few))) (ground (arith, few))

module _ (h : Host) where
  sized_value_lem :
      (others : Bytes → List (Option Bytes)) (len : ℕ) (rest : Bytes)
      → negative len ≡ false
      → sized_value h others len rest ≡ cut_value h others rest (read_exact len rest)
  sized_value_lem others len rest e = ground (arith, e)

  -- The parameters of a bind are those that were sent.
  bind_params_lem :
      (params : List (Option Bytes))
      → All (IsParam h) params
      → bind_params h (length params) (encode_params params) ≡ params
  unfolding bind_params
  bind_params_lem [] ok = refl
  bind_params_lem (none ∷ params) ok =
      let others : Bytes → List (Option Bytes) = bind_params h (length params) in
      ap (next_value h others) (read_bits 4 (2 ^ 32 - 1) (encode_params params))
      ∙ (ap (λ n. sized_value h others n (encode_params params))
            (from_be_bytes-to_be_bytes 4 (2 ^ 32 - 1) (omega arith))
          ∙ ap (◌∷◌ none) (bind_params_lem params ok.1))
  bind_params_lem (some v ∷ params) ok =
      let others : Bytes → List (Option Bytes) = bind_params h (length params) in
      let behind : Bytes = encode_params params in
      let small : negative (length v) ≡ false = ground (arith, ok.0.0) in
      ap (next_value h others) (read_bits 4 (length v) (v ++ behind))
      ∙ (ap (λ n. sized_value h others n (v ++ behind))
            (from_be_bytes-to_be_bytes 4 (length v) (omega (arith, ok.0.0)))
          ∙ (sized_value_lem others (length v) (v ++ behind) small
              ∙ (ap (cut_value h others (v ++ behind)) (read_exact-append v behind) ∙ λ i.
                  some (ok.0.1 i) ∷ bind_params_lem params ok.1 i)))

  pub handle_parse_lem :
      {S : Type 0} (name sql rest : Bytes) (conn : ConnectionSession S)
      → IsText h name
      → IsText h sql
      → handle_parse h (name ++ 0 ∷ (sql ++ 0 ∷ rest)) conn ≡ store name sql conn
  unfolding handle_parse
  handle_parse_lem name sql rest conn named text =
      ap (λ p. store p.0 (read_cstring h p.1) conn)
        (read_cstring_buf_lem h name (sql ++ 0 ∷ rest) named)
      ∙ ap (λ s. store name s conn) (read_cstring_lem h sql rest text)

  pub handle_bind_lem :
      {S : Type 0} (statement : Bytes) (params : List (Option Bytes)) (conn : ConnectionSession S)
      → IsSpelled h (bind_to statement params)
      → handle_bind h (payload_of (bind_to statement params)) conn ≡ bound statement params conn
  unfolding handle_bind
  handle_bind_lem statement params conn (portal, named, few, fit) =
      let counted : Bytes = to_be_bytes 2 (length params) ++ encode_params params in
      let behind : Bytes = to_be_bytes 2 0 ++ counted in
      let n : ℕ = length params in
      let number : count_i16 (to_be_bytes 2 n) ≡ n = count_i16_lem n few in
      let values : sent_params h (read_exact 2 (behind_count behind)) conn.portal_params ≡ params =
        ap (λ r. sent_params h (read_exact 2 (behind_of r behind)) conn.portal_params)
          (read_bits 2 0 counted)
        ∙ (ap (λ r. sent_params h r conn.portal_params) (read_bits 2 n (encode_params params))
            ∙ (ap (λ k. bind_params h k (encode_params params)) number
                ∙ bind_params_lem params fit)) in
      ap
        (λ p.
          let (statement, cur) = read_cstring_buf h p.1 in
          bound statement (sent_params h (read_exact 2 (behind_count cur)) conn.portal_params) conn)
        (read_cstring_buf_lem h [] (statement ++ 0 ∷ behind) (tt, portal))
      ∙ (ap
            (λ p.
              bound p.0 (sent_params h (read_exact 2 (behind_count p.1)) conn.portal_params) conn)
            (read_cstring_buf_lem h statement behind named)
          ∙ ap (λ v. bound statement v conn) values)
