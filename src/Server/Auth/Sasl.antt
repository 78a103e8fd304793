-- ===== src/Server/Auth/Sasl.antt =====
-- protocol.rs, `read_sasl_message`: what it returns is a part of what the client sends.
use moodeng_sql.Prelude.{
  ℕ, Bool, true, false, ◌≡◌, refl, sym, ◌∙◌, Option, none, some, [], ◌∷◌, ◌++◌, ltb, ◌==◌, not,
  arith, if◌then◌else◌,
}
use mathlib.Core.List.{append_assoc}
use moodeng_sql.Prelude.Lists.{length, take, drop, take-append-drop}
use moodeng_sql.Prelude.Bytes.{Bytes, from_be_bytes, read_exact, read_exact_inv}
use moodeng_sql.Server.Text.{split_once, split_once_inv}
use moodeng_sql.Server.Wire.{
  Host, Wire, Handler, done, pure, fail, read_u8, read_body, negative, read_cstring_buf,
}
use moodeng_sql.Server.Wire.Sent.{
  IsTail, IsSent, IsTail-trans, IsSent-IsTail, IsSent-within, bind_inv, Reads, pure-Reads,
  fail-Reads, read_u8-Reads, read_body-Reads, read_body-IsSent, if-Reads,
}
use moodeng_sql.Server.Auth.{read_sasl_message, sasl_payload, sasl_data}

read_cstring_buf-IsTail :
    (h : Host) (payload : Bytes) → IsTail (read_cstring_buf h payload).1 payload
unfolding read_cstring_buf
read_cstring_buf-IsTail h payload =
    tail_of (split_once 0 payload) (λ s rest e. split_once_inv 0 payload e)
  where
    tail_of :
        (r : Option (Bytes × Bytes))
        → ((s rest : Bytes) → r ≡ some (s, rest) → payload ≡ s ++ 0 ∷ rest)
        → IsTail
            (elim r as (λ _. Bytes × Bytes) [
              | some (s, rest) ↦ (h.from_utf8_lossy s, rest)
              | none ↦ ([], payload)
            ]).1
            payload
    tail_of none f = ([], refl)
    tail_of (some (s, rest)) f = (s ++ 0 ∷ [], f s rest refl ∙ sym (append_assoc s (0 ∷ []) rest))

IsSent-empty : (s : Bytes) → IsSent [] s
IsSent-empty s = ([], s, refl)

-- The data is a part of the message.
sasl_data-IsSent :
    (mechanism bits rest : Bytes) (w : Wire) {m d : Bytes} {w' : Wire}
    → sasl_data mechanism (some (bits, rest)) w ≡ (done (m, d), w')
    → IsSent d rest
unfolding sasl_data
sasl_data-IsSent mechanism bits rest w {m} {d} {w'} k = data_of (negative n) (ltb (length rest) n) k
  where
    n : ℕ
    n = from_be_bytes bits

    data_of :
        (a b : Bool)
        → (if a
              then pure {W = Wire} {A = Bytes × Bytes} (mechanism, [])
              else if b
              then fail
              else pure {W = Wire} {A = Bytes × Bytes} (mechanism, take n rest))
            w
          ≡ (done (m, d), w')
        → IsSent d rest
    data_of true b k = ([], rest, ground (arith, k))
    data_of false true k = absurd (ground (arith, k))
    data_of false false k = ([], drop n rest, ground (arith, k, take-append-drop n rest))

sasl_payload-IsSent :
    (h : Host) (payload : Bytes) (w : Wire) {m d : Bytes} {w' : Wire}
    → sasl_payload h payload w ≡ (done (m, d), w')
    → IsSent d payload
unfolding sasl_payload
sasl_payload-IsSent h payload w {m} {d} {w'} k =
    data_of (read_exact 4 cur) (λ bits rest e. (read_exact_inv 4 cur e).0) k
  where
    cur : Bytes
    cur = (read_cstring_buf h payload).1

    data_of :
        (r : Option (Bytes × Bytes))
        → ((bits rest : Bytes) → r ≡ some (bits, rest) → cur ≡ bits ++ rest)
        → sasl_data (read_cstring_buf h payload).0 r w ≡ (done (m, d), w')
        → IsSent d payload
    data_of none f k = absurd (ground (arith, k))
    data_of (some (bits, rest)) f k =
        IsSent-IsTail d cur payload
          (IsSent-IsTail d rest cur (sasl_data-IsSent _ bits rest w k) (bits, f bits rest refl))
          (read_cstring_buf-IsTail h payload)

sasl_data-Reads : (mechanism : Bytes) (r : Option (Bytes × Bytes)) → Reads (sasl_data mechanism r)
unfolding sasl_data
sasl_data-Reads mechanism none = fail-Reads
sasl_data-Reads mechanism (some (bits, rest)) =
    if-Reads (negative (from_be_bytes bits)) (pure (mechanism, []))
      (if ltb (length rest) (from_be_bytes bits)
        then fail
        else pure (mechanism, take (from_be_bytes bits) rest))
      (pure-Reads (mechanism, []))
      (if-Reads (ltb (length rest) (from_be_bytes bits)) fail
        (pure (mechanism, take (from_be_bytes bits) rest)) fail-Reads
        (pure-Reads (mechanism, take (from_be_bytes bits) rest)))

if_inv :
    {A : Type 0} (b : Bool) (f : Handler Wire A) (w : Wire) {a : A} {w' : Wire}
    → (if b then fail else f) w ≡ (done a, w')
    → (b ≡ false) × (f w ≡ (done a, w'))
if_inv true f w h = absurd (ground (arith, h))
if_inv false f w h = (refl, h)

pub read_sasl_message_inv :
    (h : Host) (w : Wire) {m d : Bytes} {w' : Wire}
    → read_sasl_message h w ≡ (done (m, d), w')
    → IsSent d w.input × IsTail w'.input w.input
unfolding read_sasl_message
read_sasl_message_inv h w {m} {d} {w'} k =
    let (tag, w1, e1, k1) = bind_inv read_u8 _ w k in
    let (_, k2) = if_inv (not (tag == b'p')) _ w1 k1 in
    let (payload, w2, e2, k3) = bind_inv read_body (sasl_payload h) w1 k2 in
    let tag_read : IsTail w1.input w.input = read_u8-Reads w tag w1 e1 in
    let body_read : IsTail w2.input w1.input = read_body-Reads w1 payload w2 e2 in
    let rest_read : IsTail w'.input w2.input =
      unfold sasl_payload in sasl_data-Reads _ _ w2 (m, d) w' k3 in
    let body_sent : IsSent payload w1.input = read_body-IsSent w1 e2 in
    (
      IsSent-IsTail d w1.input w.input
          (IsSent-within d payload w1.input (sasl_payload-IsSent h payload w2 k3) body_sent)
          tag_read,
      IsTail-trans w'.input w1.input w.input
          (IsTail-trans w'.input w2.input w1.input rest_read body_read) tag_read,
    )
