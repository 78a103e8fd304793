-- ===== src/Server/Session/Answered.antt =====
-- protocol.rs: the bytes of the protocol against its messages. Each message of a client that keeps
-- to the protocol does to the connection what `respond` says.
use moodeng_sql.Prelude.{◌+◌, ◌%◌, ◌^◌, ◌≡◌, ap, ◌∙◌, List, [], ◌∷◌, ◌++◌, if◌then◌else◌}
use mathlib.Core.List.{append_assoc}
use moodeng_sql.Prelude.Lists.{length}
use moodeng_sql.Prelude.Bytes.{Bytes, to_be_bytes}
use moodeng_sql.Server.Text.{bytes_key}
use moodeng_sql.Server.Wire.{Host, Handler, done, and_then, pure}
use moodeng_sql.Server.Session.Responses.{respond, dispatch_lem}
use moodeng_sql.Server.Session.{Engine, World, dispatch, handle, round}
use moodeng_sql.Server.Session.Messages.{
  Message, encode, payload_of, tag_of, IsSendable, read_body_lem, read_u8_lem,
}

module _ {D S : Type 0} (e : Engine D S) (h : Host) where
  abbrev pub at : Bytes → World D S → World D S
  at input w = record {
    wire = record { input = input; output = w.wire.output };
    conn = w.conn;
    db = w.db;
  }

  pub round_lem :
      (m : Message) (rest : Bytes) (w : World D S)
      → IsSendable h m
      → round e h (at (encode m ++ rest) w) ≡ respond e m (at rest w)
  unfolding round handle
  round_lem m rest w (spelled, fits) =
      let body : Bytes = payload_of m in
      let len : Bytes = to_be_bytes 4 ((length body + 4) % 2 ^ 32) in
      let output : Bytes = w.wire.output in
      let grouped : (len ++ body) ++ rest ≡ len ++ (body ++ rest) = append_assoc len body rest in
      ap (λ p. handle e h p.0 record { wire = p.1; conn = w.conn; db = w.db })
        (read_u8_lem (tag_of m) ((len ++ body) ++ rest) output)
      ∙ (ap (λ input. handle e h (done (tag_of m)) (at input w)) grouped
          ∙ (ap
                (λ p.
                  and_then (dispatch e h (tag_of m))
                    (p.0, record { wire = p.1; conn = w.conn; db = w.db }))
                (read_body_lem body rest output fits)
              ∙ dispatch_lem e h m (at rest w) spelled))

  abbrev pub encode_all : List Message → Bytes
  encode_all [] = []
  encode_all (m ∷ ms) = encode m ++ encode_all ms

  -- A conversation: each message is responded to, with those behind it still to be read, up to one
  -- that ends the loop.
  unfoldable pub converse : List Message → Handler (World D S) Unit
  unfolding respond
  converse [] = λ w. (done tt, at [] w)
  converse (m ∷ ms) = λ w.
      and_then (λ more. if more then converse ms else pure tt) (respond e m (at (encode_all ms) w))
