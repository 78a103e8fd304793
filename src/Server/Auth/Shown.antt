-- ===== src/Server/Auth/Shown.antt =====
-- moodeng-server/src/protocol.rs: what a client that is let in has shown.
use moodeng_sql.Prelude.{
  Bool, true, false, ◌≡◌, refl, ap, Option, none, some, [], ◌∷◌, ◌++◌, inl, inr, ◌==◌, not, ◌&&◌,
  arith, if◌then◌else◌, Option-cases,
}
use mathlib.Core.Path.{subst}
use moodeng_sql.Prelude.Lists.{length}
use moodeng_sql.Prelude.Bytes.{Bytes, to_be_bytes}
use moodeng_sql.Server.Text.{ascii}
use moodeng_sql.Server.Scram as Scram
use moodeng_sql.Server.Scram.{
  Checked, Crypto, ScramCredentials, ScramSession, bytes_eq, start, finish,
}
use moodeng_sql.Server.Scram.Sound.{Proves, ok_or_inv, finish-Proves}
use moodeng_sql.Server.Wire.{
  Host, Wire, Handler, done, ◌>>=◌, pure, or_fail, read_u8, read_body, send_message, send_error,
  read_cstring,
}
use moodeng_sql.Server.Wire.Sent.{
  IsTail, IsSent, IsTail-trans, IsSent-IsTail, bind_inv, pure_inv, read_u8-Reads, read_body-IsSent,
  send_message-Reads, or_fail-Reads,
}
use moodeng_sql.Server.Auth.{
  AuthConfig, is_some, required, verify, authenticate, authenticate_cleartext, authenticate_scram,
  read_sasl_message, finish_scram,
}
use moodeng_sql.Server.Auth.Sasl.{read_sasl_message_inv}

-- What a client that is let in has sent: a proof that fits the session of its own first message
-- and the server's nonce, or a password that the stored hash accepts.
pub data Shown (c : Crypto) (h : Host) (nonce : Bytes) (auth : AuthConfig) (input : Bytes)
    : Type 0 where
  by_proof :
      (creds : ScramCredentials) (session : ScramSession)
      → (client_first server_first first_bytes final_bytes client_final : Bytes)
      → auth.scram_credentials ≡ some creds
      → IsSent first_bytes input
      → h.from_utf8 first_bytes ≡ inr client_first
      → start c creds nonce client_first ≡ inr (session, server_first)
      → IsSent final_bytes input
      → h.from_utf8 final_bytes ≡ inr client_final
      → Proves c session client_final
      → Shown c h nonce auth input
  by_password :
      (hash pw_buf : Bytes)
      → auth.scram_credentials ≡ none
      → auth.password_hash ≡ some hash
      → IsSent pw_buf input
      → h.verify_password (read_cstring h pw_buf) hash ≡ true
      → Shown c h nonce auth input

said_false :
    (msg : Bytes) (w : Wire) {w' : Wire}
    → (send_error msg >>= λ _. pure false) w ≡ (done true, w')
    → ⊥
said_false msg w h =
    let (_, w1, e, k) = bind_inv (send_error msg) (λ _. pure false) w h in
    ground (arith, (pure_inv false w1 k).0)

-- After a refusal the client is not let in.
pub refused :
    (b : Bool) (msg : Bytes) (f : Handler Wire Bool) (w : Wire) {w' : Wire}
    → (if b then (send_error msg >>= λ _. pure false) else f) w ≡ (done true, w')
    → (b ≡ false) × (f w ≡ (done true, w'))
refused true msg f w h = absurd (said_false msg w h)
refused false msg f w h = (refl, h)

not_inv : (b : Bool) → not b ≡ false → b ≡ true
not_inv true h = refl
not_inv false h = absurd (ground (arith, h))

or_fail_inv :
    {A : Type 0} (m : Checked A) (w : Wire) {a : A} {w' : Wire}
    → or_fail m w ≡ (done a, w')
    → (m ≡ inr a) × (w ≡ w')
or_fail_inv (inl e) w h = absurd (ground (arith, h))
or_fail_inv (inr a) w h = (ap inr (pure_inv a w h).0, (pure_inv a w h).1)

module _ (c : Crypto) (h : Host) (nonce : Bytes) (auth : AuthConfig) where
  verify_inv :
      (hash password : Bytes)
      → auth.password_hash ≡ some hash
      → verify h auth password ≡ true
      → h.verify_password password hash ≡ true
  verify_inv hash password stored e = ground (arith, stored, e)

  cleartext-Shown :
      (w : Wire) {w' : Wire} (hash : Bytes)
      → auth.scram_credentials ≡ none
      → auth.password_hash ≡ some hash
      → authenticate_cleartext h auth w ≡ (done true, w')
      → Shown c h nonce auth w.input
  unfolding authenticate_cleartext
  cleartext-Shown w hash without stored k =
      let (_, w1, e1, k1) = bind_inv (send_message b'R' (to_be_bytes 4 3)) _ w k in
      let (tag, w2, e2, k2) = bind_inv read_u8 _ w1 k1 in
      let (_, k3) = refused (not (tag == b'p')) (ascii "expected password message") _ w2 k2 in
      let (pw_buf, w3, e3, k4) = bind_inv read_body _ w2 k3 in
      let (verified, _) =
        refused (not (verify h auth (read_cstring h pw_buf))) (ascii "authentication failed")
          (pure true) w3 k4 in
      let sent_first : IsTail w1.input w.input =
        send_message-Reads b'R' (to_be_bytes 4 3) w _ w1 e1 in
      let front : IsTail w2.input w.input =
        IsTail-trans w2.input w1.input w.input (read_u8-Reads w1 tag w2 e2) sent_first in
      Shown.by_password hash pw_buf without stored
        (IsSent-IsTail pw_buf w2.input w.input (read_body-IsSent w2 e3) front)
        (verify_inv hash (read_cstring h pw_buf) stored
          (not_inv (verify h auth (read_cstring h pw_buf)) verified))

  finish_scram_inv :
      (session : ScramSession) (client_final : Bytes) (w : Wire) {w' : Wire}
      → finish_scram c h session client_final w ≡ (done true, w')
      → Proves c session client_final
  unfolding finish_scram
  finish_scram_inv session client_final w {w'} k =
      shown (finish c session client_final) (λ r e. finish-Proves c session client_final e) k
    where
      shown :
          (m : Checked Bytes)
          → ((r : Bytes) → m ≡ inr r → Proves c session client_final)
          → (elim m as (λ _. Handler Wire Bool) [
            | inr server_final ↦
                send_message b'R' (to_be_bytes 4 12 ++ (server_final ++ 0 ∷ [])) >>= λ _. pure true
            | inl e ↦ send_error (ascii "authentication failed: " ++ e) >>= λ _. pure false
          ])
              w
            ≡ (done true, w')
          → Proves c session client_final
      shown (inr r) f k = f r refl
      shown (inl e) f k = absurd (said_false (ascii "authentication failed: " ++ e) w k)

  scram-Shown :
      (w : Wire) {w' : Wire}
      → authenticate_scram c h nonce auth w ≡ (done true, w')
      → Shown c h nonce auth w.input
  unfolding authenticate_scram
  scram-Shown w k =
      let (_, w1, e1, k1) =
        bind_inv (send_message b'R' (to_be_bytes 4 10 ++ (ascii "SCRAM-SHA-256" ++ 0 ∷ 0 ∷ []))) _ w
          k in
      let ((mechanism, first_bytes), w2, e2, k2) = bind_inv (read_sasl_message h) _ w1 k1 in
      let (_, k3) =
        refused (not (length mechanism == 0) && not (bytes_eq mechanism (ascii "SCRAM-SHA-256")))
          (ascii "unsupported SASL mechanism") _ w2 k2 in
      let (client_first, w3, e3, k4) = bind_inv (or_fail (h.from_utf8 first_bytes)) _ w2 k3 in
      let (creds, w4, e4, k5) =
        bind_inv
          (or_fail (Scram.ok_or auth.scram_credentials (ascii "SCRAM credentials not configured")))
          _ w3 k4 in
      let ((session, server_first), w5, e5, k6) =
        bind_inv (or_fail (start c creds nonce client_first)) _ w4 k5 in
      let (_, w6, e6, k7) =
        bind_inv (send_message b'R' (to_be_bytes 4 11 ++ (server_first ++ 0 ∷ []))) _ w5 k6 in
      let ((_, final_bytes), w7, e7, k8) = bind_inv (read_sasl_message h) _ w6 k7 in
      let (client_final, w8, e8, k9) = bind_inv (or_fail (h.from_utf8 final_bytes)) _ w7 k8 in
      let (first_sent, t2) = read_sasl_message_inv h w1 e2 in
      let t1 : IsTail w1.input w.input = send_message-Reads _ _ w _ w1 e1 in
      let t3 : IsTail w3.input w2.input = or_fail-Reads _ w2 _ w3 e3 in
      let t4 : IsTail w4.input w3.input = or_fail-Reads _ w3 _ w4 e4 in
      let t5 : IsTail w5.input w4.input = or_fail-Reads _ w4 _ w5 e5 in
      let t6 : IsTail w6.input w5.input = send_message-Reads _ _ w5 _ w6 e6 in
      let back : IsTail w6.input w.input = IsTail-trans w6.input w5.input w.input t6 (
        IsTail-trans w5.input w4.input w.input t5 (
          IsTail-trans w4.input w3.input w.input t4 (
            IsTail-trans w3.input w2.input w.input t3
              (IsTail-trans w2.input w1.input w.input t2 t1)))) in
      let (final_sent, _) = read_sasl_message_inv h w6 e7 in
      Shown.by_proof creds session client_first server_first first_bytes final_bytes client_final
        (ok_or_inv auth.scram_credentials _ (or_fail_inv _ w3 e4).0)
        (IsSent-IsTail first_bytes w1.input w.input first_sent t1) (or_fail_inv _ w2 e3).0
        (or_fail_inv _ w4 e5).0 (IsSent-IsTail final_bytes w6.input w.input final_sent back)
        (or_fail_inv _ w7 e8).0 (finish_scram_inv session client_final w8 k9)

  -- A client that is let in, where the server asks for a password, has sent what shows that it
  -- knows one: if SCRAM is configured, a proof that unmasks to a preimage of the stored key, in
  -- the session of its own first message; otherwise a password that the stored hash accepts. Both
  -- stand in the bytes that the client sent.
  pub authenticate-Shown :
      (w : Wire) {w' : Wire}
      → required auth ≡ true
      → authenticate c h nonce auth w ≡ (done true, w')
      → Shown c h nonce auth w.input
  unfolding authenticate
  authenticate-Shown w {w'} asked k = elim (Option-cases auth.scram_credentials) [
    | inr (creds, e) ↦ scram-Shown w (subst (λ o. chosen o w ≡ (done true, w')) e k)
    | inl e ↦ elim (Option-cases auth.password_hash) [
      | inl without ↦ absurd (ground (arith, e, without, asked))
      | inr (hash, stored) ↦
          cleartext-Shown w hash e stored (subst (λ o. chosen o w ≡ (done true, w')) e k)
    ]
  ]
    where
      chosen : Option ScramCredentials → Handler Wire Bool
      chosen o =
          if is_some o then authenticate_scram c h nonce auth else authenticate_cleartext h auth
