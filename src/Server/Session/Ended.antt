-- ===== src/Server/Session/Ended.antt =====
-- protocol.rs: a connection comes to its end.
use moodeng_sql.Prelude.{
  ℕ, suc, Bool, true, false, ◌-◌, ◌≢◌, Option, none, some, [], ◌∷◌, ◌++◌, ltb, ◌==◌, not, ◌&&◌, inl,
  inr, arith, Option-cases,
}
use moodeng_sql.Prelude.Lists.{length}
use moodeng_sql.Prelude.Bytes.{Bytes, to_be_bytes, from_be_bytes}
use moodeng_sql.Server.Text.{ascii}
use moodeng_sql.Server.Scram.{Checked, Crypto, ScramSession, bytes_eq, start, finish}
use moodeng_sql.Server.Wire.{
  Host, Wire, Handler, unfinished, ◌>>=◌, pure, fail, panic, or_fail, receive, read_u8, read_i32,
  read_body, negative, write_all, send_message, send_error, read_cstring,
}
use moodeng_sql.Server.Wire.Ending.{
  Ends, pure-Ends, bind-Ends, if-Ends, fail-Ends, panic-Ends, or_fail-Ends, receive-Ends,
  read_u8-Ends, read_i32-Ends, read_body-Ends, write_all-Ends, send_message-Ends, send_error-Ends,
}
use moodeng_sql.Server.Auth.{
  AuthConfig, TlsSettings, required, scram_available, verify, prefixed_stream, read_startup,
  accept_tls, ssl_request_code, negotiate_stream, sasl_data, sasl_payload, read_sasl_message,
  finish_scram, authenticate_cleartext, authenticate_scram, authenticate,
}
use moodeng_sql.Server.Session.{
  Engine, World, lift, modify, new, greeting, read_version, admit, serve_all, serve_client,
  run_session, handle_connection,
}
use moodeng_sql.Server.Session.Finished.{serve_done}

refuse-Ends :
    {A : Type 0} (msg : Bytes) (f : Handler Wire A) → Ends f → Ends (send_error msg >>= λ _. f)
refuse-Ends msg f hf = bind-Ends (send_error msg) (λ _. f) (send_error-Ends msg) (λ _. hf)

send-Ends :
    {A : Type 0} (tag : ℕ) (body : Bytes) (f : Handler Wire A)
    → Ends f
    → Ends (send_message tag body >>= λ _. f)
send-Ends tag body f hf =
    bind-Ends (send_message tag body) (λ _. f) (send_message-Ends tag body) (λ _. hf)

read_startup-Ends : (len : ℕ) → Ends (read_startup len)
unfolding read_startup prefixed_stream
read_startup-Ends len =
    if-Ends (negative len) panic _ panic-Ends
      (bind-Ends (receive (len - 4)) _ (receive-Ends (len - 4)) (λ body w h. ground (arith, h)))

accept_tls-Ends : (h : Host) → Ends (accept_tls h)
unfolding accept_tls
accept_tls-Ends h w = elim (Option-cases (h.accept w.input)) [
  | inl e ↦ λ k. ground (arith, e, k)
  | inr (plain, e) ↦ λ k. ground (arith, e, k)
]

offer-Ends :
    (h : Host) {Config : Type 0} (acceptor : Option Config)
    → Ends (elim acceptor as (λ _. Handler Wire Bool) [
      | some acc ↦ write_all (ascii "S") >>= λ _. accept_tls h
      | none ↦ write_all (ascii "N") >>= λ _. read_i32 >>= λ startup_len. read_startup startup_len
    ])
offer-Ends h none =
    bind-Ends (write_all (ascii "N")) _ (write_all-Ends (ascii "N"))
      (λ _. bind-Ends read_i32 _ read_i32-Ends (λ len. read_startup-Ends len))
offer-Ends h (some acc) =
    bind-Ends (write_all (ascii "S")) _ (write_all-Ends (ascii "S")) (λ _. accept_tls-Ends h)

negotiate_stream-Ends :
    (h : Host) {Config : Type 0} (tls : TlsSettings) (acceptor : Option Config)
    → Ends (negotiate_stream h tls acceptor)
unfolding negotiate_stream
negotiate_stream-Ends h tls acceptor = bind-Ends read_i32 _ read_i32-Ends (λ len.
    if-Ends (len == 8) _ _
      (bind-Ends read_i32 _ read_i32-Ends
        (λ code. if-Ends (code == ssl_request_code) _ fail (offer-Ends h acceptor) fail-Ends))
      (if-Ends tls.require_tls _ _ (refuse-Ends (ascii "SSL required") fail fail-Ends)
        (read_startup-Ends len)))

sasl_data-Ends : (mechanism : Bytes) (r : Option (Bytes × Bytes)) → Ends (sasl_data mechanism r)
unfolding sasl_data
sasl_data-Ends mechanism none = fail-Ends
sasl_data-Ends mechanism (some (bits, rest)) =
    if-Ends (negative (from_be_bytes bits)) _ _ (pure-Ends _)
      (if-Ends (ltb (length rest) (from_be_bytes bits)) fail _ fail-Ends (pure-Ends _))

read_sasl_message-Ends : (h : Host) → Ends (read_sasl_message h)
unfolding read_sasl_message sasl_payload
read_sasl_message-Ends h = bind-Ends read_u8 _ read_u8-Ends (λ t.
    if-Ends (not (t == b'p')) fail _ fail-Ends
      (bind-Ends read_body _ read_body-Ends (λ payload. sasl_data-Ends _ _)))

module _ (c : Crypto) (h : Host) (nonce : Bytes) (auth : AuthConfig) where
  finish_scram-Ends :
      (session : ScramSession) (client_final : Bytes) → Ends (finish_scram c h session client_final)
  unfolding finish_scram
  finish_scram-Ends session client_final = reply (finish c session client_final)
    where
      reply :
          (m : Checked Bytes)
          → Ends (elim m as (λ _. Handler Wire Bool) [
            | inr server_final ↦
                send_message b'R' (to_be_bytes 4 12 ++ (server_final ++ 0 ∷ [])) >>= λ _. pure true
            | inl e ↦ send_error (ascii "authentication failed: " ++ e) >>= λ _. pure false
          ])
      reply (inr server_final) = send-Ends b'R' _ (pure true) (pure-Ends true)
      reply (inl e) =
          refuse-Ends (ascii "authentication failed: " ++ e) (pure false) (pure-Ends false)

  authenticate_cleartext-Ends : Ends (authenticate_cleartext h auth)
  unfolding authenticate_cleartext
  authenticate_cleartext-Ends =
      bind-Ends (send_message b'R' (to_be_bytes 4 3)) _ (send_message-Ends _ _) (λ _.
        bind-Ends read_u8 _ read_u8-Ends (λ t.
          if-Ends (not (t == b'p')) _ _
            (refuse-Ends (ascii "expected password message") (pure false) (pure-Ends false))
            (bind-Ends read_body _ read_body-Ends (λ buf.
              if-Ends (not (verify h auth (read_cstring h buf))) _ (pure true)
                (refuse-Ends (ascii "authentication failed") (pure false) (pure-Ends false))
                (pure-Ends true)))))

  authenticate_scram-Ends : Ends (authenticate_scram c h nonce auth)
  unfolding authenticate_scram
  authenticate_scram-Ends = bind-Ends (send_message b'R' _) _ (send_message-Ends b'R' _) (λ _.
      bind-Ends (read_sasl_message h) _ (read_sasl_message-Ends h) (λ first.
        if-Ends (not (length first.0 == 0) && not (bytes_eq first.0 (ascii "SCRAM-SHA-256"))) _ _
          (refuse-Ends (ascii "unsupported SASL mechanism") (pure false) (pure-Ends false))
          (bind-Ends (or_fail (h.from_utf8 first.1)) _ (or_fail-Ends (h.from_utf8 first.1))
            (λ client_first. bind-Ends (or_fail _) _ (or_fail-Ends _) (λ creds.
              bind-Ends (or_fail (start c creds nonce client_first)) _
                (or_fail-Ends (start c creds nonce client_first))
                (λ started. bind-Ends (send_message b'R' _) _ (send_message-Ends b'R' _) (λ _.
                  bind-Ends (read_sasl_message h) _ (read_sasl_message-Ends h) (λ final.
                    bind-Ends (or_fail (h.from_utf8 final.1)) _ (or_fail-Ends (h.from_utf8 final.1))
                      (λ client_final. finish_scram-Ends started.0 client_final)))))))))

  admit-Ends : (encrypted : Bool) → Ends (admit c h nonce auth encrypted)
  unfolding admit authenticate
  admit-Ends encrypted =
      if-Ends
        (required auth
          && (not encrypted && (auth.require_tls_for_password && not (scram_available auth))))
        _ _
        (refuse-Ends (ascii "password authentication requires TLS") (pure false) (pure-Ends false))
        (if-Ends (required auth) _ (pure true)
          (if-Ends (scram_available auth) (authenticate_scram c h nonce auth)
            (authenticate_cleartext h auth) authenticate_scram-Ends authenticate_cleartext-Ends)
          (pure-Ends true))

read_version-Ends : Ends read_version
unfolding read_version
read_version-Ends =
    bind-Ends read_body _ read_body-Ends
      (λ buf. if-Ends (ltb (length buf) 4) panic (pure tt) panic-Ends (pure-Ends tt))

lift-Ends : {D S A : Type 0} (m : Handler Wire A) → Ends m → Ends (lift {D = D} {S = S} m)
lift-Ends m hm w = hm w.wire

module _ {D S : Type 0} (e : Engine D S) (h : Host) where
  serve_new : (w : World D S) → ((modify (λ _. new e) >>= λ _. serve_all e h) w).0 ≢ unfinished
  unfolding serve_all
  serve_new w =
      serve_done e h (suc (length w.wire.input)) record { wire = w.wire; conn = new e; db = w.db }
        (omega arith)

  serve_client-Ends : Ends (serve_client e h)
  unfolding serve_client
  serve_client-Ends =
      bind-Ends (lift (write_all greeting)) (λ _. modify (λ _. new e) >>= λ _. serve_all e h)
        (lift-Ends (write_all greeting) (write_all-Ends greeting)) (λ _ w. serve_new w)

  -- Every connection comes to its end, whatever its client sends before it closes its side, if the
  -- engine answers every statement: a value, an error or a panic, but never a round of the loop
  -- for which the fuel is missing.
  pub handle_connection_done :
      (c : Crypto) (nonce : Bytes) (auth : AuthConfig) {Config : Type 0} (tls : TlsSettings)
      (acceptor : Option Config) (w : World D S)
      → (handle_connection e h c nonce auth tls acceptor w).0 ≢ unfinished
  unfolding handle_connection run_session
  handle_connection_done c nonce auth tls acceptor =
      bind-Ends (lift (negotiate_stream h tls acceptor)) _
        (lift-Ends (negotiate_stream h tls acceptor) (negotiate_stream-Ends h tls acceptor))
        (λ encrypted.
          bind-Ends (lift read_version) _ (lift-Ends read_version read_version-Ends) (λ _.
            bind-Ends (lift (admit c h nonce auth encrypted)) _
              (lift-Ends (admit c h nonce auth encrypted) (admit-Ends c h nonce auth encrypted))
              (λ b. if-Ends b (serve_client e h) (pure tt) serve_client-Ends (pure-Ends tt))))
