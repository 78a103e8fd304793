-- ===== src/Server/Auth.antt =====
-- moodeng-server/src: auth.rs, tls.rs, `auth_config` of main.rs, and the part of protocol.rs that
-- comes before the first statement: `negotiate_stream`, `authenticate` and what they call.
pub mod Sasl
pub mod Shown
pub mod Encrypted
use moodeng_sql.Prelude.{
  ℕ, Bool, true, false, ◌-◌, ◌^◌, Option, none, some, [], ◌∷◌, ◌++◌, ltb, ◌==◌, not, ◌&&◌, ◌||◌,
  inl, inr, if◌then◌else◌,
}
use moodeng_sql.Prelude.Lists.{length, take}
use moodeng_sql.Prelude.Bytes.{Bytes, to_be_bytes, from_be_bytes, read_exact}
use moodeng_sql.Server.Text.{ascii}
use moodeng_sql.Server.Scram as Scram
use moodeng_sql.Server.Scram.{Checked, Crypto, ScramCredentials, ScramSession, bytes_eq}
use moodeng_sql.Server.Wire.{
  Host, Wire, Outcome, Handler, done, failed, ◌>>=◌, pure, fail, panic, or_fail, receive, read_u8,
  read_i32, negative, read_body, write_all, send_message, send_error, read_cstring,
  read_cstring_buf,
}

pub record AuthConfig : Type 0 where
  pub password_hash : Option Bytes
  pub scram_credentials : Option ScramCredentials
  pub require_tls_for_password : Bool

abbrev pub is_some : {A : Type 0} → Option A → Bool
is_some none = false
is_some (some a) = true

-- `filter(|s| !s.is_empty())`
abbrev pub non_empty : Option Bytes → Option Bytes
non_empty none = none
non_empty (some []) = none
non_empty (some (b ∷ s)) = some (b ∷ s)

abbrev pub required : AuthConfig → Bool
required auth = is_some auth.password_hash || is_some auth.scram_credentials

abbrev pub scram_available : AuthConfig → Bool
scram_available auth = is_some auth.scram_credentials

pub record TlsSettings : Type 0 where
  pub cert_path : Option Bytes
  pub key_path : Option Bytes
  pub require_tls : Bool

abbrev pub tls_available : TlsSettings → Bool
tls_available tls = is_some tls.cert_path && is_some tls.key_path

abbrev without_paths : {Config : Type 0} → Bool → Checked (Option Config)
without_paths require_tls =
    if require_tls
    then inl (ascii "require_tls is enabled but tls_cert / tls_key are not configured")
    else inr none

-- `load_server_config`, with the reading of the two files as a parameter.
unfoldable pub load_from :
    {Config : Type 0}
    → ((cert_path key_path : Bytes) → Checked Config)
    → Bool
    → (cert_path key_path : Option Bytes) → Checked (Option Config)
load_from load require_tls none key_path = without_paths require_tls
load_from load require_tls (some cert_path) none = without_paths require_tls
load_from load require_tls (some cert_path) (some key_path) = elim (load cert_path key_path) [
  | inl e ↦ inl e
  | inr config ↦ inr (some config)
]

unfoldable pub load_server_config :
    {Config : Type 0}
    → ((cert_path key_path : Bytes) → Checked Config)
    → TlsSettings
    → Checked (Option Config)
unfolding load_from
load_server_config load tls = load_from load tls.require_tls tls.cert_path tls.key_path

abbrev pub ssl_request_code : ℕ
ssl_request_code = 80877103

-- What was read of the startup message is put in front of the stream again.
unfoldable pub prefixed_stream : Bytes → Handler Wire Unit
prefixed_stream prefix w = (done tt, record { input = prefix ++ w.input; output = w.output })

unfoldable pub read_startup : ℕ → Handler Wire Bool
unfolding prefixed_stream receive
read_startup len = if negative len then panic else do
  startup_body ← receive (len - 4)
  _ ← prefixed_stream (to_be_bytes 4 len ++ startup_body)
  pure false

-- The mechanism's name and the data, from the length's bits and what is behind them.
unfoldable pub sasl_data : Bytes → Option (Bytes × Bytes) → Handler Wire (Bytes × Bytes)
sasl_data mechanism none = fail
sasl_data mechanism (some (bits, rest)) =
    let data_len = from_be_bytes bits in
    if negative data_len
    then pure (mechanism, [])
    else if ltb (length rest) data_len
    then fail
    else pure (mechanism, take data_len rest)

module _ (h : Host) where
  unfoldable pub accept_tls : Handler Wire Bool
  accept_tls w = elim (h.accept w.input) [
    | none ↦ (failed, w)
    | some plain ↦ (done true, record { input = plain; output = w.output })
  ]

  -- Whether the connection is encrypted from here on.
  unfoldable pub negotiate_stream :
      {Config : Type 0} → TlsSettings → Option Config → Handler Wire Bool
  unfolding read_startup accept_tls read_i32
  negotiate_stream tls acceptor = do
    len ← read_i32
    (if len == 8
        then (do
          code ← read_i32
          (if code == ssl_request_code
              then elim acceptor [
                | some acc ↦ do _ ← write_all (ascii "S"); accept_tls
                | none ↦ do
                  _ ← write_all (ascii "N")
                  startup_len ← read_i32
                  read_startup startup_len
              ]
              else fail))
        else if tls.require_tls
        then (do _ ← send_error (ascii "SSL required"); fail)
        else read_startup len)

  abbrev pub verify : AuthConfig → Bytes → Bool
  verify auth password = elim auth.password_hash [
    | some hash ↦ h.verify_password password hash
    | none ↦ true
  ]

  unfoldable pub authenticate_cleartext : AuthConfig → Handler Wire Bool
  unfolding read_u8 read_body read_cstring
  authenticate_cleartext auth = do
    _ ← send_message b'R' (to_be_bytes 4 3)
    msg_type ← read_u8
    (if not (msg_type == b'p')
        then (do _ ← send_error (ascii "expected password message"); pure false)
        else do
          pw_buf ← read_body
          (if not (verify auth (read_cstring h pw_buf))
              then (do _ ← send_error (ascii "authentication failed"); pure false)
              else pure true))

  unfoldable pub sasl_payload : Bytes → Handler Wire (Bytes × Bytes)
  unfolding read_cstring_buf sasl_data
  sasl_payload payload =
      let (mechanism, cur) = read_cstring_buf h payload in sasl_data mechanism (read_exact 4 cur)

  unfoldable pub read_sasl_message : Handler Wire (Bytes × Bytes)
  unfolding read_u8 read_body sasl_payload
  read_sasl_message = do
    msg_type ← read_u8
    (if not (msg_type == b'p') then fail else do payload ← read_body; sasl_payload payload)

module _ (c : Crypto) (h : Host) where
  -- With the variable MOODENG_PASSWORD, and a salt of random bytes.
  unfoldable pub from_config_and_env :
      (hash_from_file scram_from_file env_password : Option Bytes) → (salt : Bytes) → AuthConfig
  from_config_and_env hash_from_file scram_from_file env_password salt =
      let hash = non_empty hash_from_file in
      let credentials : Option ScramCredentials = elim (non_empty scram_from_file) [
        | none ↦ none
        | some s ↦ Scram.ok (Scram.parse c s)
      ] in
      if is_some hash || is_some credentials
      then record {
        password_hash = hash;
        scram_credentials = credentials;
        require_tls_for_password = false;
      }
      else elim (non_empty env_password) [
        | none ↦ record {
          password_hash = none;
          scram_credentials = none;
          require_tls_for_password = false;
        }
        | some password ↦ record {
          password_hash = some (h.hash_password password);
          scram_credentials = some (Scram.from_password_with_salt c password salt 4096);
          require_tls_for_password = false;
        }
      ]

  -- main.rs
  unfoldable pub auth_config :
      (hash_from_file scram_from_file env_password : Option Bytes)
      → (salt : Bytes) → TlsSettings
      → AuthConfig
  unfolding from_config_and_env
  auth_config hash_from_file scram_from_file env_password salt tls =
      let auth = from_config_and_env hash_from_file scram_from_file env_password salt in
      record {
        password_hash = auth.password_hash;
        scram_credentials = auth.scram_credentials;
        require_tls_for_password =
            (is_some auth.password_hash && tls_available tls && not (scram_available auth))
            || auth.require_tls_for_password;
      }

  unfoldable pub finish_scram : ScramSession → Bytes → Handler Wire Bool
  finish_scram session client_final = elim (Scram.finish c session client_final) [
    | inr server_final ↦ do
      _ ← send_message b'R' (to_be_bytes 4 12 ++ (server_final ++ 0 ∷ []))
      pure true
    | inl e ↦ do _ ← send_error (ascii "authentication failed: " ++ e); pure false
  ]

  -- With the random bytes of the server's nonce.
  unfoldable pub authenticate_scram : Bytes → AuthConfig → Handler Wire Bool
  unfolding read_sasl_message finish_scram
  authenticate_scram server_nonce_bytes auth = do
    _ ← send_message b'R' (to_be_bytes 4 10 ++ (ascii "SCRAM-SHA-256" ++ 0 ∷ 0 ∷ []))
    (mechanism, first_bytes) ← read_sasl_message h
    (if not (length mechanism == 0) && not (bytes_eq mechanism (ascii "SCRAM-SHA-256"))
        then (do _ ← send_error (ascii "unsupported SASL mechanism"); pure false)
        else do
          client_first ← or_fail (h.from_utf8 first_bytes)
          creds ←
              or_fail
                (Scram.ok_or auth.scram_credentials (ascii "SCRAM credentials not configured"))
          (session, server_first) ← or_fail (Scram.start c creds server_nonce_bytes client_first)
          _ ← send_message b'R' (to_be_bytes 4 11 ++ (server_first ++ 0 ∷ []))
          (_, final_bytes) ← read_sasl_message h
          client_final ← or_fail (h.from_utf8 final_bytes)
          finish_scram session client_final)

  unfoldable pub authenticate : Bytes → AuthConfig → Handler Wire Bool
  unfolding authenticate_scram authenticate_cleartext
  authenticate server_nonce_bytes auth =
      if scram_available auth
      then authenticate_scram server_nonce_bytes auth
      else authenticate_cleartext h auth
