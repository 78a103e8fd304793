-- ===== src/Server/Scram/Client.antt =====
-- A client of SCRAM-SHA-256 (the messages of RFC 5802, the key derivation of scram.rs), and its exchange with
-- the server.
use moodeng_sql.Prelude.{
  ℕ, ◌^◌, ◌<◌, ◌≡◌, refl, ap, sym, ◌∙◌, ◌∷◌, ◌++◌, inl, inr, arith, true, if_pos, dec_eq,
}
use native.Mathlib.Decide.{ℕ_discrete}
use moodeng_sql.Prelude.Lists.{All, length}
use moodeng_sql.Prelude.Map.{lookup, insert}
use moodeng_sql.Prelude.Bytes.{Bytes}
use moodeng_sql.Server.Text.{
  ascii, Lacks, Lacks-append, before, before_lem, decimal, decimal-Lacks, parse_u32,
  parse_u32-decimal, bytes_key, starts_with, starts_with-append, Bytes_discrete, strip_prefix,
}
use moodeng_sql.Server.Scram.{
  Crypto, Checked, ◌>>=◌, ok_or, bytes_eq, auth_message, ScramCredentials, ScramSession,
  parse_attrs, xor_bytes, hi, from_password_with_salt, start, finish, strip_gs2_header,
}
use moodeng_sql.Server.Scram.Derived.{derived, hi_lem}
use moodeng_sql.Server.Scram.Laws.{
  IsByte, IsKey, IsDocumented, encode-Lacks, attr, parse_attrs-two, parse_attrs-three,
  xor_bytes_twice, xor_bytes-IsByte,
}

module _ (c : Crypto) where
  abbrev pub without_proof : Bytes → Bytes
  without_proof combined_nonce = ascii "c=biws,r=" ++ combined_nonce

  -- The key that the password gives, and what the server has to know of it.
  abbrev pub client_key : (password salt : Bytes) → ℕ → Bytes
  client_key password salt iterations =
      c.hmac_sha256_bytes (derived c password salt iterations) (ascii "Client Key")

  abbrev pub client_signature : (key bare first combined_nonce : Bytes) → Bytes
  client_signature key bare first combined_nonce =
      c.hmac_sha256_bytes (c.sha256 key) (auth_message c bare first (without_proof combined_nonce))

  abbrev pub first : ScramCredentials → (server_nonce_bytes nonce : Bytes) → Bytes
  first creds server_nonce_bytes nonce =
      attr b'r' (nonce ++ c.encode server_nonce_bytes)
      ++ b',' ∷ (attr b's' (c.encode creds.salt) ++ b',' ∷ attr b'i' (decimal creds.iterations))

  -- The client's answer to the server's first message.
  unfoldable pub client_final : (password bare server_first : Bytes) → Checked Bytes
  unfolding parse_attrs
  client_final password bare server_first = do
    attrs ← parse_attrs server_first
    combined_nonce ← ok_or (lookup (ascii "r") attrs) (ascii "no nonce")
    salt_b64 ← ok_or (lookup (ascii "s") attrs) (ascii "no salt")
    count ← ok_or (lookup (ascii "i") attrs) (ascii "no iterations")
    salt ← c.decode salt_b64
    iterations ← ok_or (parse_u32 count) (ascii "no number")
    let key = client_key password salt iterations
    inr (
        without_proof combined_nonce
        ++ (ascii ",p="
            ++ c.encode (xor_bytes key (client_signature key bare server_first combined_nonce))))

  -- Both sides, for a client that sends the user's name and its own nonce first: what the server
  -- says at the end.
  unfoldable pub exchange :
      ScramCredentials → (server_nonce_bytes password user nonce : Bytes) → Checked Bytes
  unfolding client_final
  exchange creds server_nonce_bytes password user nonce = do
    let bare = attr b'n' user ++ b',' ∷ attr b'r' nonce
    (session, server_first) ← start c creds server_nonce_bytes (ascii "n,," ++ bare)
    answer ← client_final password bare server_first
    finish c session answer

  unfoldable pub session_of :
      ScramCredentials → (server_nonce_bytes user nonce : Bytes) → ScramSession
  session_of creds server_nonce_bytes user nonce = record {
    creds = creds;
    client_first_bare = attr b'n' user ++ b',' ∷ attr b'r' nonce;
    server_first = first creds server_nonce_bytes nonce;
    client_nonce = nonce;
  }

  start_lem :
      (creds : ScramCredentials) (server_nonce_bytes user nonce : Bytes)
      → Lacks b',' user
      → Lacks b',' nonce
      → 0 < length nonce
      → start c creds server_nonce_bytes (ascii "n,," ++ (attr b'n' user ++ b',' ∷ attr b'r' nonce))
        ≡ inr (session_of creds server_nonce_bytes user nonce, first creds server_nonce_bytes nonce)
  unfolding start session_of strip_gs2_header strip_prefix lookup insert Bytes_discrete ℕ_discrete
  start_lem creds server_nonce_bytes user nonce lu ln long =
      rw
        (parse_attrs-two b'n' b'r' user nonce (omega arith, omega arith) (omega arith, omega arith)
          lu ln)
        (ground (arith, long))

  client_final_lem :
      IsDocumented c
      → (creds : ScramCredentials) (server_nonce_bytes password bare nonce : Bytes)
      → All IsByte server_nonce_bytes
      → All IsByte creds.salt
      → creds.iterations < 2 ^ 32
      → Lacks b',' nonce
      → client_final password bare (first creds server_nonce_bytes nonce)
        ≡ inr (
            without_proof (nonce ++ c.encode server_nonce_bytes)
            ++ (ascii ",p="
                ++ c.encode (
                    xor_bytes (client_key password creds.salt creds.iterations) (
                      client_signature
                        (client_key password creds.salt creds.iterations)
                        bare
                        (first creds server_nonce_bytes nonce)
                        (nonce ++ c.encode server_nonce_bytes)))))
  unfolding client_final lookup insert Bytes_discrete ℕ_discrete
  client_final_lem d creds server_nonce_bytes password bare nonce random salted room ln =
      rw
        (parse_attrs-three b'r' b's' b'i' (nonce ++ c.encode server_nonce_bytes)
          (c.encode creds.salt) (decimal creds.iterations) (omega arith, omega arith)
          (omega arith, omega arith) (omega arith, omega arith)
          (Lacks-append b',' nonce (c.encode server_nonce_bytes) ln
            (encode-Lacks d b',' server_nonce_bytes (inr (inl refl)) random))
          (encode-Lacks d b',' creds.salt (inr (inl refl)) salted)
          (decimal-Lacks b',' creds.iterations (inl (omega arith))))
        (rw (d.decode-encode creds.salt salted) (rw (parse_u32-decimal creds.iterations room) refl))

  -- What stands before the proof.
  before_proof :
      (combined_nonce proof_b64 : Bytes)
      → Lacks b',' combined_nonce
      → before (ascii ",p=") (without_proof combined_nonce ++ (ascii ",p=" ++ proof_b64))
        ≡ without_proof combined_nonce
  unfolding before strip_prefix
  before_proof r p lr = ap (λ s. ascii "c=biws,r=" ++ s) (before_lem b',' (ascii "p=") r p lr)

  bytes_eq_self : (s : Bytes) → bytes_eq s s ≡ true
  bytes_eq_self s = if_pos (dec_eq s s) refl _ _

  finish_lem :
      IsDocumented c
      → (session : ScramSession) (key r extra : Bytes) → IsKey key
      → session.creds.stored_key ≡ c.sha256 key
      → r ≡ session.client_nonce ++ extra
      → Lacks b',' r
      → finish c session (
          without_proof r
          ++ (ascii ",p="
              ++ c.encode (
                  xor_bytes key
                    (client_signature key session.client_first_bare session.server_first r))))
        ≡ inr (
            ascii "v="
            ++ c.encode (
                c.hmac_sha256_bytes session.creds.server_key (
                  auth_message c session.client_first_bare session.server_first (without_proof r))))
  unfolding finish lookup insert Bytes_discrete ℕ_discrete
  finish_lem d session key r extra k stored shape lr =
      let signature : Bytes =
        client_signature key session.client_first_bare session.server_first r in
      let signed : IsKey signature = d.hmac_key _ _ in
      let proof : Bytes = xor_bytes key signature in
      let proof_bytes : All IsByte proof = xor_bytes-IsByte key signature k.1 signed.1 in
      let unmasked : xor_bytes proof signature ≡ key =
        xor_bytes_twice key signature (k.0 ∙ sym signed.0) in
      let begins : starts_with r session.client_nonce ≡ true =
        rw shape (starts_with-append session.client_nonce extra) in
      rw
        (parse_attrs-three b'c' b'r' b'p' (ascii "biws") r (c.encode proof)
          (omega arith, omega arith) (omega arith, omega arith) (omega arith, omega arith)
          (omega arith, (omega arith, (omega arith, (omega arith, tt)))) lr
          (encode-Lacks d b',' proof (inr (inl refl)) proof_bytes))
        (rw (d.decode-encode proof proof_bytes, before_proof r (c.encode proof) lr)
          (rw begins (rw stored (rw unmasked (rw (bytes_eq_self (c.sha256 key)) refl)))))

  exchange_with :
      IsDocumented c
      → (creds : ScramCredentials) (server_nonce_bytes password user nonce : Bytes)
      → creds.stored_key ≡ c.sha256 (client_key password creds.salt creds.iterations)
      → All IsByte creds.salt
      → creds.iterations < 2 ^ 32
      → All IsByte server_nonce_bytes
      → Lacks b',' user
      → Lacks b',' nonce
      → 0 < length nonce
      → exchange creds server_nonce_bytes password user nonce
        ≡ inr (
            ascii "v="
            ++ c.encode (
                c.hmac_sha256_bytes creds.server_key (
                  auth_message c
                    (attr b'n' user ++ b',' ∷ attr b'r' nonce)
                    (first creds server_nonce_bytes nonce)
                    (without_proof (nonce ++ c.encode server_nonce_bytes)))))
  unfolding exchange session_of
  exchange_with d creds snb password user nonce stored salted room random lu ln long =
      let combined : Bytes = nonce ++ c.encode snb in
      let lacks : Lacks b',' combined =
        Lacks-append b',' nonce (c.encode snb) ln
          (encode-Lacks d b',' snb (inr (inl refl)) random) in
      rw
        (
          start_lem creds snb user nonce lu ln long,
          client_final_lem d creds snb password (attr b'n' user ++ b',' ∷ attr b'r' nonce) nonce
              random salted room ln,
        )
        (finish_lem d (session_of creds snb user nonce)
          (client_key password creds.salt creds.iterations) combined (c.encode snb) (d.hmac_key _ _)
          stored refl lacks)

-- A client that knows the password, and derives its key as the server means to (which is not Hi
-- of RFC 5802), is let in, and is shown that the server knows its key too: for credentials made of the password and any salt of bytes, any number of iterations of a
-- `u32`, and any user's name and nonce without a comma, the nonce not empty, the exchange ends
-- with the signature that the client can check, if the primitives do what they are documented to.
pub exchange_lem :
    (c : Crypto)
    → IsDocumented c
    → (password salt : Bytes) (iterations : ℕ) (server_nonce_bytes user nonce : Bytes)
    → All IsByte salt
    → iterations < 2 ^ 32
    → All IsByte server_nonce_bytes
    → Lacks b',' user
    → Lacks b',' nonce
    → 0 < length nonce
    → let creds = from_password_with_salt c password salt iterations in
      exchange c creds server_nonce_bytes password user nonce
      ≡ inr (
          ascii "v="
          ++ c.encode (
              c.hmac_sha256_bytes
                (c.hmac_sha256_bytes (derived c password salt iterations) (ascii "Server Key"))
                (auth_message c
                  (attr b'n' user ++ b',' ∷ attr b'r' nonce)
                  (first c creds server_nonce_bytes nonce)
                  (without_proof c (nonce ++ c.encode server_nonce_bytes)))))
unfolding from_password_with_salt
exchange_lem c d password salt iterations snb user nonce salted room random lu ln long =
    let key : hi c password salt iterations ≡ derived c password salt iterations =
      hi_lem c password salt d iterations in
    let creds : ScramCredentials = from_password_with_salt c password salt iterations in
    exchange_with c d creds snb password user nonce
      (ap (λ k. c.sha256 (c.hmac_sha256_bytes k (ascii "Client Key"))) key) salted room random lu ln
      long
    ∙ ap
        (λ k. inr (
          ascii "v="
          ++ c.encode (
              c.hmac_sha256_bytes (c.hmac_sha256_bytes k (ascii "Server Key")) (
                auth_message c (attr b'n' user ++ b',' ∷ attr b'r' nonce) (first c creds snb nonce)
                  (without_proof c (nonce ++ c.encode snb))))))
        key
