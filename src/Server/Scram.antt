-- ===== src/Server/Scram.antt =====
-- moodeng-server/src/scram.rs: SCRAM-SHA-256 on the server's side. The primitives of the crates
-- hmac, sha2 and base64 are a parameter, and the random bytes are arguments.
pub mod Laws
pub mod Derived
pub mod Client
pub mod Sound
use Prim.Native.Nat.{bit_xor}
use moodeng_sql.Prelude.{
  ℕ, zero, suc, Bool, true, false, ◌-◌, ◌^◌, ◌≤◌, ◌<◌, ◌≡◌, Option, none, some, List, [], ◌∷◌, ◌++◌,
  ◌==◌, ◌&&◌, ◌||◌, not, if◌then◌else◌, inl, inr, ◌⊎◌, ite, dec_eq,
}
use moodeng_sql.Prelude.Lists.{All, length}
use moodeng_sql.Prelude.Map.{Map, lookup, insert}
use moodeng_sql.Prelude.Bytes.{Bytes}
use moodeng_sql.Server.Text.{
  ascii, split_once, split, strip_prefix, starts_with, before, decimal, parse_u32, bytes_key,
}

pub record Crypto : Type 0 where
  pub hmac_sha256_bytes : (key message : Bytes) → Bytes
  pub sha256 : Bytes → Bytes
  pub encode : Bytes → Bytes
  -- The text of the error, or the bytes.
  pub decode : Bytes → Bytes ⊎ Bytes

-- An `anyhow::Result`: the text of the error, or the value.
abbrev pub Checked : Type 0 → Type 0
Checked A = Bytes ⊎ A

infixl 5 ◌>>=◌
abbrev pub ◌>>=◌ : {A B : Type 0} → Checked A → (A → Checked B) → Checked B
inl e >>= f = inl e
inr a >>= f = f a

abbrev pub ok_or : {A : Type 0} → Option A → Bytes → Checked A
ok_or none e = inl e
ok_or (some a) e = inr a

abbrev pub ok : {A : Type 0} → Checked A → Option A
ok (inl e) = none
ok (inr a) = some a

-- `bail!` on a condition.
abbrev pub bail_if : Bool → Bytes → Checked Unit
bail_if true e = inl e
bail_if false e = inr tt

abbrev pub bytes_eq : Bytes → Bytes → Bool
bytes_eq s t = ite (dec_eq s t) true false

pub record ScramCredentials : Type 0 where
  pub iterations : ℕ
  pub salt : Bytes
  pub stored_key : Bytes
  pub server_key : Bytes

pub record ScramSession : Type 0 where
  pub creds : ScramCredentials
  pub client_first_bare : Bytes
  pub server_first : Bytes
  pub client_nonce : Bytes

unfoldable pub strip_gs2_header : Bytes → Checked Bytes
strip_gs2_header client_first = elim (strip_prefix (ascii "n,,") client_first) [
  | some rest ↦ inr rest
  | none ↦ elim (strip_prefix (ascii "y,,") client_first) [
    | some rest ↦ inr rest
    | none ↦ inl (ascii "unsupported SCRAM gs2 header")
  ]
]

unfoldable pub parse_parts : List Bytes → Map Bytes Bytes → Checked (Map Bytes Bytes)
parse_parts [] out = inr out
parse_parts (part ∷ parts) out = elim (split_once b'=' part) [
  | none ↦ inl (ascii "invalid SCRAM attribute: " ++ part)
  | some (key, value) ↦ parse_parts parts (insert key value out)
]

unfoldable pub parse_attrs : Bytes → Checked (Map Bytes Bytes)
unfolding parse_parts
parse_attrs input = parse_parts (split b',' input) []

unfoldable pub xor_bytes : Bytes → Bytes → Bytes
xor_bytes [] b = []
xor_bytes (x ∷ a) [] = []
xor_bytes (x ∷ a) (y ∷ b) = bit_xor x y ∷ xor_bytes a b

-- `*acc ^= val` over the zip, which leaves what has no partner.
unfoldable pub xor_in_place : Bytes → Bytes → Bytes
xor_in_place [] ui = []
xor_in_place (acc ∷ result) [] = acc ∷ result
xor_in_place (acc ∷ result) (val ∷ ui) = bit_xor acc val ∷ xor_in_place result ui

module _ (c : Crypto) where
  unfoldable pub hi_loop : ℕ → (password ui result : Bytes) → Bytes
  hi_loop zero password ui result = result
  hi_loop (suc rounds) password ui result =
      let next = c.hmac_sha256_bytes ui password in
      hi_loop rounds password next (xor_in_place result next)

  unfoldable pub hi : (password salt : Bytes) → (iterations : ℕ) → Bytes
  unfolding hi_loop
  hi password salt iterations =
      let ui = c.hmac_sha256_bytes salt password in hi_loop (iterations - 1) password ui ui

  unfoldable pub from_password_with_salt : (password salt : Bytes) → ℕ → ScramCredentials
  unfolding hi
  from_password_with_salt password salt iterations =
      let salted_password = hi password salt iterations in
      let client_key = c.hmac_sha256_bytes salted_password (ascii "Client Key") in
      record {
        iterations = iterations;
        salt = salt;
        stored_key = c.sha256 client_key;
        server_key = c.hmac_sha256_bytes salted_password (ascii "Server Key");
      }

  unfoldable pub decode_32 : Bytes → Checked Bytes
  decode_32 value = do
    bytes ← c.decode value
    _ ← bail_if (not (length bytes == 32)) (ascii "expected 32-byte SCRAM key")
    inr bytes

  -- Of the error of a number only that it is one: the caller drops every error of `parse`.
  unfoldable pub parse : Bytes → Checked ScramCredentials
  unfolding decode_32
  parse raw = do
    rest ←
        ok_or (strip_prefix (ascii "SCRAM-SHA-256$") raw) (ascii "invalid SCRAM credential prefix")
    (params, keys) ← ok_or (split_once b'$' rest) (ascii "invalid SCRAM credential format")
    (count, salt_b64) ← ok_or (split_once b':' params) (ascii "invalid SCRAM params")
    (stored_b64, server_b64) ← ok_or (split_once b':' keys) (ascii "invalid SCRAM keys")
    iterations ← ok_or (parse_u32 count) []
    salt ← c.decode salt_b64
    stored_key ← decode_32 stored_b64
    server_key ← decode_32 server_b64
    inr record {
      iterations = iterations;
      salt = salt;
      stored_key = stored_key;
      server_key = server_key;
    }

  unfoldable pub to_secret_string : ScramCredentials → Bytes
  to_secret_string creds =
      ascii "SCRAM-SHA-256$"
      ++ ((decimal creds.iterations ++ b':' ∷ c.encode creds.salt)
          ++ b'$' ∷ (c.encode creds.stored_key ++ b':' ∷ c.encode creds.server_key))

  -- `start`, with the random bytes of the server's nonce.
  unfoldable pub start : ScramCredentials → Bytes → Bytes → Checked (ScramSession × Bytes)
  unfolding strip_gs2_header parse_attrs
  start creds server_nonce_bytes client_first = do
    bare ← strip_gs2_header client_first
    attrs ← parse_attrs bare
    nonce ← ok_or (lookup (ascii "r") attrs) (ascii "SCRAM client-first missing nonce")
    _ ← bail_if (length nonce == 0) (ascii "SCRAM client nonce must not be empty")
    let combined_nonce = nonce ++ c.encode server_nonce_bytes
    let first =
        ascii "r="
        ++ (combined_nonce
            ++ (ascii ",s=" ++ (c.encode creds.salt ++ (ascii ",i=" ++ decimal creds.iterations))))
    inr (
      record {
        creds = creds;
        client_first_bare = bare;
        server_first = first;
        client_nonce = nonce;
      },
      first,
    )

  abbrev pub auth_message : (bare first without_proof : Bytes) → Bytes
  auth_message bare first without_proof = bare ++ b',' ∷ (first ++ b',' ∷ without_proof)

  unfoldable pub finish : ScramSession → Bytes → Checked Bytes
  unfolding parse_attrs xor_bytes
  finish session client_final = do
    attrs ← parse_attrs client_final
    channel_binding ←
        ok_or (lookup (ascii "c") attrs) (ascii "SCRAM client-final missing channel binding")
    _ ←
        bail_if
          (not (bytes_eq channel_binding (ascii "biws"))
            && not (bytes_eq channel_binding (ascii "eSws")))
          (ascii "unsupported SCRAM channel binding: " ++ channel_binding)
    combined_nonce ← ok_or (lookup (ascii "r") attrs) (ascii "SCRAM client-final missing nonce")
    _ ←
        bail_if (not (starts_with combined_nonce session.client_nonce))
          (ascii "SCRAM nonce mismatch")
    proof_b64 ← ok_or (lookup (ascii "p") attrs) (ascii "SCRAM client-final missing proof")
    client_proof ← c.decode proof_b64
    let message =
        auth_message session.client_first_bare session.server_first
          (before (ascii ",p=") client_final)
    let client_signature = c.hmac_sha256_bytes session.creds.stored_key message
    let client_key = xor_bytes client_proof client_signature
    _ ←
        bail_if (not (bytes_eq (c.sha256 client_key) session.creds.stored_key))
          (ascii "SCRAM proof verification failed")
    let server_signature = c.hmac_sha256_bytes session.creds.server_key message
    inr (ascii "v=" ++ c.encode server_signature)
