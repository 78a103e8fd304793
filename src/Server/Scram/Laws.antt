-- ===== src/Server/Scram/Laws.antt =====
-- scram.rs: what the primitives are documented to do, the attributes of a message, the lengths of
-- the keys, and the text of stored credentials.
use moodeng_sql.Prelude.{
  ℕ, ◌^◌, ◌≤◌, ◌<◌, ◌≡◌, ◌≢◌, refl, ◌∙◌, List, [], ◌∷◌, ◌++◌, inl, inr, ◌⊎◌, arith,
}
use moodeng_sql.Prelude.Lists.{All, All-weaken, length}
use moodeng_sql.Prelude.Map.{Map, insert}
use moodeng_sql.Prelude.Bytes.{Bytes}
use moodeng_sql.Prelude.Bits.{bit_xor_twice, bit_xor-lt}
use moodeng_sql.Server.Text.{
  ascii, Lacks, Lacks-append, split-append, split_lem, split_once, split_once_lem,
  strip_prefix-append, decimal, decimal-Lacks, parse_u32-decimal, bytes_key,
}
use moodeng_sql.Server.Scram.{
  Crypto, ScramCredentials, parse_parts, parse_attrs, xor_bytes, hi, from_password_with_salt,
  decode_32, parse, to_secret_string,
}

abbrev pub IsByte : ℕ → Type 0
IsByte b = b < 256

abbrev pub IsKey : Bytes → Type 0
IsKey s = (length s ≡ 32) × All IsByte s

-- A letter of the base64 alphabet, or the padding.
abbrev pub IsBase64 : ℕ → Type 0
IsBase64 b =
    (b ≡ b'+') ⊎ (b ≡ b'=') ⊎ ((47 ≤ b) × (b ≤ 57)) ⊎ ((65 ≤ b) × (b ≤ 90)) ⊎ ((97 ≤ b) × (b ≤ 122))

pub record IsDocumented (c : Crypto) : Type 0 where
  pub hmac_key : (key message : Bytes) → IsKey (c.hmac_sha256_bytes key message)
  pub sha256_key : (message : Bytes) → IsKey (c.sha256 message)
  pub encode_letters : (s : Bytes) → All IsByte s → All IsBase64 (c.encode s)
  pub decode-encode : (s : Bytes) → All IsByte s → c.decode (c.encode s) ≡ inr s

-- A byte outside the alphabet.
abbrev pub IsForeign : ℕ → Type 0
IsForeign b = (b ≡ 0) ⊎ (b ≡ b',') ⊎ (b ≡ b'$') ⊎ (b ≡ b':')

foreign : (x b : ℕ) → IsForeign x → IsBase64 b → b ≢ x
foreign x b f h e = ground (arith, f, h, e)

pub encode-Lacks :
    {c : Crypto}
    → IsDocumented c
    → (x : ℕ) (s : Bytes) → IsForeign x
    → All IsByte s
    → Lacks x (c.encode s)
encode-Lacks {c} d x s f h =
    All-weaken IsBase64 (λ b. b ≢ x) (c.encode s) (λ b l. foreign x b f l) (d.encode_letters s h)

-- Attributes with keys of one byte.
abbrev pub attr : ℕ → Bytes → Bytes
attr key value = key ∷ b'=' ∷ value

abbrev IsName : ℕ → Type 0
IsName key = (key ≢ b',') × (key ≢ b'=')

parse_parts_step :
    (key : ℕ) (value : Bytes) (parts : List Bytes) (out : Map Bytes Bytes)
    → IsName key
    → parse_parts (attr key value ∷ parts) out ≡ parse_parts parts (insert (key ∷ []) value out)
unfolding parse_parts split_once
parse_parts_step key value parts out h = ground (arith, h.1)

attr-Lacks : (key : ℕ) (value : Bytes) → IsName key → Lacks b',' value → Lacks b',' (attr key value)
attr-Lacks key value h lacks = (h.0, ((λ e. absurd (ground (arith, e))), lacks))

pub parse_attrs-two :
    (j k : ℕ) (u v : Bytes)
    → IsName j
    → IsName k
    → Lacks b',' u
    → Lacks b',' v
    → parse_attrs (attr j u ++ b',' ∷ attr k v) ≡ inr (insert (k ∷ []) v (insert (j ∷ []) u []))
unfolding parse_attrs
parse_attrs-two j k u v hj hk lu lv =
    let lj : Lacks b',' (attr j u) = attr-Lacks j u hj lu in
    let lk : Lacks b',' (attr k v) = attr-Lacks k v hk lv in
    rw (split-append b',' (attr j u) (attr k v) lj) (
      rw (split_lem b',' (attr k v) lk) (
        parse_parts_step j u (attr k v ∷ []) [] hj
        ∙ (parse_parts_step k v [] (insert (j ∷ []) u []) hk ∙ unfold parse_parts in refl)))

pub parse_attrs-three :
    (i j k : ℕ) (u v w : Bytes)
    → IsName i
    → IsName j
    → IsName k
    → Lacks b',' u
    → Lacks b',' v
    → Lacks b',' w
    → parse_attrs (attr i u ++ b',' ∷ (attr j v ++ b',' ∷ attr k w))
      ≡ inr (insert (k ∷ []) w (insert (j ∷ []) v (insert (i ∷ []) u [])))
unfolding parse_attrs
parse_attrs-three i j k u v w hi hj hk lu lv lw =
    let li : Lacks b',' (attr i u) = attr-Lacks i u hi lu in
    let lj : Lacks b',' (attr j v) = attr-Lacks j v hj lv in
    let lk : Lacks b',' (attr k w) = attr-Lacks k w hk lw in
    rw (split-append b',' (attr i u) (attr j v ++ b',' ∷ attr k w) li) (
      rw (split-append b',' (attr j v) (attr k w) lj) (
        rw (split_lem b',' (attr k w) lk) (
          parse_parts_step i u (attr j v ∷ attr k w ∷ []) [] hi
          ∙ (parse_parts_step j v (attr k w ∷ []) (insert (i ∷ []) u []) hj
              ∙ (parse_parts_step k w [] (insert (j ∷ []) v (insert (i ∷ []) u [])) hk
                  ∙ unfold parse_parts in refl)))))

-- What the client masks its key with comes off again.
pub xor_bytes_twice : (a b : Bytes) → length a ≡ length b → xor_bytes (xor_bytes a b) b ≡ a
unfolding xor_bytes
xor_bytes_twice [] b h = refl
xor_bytes_twice (x ∷ a) [] h = absurd (omega (arith, h))
xor_bytes_twice (x ∷ a) (y ∷ b) h =
    let rest : xor_bytes (xor_bytes a b) b ≡ a = xor_bytes_twice a b (omega (arith, h)) in
    λ i. bit_xor_twice x y i ∷ rest i

pub xor_bytes-IsByte : (a b : Bytes) → All IsByte a → All IsByte b → All IsByte (xor_bytes a b)
unfolding xor_bytes
xor_bytes-IsByte [] b ha hb = tt
xor_bytes-IsByte (x ∷ a) [] ha hb = tt
xor_bytes-IsByte (x ∷ a) (y ∷ b) ha hb =
    (bit_xor-lt 8 x y ha.0 hb.0, xor_bytes-IsByte a b ha.1 hb.1)

-- Credentials that a text can hold.
pub record IsValid (creds : ScramCredentials) : Type 0 where
  pub iterations_u32 : creds.iterations < 2 ^ 32
  pub salt_bytes : All IsByte creds.salt
  pub stored : IsKey creds.stored_key
  pub server : IsKey creds.server_key

pub from_password_with_salt-IsValid :
    {c : Crypto}
    → IsDocumented c
    → (password salt : Bytes) (iterations : ℕ) → All IsByte salt
    → iterations < 2 ^ 32
    → IsValid (from_password_with_salt c password salt iterations)
unfolding from_password_with_salt
from_password_with_salt-IsValid d password salt iterations bytes room = record {
  iterations_u32 = room;
  salt_bytes = bytes;
  stored = d.sha256_key _;
  server = d.hmac_key _ _;
}

decode_32_lem :
    {c : Crypto} → IsDocumented c → (s : Bytes) → IsKey s → decode_32 c (c.encode s) ≡ inr s
unfolding decode_32
decode_32_lem {c} d s h = rw (d.decode-encode s h.1) (rw h.0 refl)

-- Credentials that are written as a text are read back from it.
pub parse-to_secret_string :
    (c : Crypto)
    → IsDocumented c
    → (creds : ScramCredentials) → IsValid creds
    → parse c (to_secret_string c creds) ≡ inr creds
unfolding parse to_secret_string
parse-to_secret_string c d creds v =
    let params : Bytes = decimal creds.iterations ++ b':' ∷ c.encode creds.salt in
    let keys : Bytes = c.encode creds.stored_key ++ b':' ∷ c.encode creds.server_key in
    let plain : Lacks b'$' params =
      Lacks-append b'$' (decimal creds.iterations) (b':' ∷ c.encode creds.salt)
        (decimal-Lacks b'$' creds.iterations (inl (omega arith)))
        (
          (λ e. absurd (ground (arith, e))),
          encode-Lacks d b'$' creds.salt (inr (inr (inl refl))) v.salt_bytes,
        ) in
    let colon_free : Lacks b':' (c.encode creds.stored_key) =
      encode-Lacks d b':' creds.stored_key (inr (inr (inr refl))) v.stored.1 in
    rw
      (
        strip_prefix-append (ascii "SCRAM-SHA-256$") (params ++ b'$' ∷ keys),
        split_once_lem b'$' params keys plain,
        split_once_lem b':' (decimal creds.iterations) (c.encode creds.salt)
            (decimal-Lacks b':' creds.iterations (inr (omega arith))),
        split_once_lem b':' (c.encode creds.stored_key) (c.encode creds.server_key) colon_free,
        parse_u32-decimal creds.iterations v.iterations_u32,
        d.decode-encode creds.salt v.salt_bytes,
        decode_32_lem d creds.stored_key v.stored,
        decode_32_lem d creds.server_key v.server,
      )
      refl
