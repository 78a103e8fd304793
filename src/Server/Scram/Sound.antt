-- ===== src/Server/Scram/Sound.antt =====
-- scram.rs, `finish`: what a client has to show.
use moodeng_sql.Prelude.{
  Bool, true, false, ◌≡◌, refl, Option, none, some, not, ◌&&◌, inl, inr, arith, if_neg, dec_eq, sym,
  ◌∙◌,
}
use moodeng_sql.Prelude.Map.{Map, lookup}
use moodeng_sql.Prelude.Bytes.{Bytes}
use moodeng_sql.Server.Text.{ascii, before, starts_with, bytes_key}
use moodeng_sql.Server.Scram.{
  Crypto, Checked, ◌>>=◌, ok_or, bail_if, bytes_eq, auth_message, ScramSession, parse_attrs,
  xor_bytes, finish,
}

bind_inv :
    {A B : Type 0} (m : Checked A) (f : A → Checked B) {b : B}
    → (m >>= f) ≡ inr b
    → (a : A) × (m ≡ inr a) × (f a ≡ inr b)
bind_inv (inl e) f h = absurd (ground (arith, h))
bind_inv (inr a) f h = (a, refl, h)

pub ok_or_inv : {A : Type 0} (o : Option A) (e : Bytes) {a : A} → ok_or o e ≡ inr a → o ≡ some a
ok_or_inv none e h = absurd (ground (arith, h))
ok_or_inv (some a) e h = ground (arith, h)

bail_if_inv : (b : Bool) (e : Bytes) {u : Unit {0}} → bail_if b e ≡ inr u → b ≡ false
bail_if_inv true e h = absurd (ground (arith, h))
bail_if_inv false e h = refl

not_inv : (b : Bool) → not b ≡ false → b ≡ true
not_inv true h = refl
not_inv false h = absurd (ground (arith, h))

bytes_eq_inv : (s t : Bytes) → bytes_eq s t ≡ true → s ≡ t
bytes_eq_inv s t h = elim (dec_eq s t) [
  | yes e ↦ e
  | no other ↦ absurd (ground (arith, sym (if_neg (dec_eq s t) other true false) ∙ h))
]

-- The message of the client holds a proof which, when the signature of the whole exchange is taken
-- off it, is a preimage of the stored key, and its nonce begins with the one of its first message.
pub record Proves (c : Crypto) (session : ScramSession) (client_final : Bytes) : Type 0 where
  pub attrs : Map Bytes Bytes
  pub parsed : parse_attrs client_final ≡ inr attrs
  pub combined_nonce : Bytes
  pub nonce_given : lookup (ascii "r") attrs ≡ some combined_nonce
  pub nonce_begins : starts_with combined_nonce session.client_nonce ≡ true
  pub proof_b64 : Bytes
  pub proof_given : lookup (ascii "p") attrs ≡ some proof_b64
  pub client_proof : Bytes
  pub proof_decoded : c.decode proof_b64 ≡ inr client_proof
  pub preimage :
      c.sha256 (
        xor_bytes client_proof (
          c.hmac_sha256_bytes session.creds.stored_key (
            auth_message c session.client_first_bare session.server_first
              (before (ascii ",p=") client_final))))
      ≡ session.creds.stored_key

pub finish-Proves :
    (c : Crypto) (session : ScramSession) (client_final : Bytes) {reply : Bytes}
    → finish c session client_final ≡ inr reply
    → Proves c session client_final
unfolding finish
finish-Proves c session client_final h =
    let (attrs, parsed, h1) = bind_inv (parse_attrs client_final) _ h in
    let (binding, bound, h2) = bind_inv (ok_or (lookup (ascii "c") attrs) _) _ h1 in
    let (u, plain, h3) =
      bind_inv
        (bail_if (not (bytes_eq binding (ascii "biws")) && not (bytes_eq binding (ascii "eSws"))) _)
        _ h2 in
    let (nonce, nonced, h4) = bind_inv (ok_or (lookup (ascii "r") attrs) _) _ h3 in
    let (v, begun, h5) = bind_inv (bail_if (not (starts_with nonce session.client_nonce)) _) _ h4 in
    let (proof_b64, given, h6) = bind_inv (ok_or (lookup (ascii "p") attrs) _) _ h5 in
    let (proof, decoded, h7) = bind_inv (c.decode proof_b64) _ h6 in
    let (w, verified, h8) = bind_inv (bail_if _ _) _ h7 in
    record {
      attrs = attrs;
      parsed = parsed;
      combined_nonce = nonce;
      nonce_given = ok_or_inv _ _ nonced;
      nonce_begins = not_inv _ (bail_if_inv _ _ begun);
      proof_b64 = proof_b64;
      proof_given = ok_or_inv _ _ given;
      client_proof = proof;
      proof_decoded = decoded;
      preimage = bytes_eq_inv _ _ (not_inv _ (bail_if_inv _ _ verified));
    }
