-- ===== src/Server/Auth/Encrypted.antt =====
-- moodeng-server/src: `load_server_config` of tls.rs and `negotiate_stream` of protocol.rs
-- together, and the refusal of passwords that are not encrypted.
use mathlib.Core.Path.{subst}
use moodeng_sql.Prelude.{
  ◌≢◌, ◌⊎◌, Bool, true, false, ◌≡◌, refl, Option, none, some, ◌==◌, inl, inr, arith, if◌then◌else◌,
  Option-cases,
}
use moodeng_sql.Prelude.Bytes.{Bytes}
use moodeng_sql.Server.Text.{ascii}
use moodeng_sql.Server.Scram.{Checked}
use moodeng_sql.Server.Wire.{
  Host, Wire, Outcome, Handler, done, fail, read_i32, write_all, send_error,
}
use moodeng_sql.Server.Wire.Sent.{bind_inv}
use moodeng_sql.Server.Auth.{
  TlsSettings, load_from, load_server_config, accept_tls, negotiate_stream, ssl_request_code,
}

-- With TLS required, a server starts only with an acceptor.
load_from-none :
    {Config : Type 0} (load : (cert_path key_path : Bytes) → Checked Config)
    (cert key : Option Bytes)
    → load_from load true cert key ≢ inr none
unfolding load_from
load_from-none load none key e = ground (arith, e)
load_from-none load (some cert) none e = ground (arith, e)
load_from-none load (some cert) (some key) e = ground (arith, e)

load_server_config-none :
    {Config : Type 0} (load : (cert_path key_path : Bytes) → Checked Config) (tls : TlsSettings)
    → tls.require_tls ≡ true
    → load_server_config load tls ≢ inr none
unfolding load_server_config
load_server_config-none load tls asked e =
    load_from-none load tls.cert_path tls.key_path
      (subst (λ b. load_from load b tls.cert_path tls.key_path ≡ inr none) asked e)

if_cases :
    {A : Type 0} (b : Bool) (m n : Handler Wire A) (w : Wire) {r : Outcome A × Wire}
    → (if b then m else n) w ≡ r
    → ((b ≡ true) × (m w ≡ r)) ⊎ ((b ≡ false) × (n w ≡ r))
if_cases true m n w h = inl (refl, h)
if_cases false m n w h = inr (refl, h)

fail_inv : {A B : Type 0} (w : Wire) {a : A} {w' : Wire} → fail w ≡ (done a, w') → B
fail_inv w h = absurd (ground (arith, h))

accept_tls_inv :
    (h : Host) (w : Wire) {b : Bool} {w' : Wire} → accept_tls h w ≡ (done b, w') → b ≡ true
unfolding accept_tls
accept_tls_inv h w k = elim (Option-cases (h.accept w.input)) [
  | inl e ↦ absurd (ground (arith, e, k))
  | inr (plain, e) ↦ ground (arith, e, k)
]

-- A server that could start while it requires TLS takes no connection further that is not
-- encrypted: whatever the client sends, the negotiation fails, or ends with TLS.
pub negotiate_stream-true :
    (h : Host) {Config : Type 0} (load : (cert_path key_path : Bytes) → Checked Config)
    (tls : TlsSettings) (acceptor : Option Config) (w : Wire) {encrypted : Bool} {w' : Wire}
    → tls.require_tls ≡ true
    → load_server_config load tls ≡ inr acceptor
    → negotiate_stream h tls acceptor w ≡ (done encrypted, w')
    → encrypted ≡ true
unfolding negotiate_stream
negotiate_stream-true h load tls none w asked loaded k =
    absurd (load_server_config-none load tls asked loaded)
negotiate_stream-true h load tls (some config) w {encrypted} {w'} asked loaded k =
    let (len, w1, e1, k1) = bind_inv read_i32 _ w k in
    elim (if_cases (len == 8) _ _ w1 k1) [
      | inl (short, k2) ↦
          let (code, w2, e2, k3) = bind_inv read_i32 _ w1 k2 in
          elim (if_cases (code == ssl_request_code) _ _ w2 k3) [
            | inl (ssl, k4) ↦
                let (_, w3, e3, k5) = bind_inv (write_all (ascii "S")) (λ _. accept_tls h) w2 k4 in
                accept_tls_inv h w3 k5
            | inr (other, k4) ↦ fail_inv w2 k4
          ]
      | inr (long, k2) ↦ elim (if_cases tls.require_tls _ _ w1 k2) [
        | inl (required, k3) ↦
            let (_, w2, e2, k4) = bind_inv (send_error (ascii "SSL required")) (λ _. fail) w1 k3 in
            fail_inv w2 k4
        | inr (free, k3) ↦ absurd (ground (arith, asked, free))
      ]
    ]
