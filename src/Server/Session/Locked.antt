-- ===== src/Server/Session/Locked.antt =====
-- protocol.rs: a client that has not shown its password does not reach the database.
use moodeng_sql.Prelude.{
  Bool, true, false, ◌≡◌, refl, ◌⊎◌, inl, inr, arith, not, ◌&&◌, if◌then◌else◌, ltb,
}
use mathlib.Core.Path.{subst}
use moodeng_sql.Prelude.Lists.{length}
use moodeng_sql.Prelude.Bytes.{Bytes}
use moodeng_sql.Server.Text.{ascii}
use moodeng_sql.Server.Scram.{Crypto}
use moodeng_sql.Server.Wire.{
  Host, Wire, Outcome, Handler, done, failed, panicked, unfinished, and_then, pure, panic,
  read_body,
}
use moodeng_sql.Server.Wire.Sent.{
  IsTail, IsSent-IsTail, Reads, bind-Reads, if-Reads, panic-Reads, pure-Reads, read_body-Reads,
}
use moodeng_sql.Server.Auth.{AuthConfig, required, scram_available, authenticate}
use moodeng_sql.Server.Auth.Shown.{Shown, authenticate-Shown, by_proof, by_password, refused}
use moodeng_sql.Server.Session.{Engine, World, lift, serve_client, read_version, admit, run_session}

Shown-IsTail :
    {c : Crypto} {h : Host} {nonce : Bytes} {auth : AuthConfig} (t s : Bytes)
    → IsTail t s
    → Shown c h nonce auth t
    → Shown c h nonce auth s
Shown-IsTail t s tail (by_proof creds session cf sf fb lb final e fsent d st lsent l p) =
    by_proof creds session cf sf fb lb final e (IsSent-IsTail fb t s fsent tail) d st
      (IsSent-IsTail lb t s lsent tail) l p
Shown-IsTail t s tail (by_password hash buf n e sent v) =
    by_password hash buf n e (IsSent-IsTail buf t s sent tail) v

-- Of a part that leaves the database alone, only what follows it can change the database.
and_then_db :
    {D S A B P : Type 0} (f : A → Handler (World D S) B) (x : Outcome A × World D S) (db : D)
    → x.1.db ≡ db
    → ((a : A) → x.0 ≡ done a → ((f a x.1).1.db ≡ db) ⊎ P)
    → ((and_then f x).1.db ≡ db) ⊎ P
and_then_db f (done a, w) db same next = next a refl
and_then_db f (failed, w) db same next = inl same
and_then_db f (panicked, w) db same next = inl same
and_then_db f (unfinished, w) db same next = inl same

-- That a password is read only on a connection that may carry it.
abbrev pub IsPermitted : AuthConfig → Bool → Type 0
IsPermitted auth encrypted =
    (not encrypted && (auth.require_tls_for_password && not (scram_available auth))) ≡ false

and_inv : (a b : Bool) → a ≡ true → (a && b) ≡ false → b ≡ false
and_inv true b h k = k
and_inv false b h k = absurd (ground (arith, h))

read_version-Reads : Reads read_version
unfolding read_version
read_version-Reads =
    bind-Reads read_body _ read_body-Reads
      (λ buf. if-Reads (ltb (length buf) 4) panic (pure tt) panic-Reads (pure-Reads tt))

module _ (c : Crypto) (h : Host) (nonce : Bytes) (auth : AuthConfig) where
  admit_inv :
      (encrypted : Bool) (w : Wire) {w' : Wire}
      → required auth ≡ true
      → admit c h nonce auth encrypted w ≡ (done true, w')
      → IsPermitted auth encrypted × Shown c h nonce auth w.input
  unfolding admit
  admit_inv encrypted w {w'} asked k =
      let (permitted, k1) =
        refused
          (required auth
            && (not encrypted && (auth.require_tls_for_password && not (scram_available auth))))
          (ascii "password authentication requires TLS")
          (if required auth then authenticate c h nonce auth else pure true) w k in
      (
        and_inv (required auth) _ asked permitted,
        authenticate-Shown c h nonce auth w asked (
            subst (λ b. (if b then authenticate c h nonce auth else pure true) w ≡ (done true, w'))
              asked k1),
      )

  -- Where a password is asked for, the database is as it was, whatever a client sends, unless the
  -- client has shown that it knows the password: in its bytes stands a proof for the stored key,
  -- or a password that the stored hash accepts, and the latter not on a connection that is not
  -- encrypted if passwords require TLS.
  pub run_session-Shown :
      {D S : Type 0} (e : Engine D S) (encrypted : Bool) (w : World D S)
      → required auth ≡ true
      → ((run_session e h c nonce auth encrypted w).1.db ≡ w.db)
        ⊎ (IsPermitted auth encrypted × Shown c h nonce auth w.wire.input)
  unfolding run_session
  run_session-Shown {D} {S} e encrypted w asked =
      and_then_db _ (lift read_version w) w.db refl (λ _ read.
        and_then_db _ (lift (admit c h nonce auth encrypted) started) w.db refl (λ b admitted.
          let_in (read_version-Reads w.wire _ started.wire (λ i. (read i, started.wire))) b
            admitted))
    where
      started : World D S
      started = (lift read_version w).1

      let_in :
          IsTail started.wire.input w.wire.input
          → (b : Bool) → (admit c h nonce auth encrypted started.wire).0 ≡ done b
          → ((if b then serve_client e h else pure tt)
                (lift (admit c h nonce auth encrypted) started).1).1.db
              ≡ w.db
            ⊎ (IsPermitted auth encrypted × Shown c h nonce auth w.wire.input)
      let_in tail true admitted =
          let (permitted, shown) =
            admit_inv encrypted started.wire asked
              (λ i. (admitted i, (admit c h nonce auth encrypted started.wire).1)) in
          inr (permitted, Shown-IsTail started.wire.input w.wire.input tail shown)
      let_in tail false admitted = inl refl
