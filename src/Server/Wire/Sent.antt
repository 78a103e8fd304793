-- ===== src/Server/Wire/Sent.antt =====
-- protocol.rs: what a handler read was sent, and what it wrote does not change what is to be read.
use moodeng_sql.Prelude.{
  ℕ, Bool, true, false, ◌-◌, ◌≡◌, refl, sym, ap, ◌∙◌, Option, none, some, [], ◌∷◌, ◌++◌, inl, inr,
  arith, if◌then◌else◌,
}
use moodeng_sql.Prelude.Lists.{length}
use mathlib.Core.List.{append_assoc}
use moodeng_sql.Prelude.Bytes.{Bytes, read_exact, read_exact_inv}
use moodeng_sql.Server.Wire.{
  Wire, Outcome, Handler, done, failed, panicked, unfinished, and_then, ◌>>=◌, pure, fail, panic,
  or_fail, receive, read_u8, read_i32, read_body, write_all, send_message, send_error, negative,
  message,
}
use moodeng_sql.Server.Scram.{Checked}

-- The end of a stream that is not read yet.
abbrev pub IsTail : Bytes → Bytes → Type 0
IsTail t s = (front : Bytes) × (s ≡ front ++ t)

-- A part of what the client sends.
abbrev pub IsSent : Bytes → Bytes → Type 0
IsSent part s = (front : Bytes) × (back : Bytes) × (s ≡ front ++ (part ++ back))

pub IsTail-self : (s : Bytes) → IsTail s s
IsTail-self s = ([], refl)

pub IsTail-trans : (r s t : Bytes) → IsTail r s → IsTail s t → IsTail r t
IsTail-trans r s t (f, e) (g, d) = (g ++ f, d ∙ (ap (◌++◌ g) e ∙ sym (append_assoc g f r)))

pub IsSent-IsTail : (part s t : Bytes) → IsSent part s → IsTail s t → IsSent part t
IsSent-IsTail part s t (f, b, e) (g, d) =
    (g ++ f, b, d ∙ (ap (◌++◌ g) e ∙ sym (append_assoc g f (part ++ b))))

pub IsSent-within : (part whole s : Bytes) → IsSent part whole → IsSent whole s → IsSent part s
IsSent-within part whole s (f, b, e) (g, a, d) = (
  g ++ f,
  b ++ a,
  rw
      (
        d,
        e,
        append_assoc f (part ++ b) a,
        append_assoc part b a,
        append_assoc g f (part ++ (b ++ a)),
      )
      refl,
)

pub bind_inv :
    {W A B : Type 0} (m : Handler W A) (f : A → Handler W B) (w : W) {b : B} {w' : W}
    → (m >>= f) w ≡ (done b, w')
    → (a : A) × (w1 : W) × (m w ≡ (done a, w1)) × (f a w1 ≡ (done b, w'))
bind_inv {W} {A} m f w {b} {w'} h = bind_inv_at (m w) refl h
  where
    bind_inv_at :
        (r : Outcome A × W)
        → m w ≡ r
        → and_then f r ≡ (done b, w')
        → (a : A) × (w1 : W) × (m w ≡ (done a, w1)) × (f a w1 ≡ (done b, w'))
    bind_inv_at (done a, w1) e k = (a, w1, e, k)
    bind_inv_at (failed, w1) e k = absurd (ground (arith, k))
    bind_inv_at (panicked, w1) e k = absurd (ground (arith, k))
    bind_inv_at (unfinished, w1) e k = absurd (ground (arith, k))

pub receive_inv :
    (n : ℕ) (w : Wire) {got : Bytes} {w' : Wire}
    → receive n w ≡ (done got, w')
    → (w.input ≡ got ++ w'.input) × (length got ≡ n)
unfolding receive
receive_inv n w {got} {w'} h = receive_inv_at (read_exact n w.input) refl h
  where
    receive_inv_at :
        (r : Option (Bytes × Bytes))
        → read_exact n w.input ≡ r
        → (elim r as (λ _. Outcome Bytes × Wire) [
          | none ↦ (failed, record { input = []; output = w.output })
          | some (g, rest) ↦ (done g, record { input = rest; output = w.output })
        ])
          ≡ (done got, w')
        → (w.input ≡ got ++ w'.input) × (length got ≡ n)
    receive_inv_at none e k = absurd (ground (arith, k))
    receive_inv_at (some (g, rest)) e k =
        let (parts, long) = read_exact_inv n w.input e in
        let same : g ≡ got = ground (arith, k) in
        let left : rest ≡ w'.input = ground (arith, k) in
        (parts ∙ λ i. same i ++ left i, rw (sym same) long)

pub pure_inv :
    {W A : Type 0} (a : A) (w : W) {b : A} {w' : W} → pure a w ≡ (done b, w') → (a ≡ b) × (w ≡ w')
pure_inv a w h = (ground (arith, h), ap (λ p. p.1) h)

-- A handler that comes to its end reads from the front of what is sent.
abbrev pub Reads : {A : Type 0} → Handler Wire A → Type 0
Reads {A} m = (w : Wire) (a : A) (w' : Wire) → m w ≡ (done a, w') → IsTail w'.input w.input

pub pure-Reads : {A : Type 0} (a : A) → Reads (pure a)
pure-Reads a w b w' h = ([], ap (λ v. v.input) (pure_inv a w h).1)

pub bind-Reads :
    {A B : Type 0} (m : Handler Wire A) (f : A → Handler Wire B)
    → Reads m
    → ((a : A) → Reads (f a))
    → Reads (m >>= f)
bind-Reads m f reads rest w b w' h =
    let (a, w1, e, k) = bind_inv m f w h in
    IsTail-trans w'.input w1.input w.input (rest a w1 b w' k) (reads w a w1 e)

pub receive-Reads : (n : ℕ) → Reads (receive n)
receive-Reads n w got w' h = (got, (receive_inv n w h).0)

pub write_all-Reads : (bytes : Bytes) → Reads (write_all bytes)
unfolding write_all
write_all-Reads bytes w a w' h = ([], ap (λ p. p.1.input) h)

pub send_message-Reads : (tag : ℕ) (body : Bytes) → Reads (send_message tag body)
unfolding send_message
send_message-Reads tag body = write_all-Reads (message tag body)

pub send_error-Reads : (msg : Bytes) → Reads (send_error msg)
unfolding send_error
send_error-Reads msg = send_message-Reads b'E' (b'M' ∷ (msg ++ 0 ∷ 0 ∷ []))

pub fail-Reads : {A : Type 0} → Reads {A = A} fail
fail-Reads w a w' h = absurd (ground (arith, h))

pub panic-Reads : {A : Type 0} → Reads {A = A} panic
panic-Reads w a w' h = absurd (ground (arith, h))

pub or_fail-Reads : {A : Type 0} (m : Checked A) → Reads (or_fail m)
or_fail-Reads (inl e) = fail-Reads
or_fail-Reads (inr a) = pure-Reads a

pub if-Reads :
    {A : Type 0} (b : Bool) (m n : Handler Wire A) → Reads m → Reads n → Reads (if b then m else n)
if-Reads true m n hm hn = hm
if-Reads false m n hm hn = hn

pub read_u8-Reads : Reads read_u8
unfolding read_u8
read_u8-Reads = bind-Reads (receive 1) _ (receive-Reads 1) (λ got. pure-Reads _)

pub read_i32-Reads : Reads read_i32
unfolding read_i32
read_i32-Reads = bind-Reads (receive 4) _ (receive-Reads 4) (λ got. pure-Reads _)

pub read_body-Reads : Reads read_body
unfolding read_body
read_body-Reads =
    bind-Reads read_i32 _ read_i32-Reads (λ len.
      if-Reads (negative len) panic (receive (len - 4)) panic-Reads (receive-Reads (len - 4)))

-- The body of a message is what was sent.
pub read_body-IsSent :
    (w : Wire) {body : Bytes} {w' : Wire} → read_body w ≡ (done body, w') → IsSent body w.input
unfolding read_body
read_body-IsSent w {body} {w'} h =
    let (len, w1, e, k) = bind_inv read_i32 _ w h in
    let tail : IsTail w1.input w.input = read_i32-Reads w len w1 e in
    IsSent-IsTail body w1.input w.input ([], w'.input, (received (negative len) (len - 4) w1 k).0)
      tail
  where
    received :
        (b : Bool) (n : ℕ) (w1 : Wire)
        → (if b then panic else receive n) w1 ≡ (done body, w')
        → (w1.input ≡ body ++ w'.input) × (length body ≡ n)
    received true n w1 k = absurd (ground (arith, k))
    received false n w1 k = receive_inv n w1 k
