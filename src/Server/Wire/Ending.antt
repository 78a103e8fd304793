-- ===== src/Server/Wire/Ending.antt =====
-- protocol.rs: what the handlers of a connection do apart from its loop does not run out of fuel.
use moodeng_sql.Prelude.{
  ℕ, Bool, true, false, ◌-◌, ◌≢◌, refl, [], ◌∷◌, ◌++◌, inl, inr, arith, if◌then◌else◌, Option-cases,
}
use moodeng_sql.Prelude.Bytes.{Bytes, read_exact}
use moodeng_sql.Server.Scram.{Checked}
use moodeng_sql.Server.Wire.{
  Outcome, Handler, done, failed, panicked, unfinished, and_then, ◌>>=◌, pure, fail, panic, or_fail,
  receive, read_u8, read_i32, read_body, negative, write_all, send_message, send_error, message,
}

-- What does not run out of fuel.
abbrev pub Ends : {W A : Type 0} → Handler W A → Type 0
Ends {W} m = (w : W) → (m w).0 ≢ unfinished

pub pure-Ends : {W A : Type 0} (a : A) → Ends {W = W} (pure a)
pure-Ends a w h = ground (arith, h)

pub bind-Ends :
    {W A B : Type 0} (m : Handler W A) (f : A → Handler W B)
    → Ends m
    → ((a : A) → Ends (f a))
    → Ends (m >>= f)
bind-Ends {W} m f hm hf w = ends (m w) (hm w)
  where
    ends : (r : Outcome _ × W) → r.0 ≢ unfinished → (and_then f r).0 ≢ unfinished
    ends (done a, w1) h = hf a w1
    ends (failed, w1) h = λ e. h (ground (arith, e))
    ends (panicked, w1) h = λ e. h (ground (arith, e))
    ends (unfinished, w1) h = λ e. h refl

pub receive-Ends : (n : ℕ) → Ends (receive n)
unfolding receive
receive-Ends n w = elim (Option-cases (read_exact n w.input)) [
  | inl e ↦ λ h. ground (arith, e, h)
  | inr (got, e) ↦ λ h. ground (arith, e, h)
]

pub read_u8-Ends : Ends read_u8
unfolding read_u8
read_u8-Ends = bind-Ends (receive 1) _ (receive-Ends 1) (λ a. pure-Ends _)

pub fail-Ends : {W A : Type 0} → Ends {W = W} {A = A} fail
fail-Ends w h = ground (arith, h)

pub panic-Ends : {W A : Type 0} → Ends {W = W} {A = A} panic
panic-Ends w h = ground (arith, h)

pub or_fail-Ends : {W A : Type 0} (m : Checked A) → Ends {W = W} (or_fail m)
or_fail-Ends (inl e) = fail-Ends
or_fail-Ends (inr a) = pure-Ends a

pub if-Ends :
    {W A : Type 0} (b : Bool) (m n : Handler W A) → Ends m → Ends n → Ends (if b then m else n)
if-Ends true m n hm hn = hm
if-Ends false m n hm hn = hn

pub write_all-Ends : (bytes : Bytes) → Ends (write_all bytes)
unfolding write_all
write_all-Ends bytes w h = ground (arith, h)

pub send_message-Ends : (tag : ℕ) (body : Bytes) → Ends (send_message tag body)
unfolding send_message
send_message-Ends tag body = write_all-Ends (message tag body)

pub send_error-Ends : (msg : Bytes) → Ends (send_error msg)
unfolding send_error
send_error-Ends msg = send_message-Ends b'E' (b'M' ∷ (msg ++ 0 ∷ 0 ∷ []))

pub read_i32-Ends : Ends read_i32
unfolding read_i32
read_i32-Ends = bind-Ends (receive 4) _ (receive-Ends 4) (λ a. pure-Ends _)

pub read_body-Ends : Ends read_body
unfolding read_body
read_body-Ends =
    bind-Ends read_i32 _ read_i32-Ends
      (λ len. if-Ends (negative len) panic (receive (len - 4)) panic-Ends (receive-Ends (len - 4)))
