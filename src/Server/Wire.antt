-- ===== src/Server/Wire.antt =====
-- moodeng-server/src/protocol.rs: what the handlers of a connection share. A stream is the bytes
-- that its client still sends and those that the server sent: `read_exact`, the lengths in front of
-- a message, `send_message`, `send_error`, `read_cstring` and `read_cstring_buf`.
pub mod Sent
pub mod Ending
use moodeng_sql.Prelude.{
  ℕ, zero, suc, Bool, true, false, ◌+◌, ◌-◌, ◌%◌, ◌^◌, Option, none, some, [], ◌∷◌, ◌++◌, leb, inl,
  inr, if◌then◌else◌,
}
use moodeng_sql.Prelude.Lists.{length}
use moodeng_sql.Prelude.Bytes.{Bytes, to_be_bytes, from_be_bytes, read_exact}
use moodeng_sql.Server.Text.{ascii, split_once}
use moodeng_sql.Server.Scram.{Checked}

-- UTF-8 in the standard library, the crate argon2, and the TLS handshake: the bytes that a client
-- sends inside the encrypted stream, or none where the handshake fails.
pub record Host : Type 0 where
  pub from_utf8 : Bytes → Checked Bytes
  pub from_utf8_lossy : Bytes → Bytes
  pub hash_password : Bytes → Bytes
  pub verify_password : (password hash : Bytes) → Bool
  pub accept : Bytes → Option Bytes

pub record Wire : Type 0 where
  pub input : Bytes
  pub output : Bytes

-- What a handler returns: a value, an error, or a panic, which ends the task of the connection.
-- `unfinished` is only the end of a loop's fuel.
pub data Outcome (A : Type 0) : Type 0 where
  done : A → Outcome A
  failed : Outcome A
  panicked : Outcome A
  unfinished : Outcome A

abbrev pub Handler : Type 0 → Type 0 → Type 0
Handler W A = W → Outcome A × W

abbrev pub and_then : {W A B : Type 0} → (A → Handler W B) → Outcome A × W → Outcome B × W
and_then f (done a, w) = f a w
and_then f (failed, w) = (failed, w)
and_then f (panicked, w) = (panicked, w)
and_then f (unfinished, w) = (unfinished, w)

infixl 5 ◌>>=◌
abbrev pub ◌>>=◌ : {W A B : Type 0} → Handler W A → (A → Handler W B) → Handler W B
◌>>=◌ m f w = and_then f (m w)

abbrev pub pure : {W A : Type 0} → A → Handler W A
pure a w = (done a, w)

abbrev pub fail : {W A : Type 0} → Handler W A
fail w = (failed, w)

abbrev pub panic : {W A : Type 0} → Handler W A
panic w = (panicked, w)

-- An error of `anyhow` ends the connection.
abbrev pub or_fail : {W A : Type 0} → Checked A → Handler W A
or_fail (inl e) = fail
or_fail (inr a) = pure a

-- `read_exact`: an error where the client has closed its side before.
unfoldable pub receive : ℕ → Handler Wire Bytes
receive n w = elim (read_exact n w.input) [
  | none ↦ (failed, record { input = []; output = w.output })
  | some (got, rest) ↦ (done got, record { input = rest; output = w.output })
]

-- `read_u8` and `read_i32`, the latter as its 32 bits.
unfoldable pub read_u8 : Handler Wire ℕ
unfolding receive
read_u8 = do got ← receive 1; pure (from_be_bytes got)

unfoldable pub read_i32 : Handler Wire ℕ
unfolding receive
read_i32 = do got ← receive 4; pure (from_be_bytes got)

-- Whether the bits of an `i32` are those of a negative number.
abbrev pub negative : ℕ → Bool
negative n = leb (2 ^ 31) n

-- `read_i32().await? as usize` and `vec![0u8; len.saturating_sub(4)]`: a negative length becomes
-- one of more than `isize::MAX` bytes, for which the allocation panics.
unfoldable pub read_body : Handler Wire Bytes
unfolding receive read_i32
read_body = do len ← read_i32; (if negative len then panic else receive (len - 4))

unfoldable pub write_all : Bytes → Handler Wire Unit
write_all bytes w = (done tt, record { input = w.input; output = w.output ++ bytes })

abbrev pub message : ℕ → Bytes → Bytes
message tag body = tag ∷ (to_be_bytes 4 ((length body + 4) % 2 ^ 32) ++ body)

unfoldable pub send_message : ℕ → Bytes → Handler Wire Unit
unfolding write_all
send_message tag body = write_all (message tag body)

unfoldable pub send_error : Bytes → Handler Wire Unit
unfolding send_message
send_error msg = send_message b'E' (b'M' ∷ (msg ++ 0 ∷ 0 ∷ []))

module _ (h : Host) where
  -- The text up to the next zero and what is behind it, or no text and the cursor where it was.
  unfoldable pub read_cstring_buf : Bytes → Bytes × Bytes
  read_cstring_buf cur = elim (split_once 0 cur) [
    | some (s, rest) ↦ (h.from_utf8_lossy s, rest)
    | none ↦ ([], cur)
  ]

  unfoldable pub read_cstring : Bytes → Bytes
  unfolding read_cstring_buf
  read_cstring payload = (read_cstring_buf payload).0
