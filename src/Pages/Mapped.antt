-- ===== src/Pages/Mapped.antt =====
-- A file that is mapped into memory, as moodeng-core/src/page_table.rs uses one: its length, and
-- the byte at each position.
use moodeng_sql.Prelude.{
  ℕ, zero, suc, ◌+◌, ◌*◌, ◌/◌, ◌%◌, ◌^◌, ◌≤◌, ◌<◌, ◌≡◌, refl, ap, ◌∙◌, ◌⊎◌, [], ◌∷◌, ◌&&◌, arith,
  ltb, leb, ◌==◌, if◌then◌else◌,
}
use moodeng_sql.Prelude.Lists.{length}
use moodeng_sql.Prelude.Bytes.{Bytes}

pub record Mmap : Type 0 where
  pub len : ℕ
  pub byte : ℕ → ℕ

-- `map[from..from + n]`
abbrev pub read_at : (ℕ → ℕ) → ℕ → ℕ → Bytes
read_at f from zero = []
read_at f from (suc n) = f from ∷ read_at f (suc from) n

-- `map[from..from + bytes.len()].copy_from_slice(bytes)`
unfoldable pub write_at : (ℕ → ℕ) → ℕ → Bytes → ℕ → ℕ
write_at f from [] i = f i
write_at f from (b ∷ bytes) i =
    let rest = write_at f (suc from) bytes i in if i == from then b else rest

-- `map[from..from + n].fill(0)`
abbrev pub fill_at : (ℕ → ℕ) → ℕ → ℕ → ℕ → ℕ
fill_at f from n i = if leb from i && ltb i (from + n) then 0 else f i

-- `file.set_len(n)` and a new mapping: what is added is zero.
abbrev pub set_len : ℕ → Mmap → Mmap
set_len n m = record { len = n; byte = λ i. if ltb i m.len then m.byte i else 0 }

-- `u32::to_le_bytes` and `u32::from_le_bytes`
abbrev pub to_le_bytes : ℕ → Bytes
to_le_bytes x = x % 256 ∷ (x / 256) % 256 ∷ (x / 65536) % 256 ∷ (x / 16777216) % 256 ∷ []

abbrev pub from_le_bytes : Bytes → ℕ
from_le_bytes [] = 0
from_le_bytes (b ∷ bytes) = b + 256 * from_le_bytes bytes

pub from_le_bytes-to_le_bytes : (x : ℕ) → x < 2 ^ 32 → from_le_bytes (to_le_bytes x) ≡ x
from_le_bytes-to_le_bytes x h = omega arith

pub read_at-ext :
    (f g : ℕ → ℕ) (from n : ℕ)
    → ((i : ℕ) → from ≤ i → i < from + n → f i ≡ g i)
    → read_at f from n ≡ read_at g from n
read_at-ext f g from zero same = refl
read_at-ext f g from (suc n) same =
    let head : f from ≡ g from = same from (omega arith) (omega arith) in
    let rest = read_at-ext f g (suc from) n (λ i le lt. same i (omega arith) (omega arith)) in
    ap (λ b. b ∷ read_at f (suc from) n) head ∙ ap (◌∷◌ (g from)) rest

-- Outside of the bytes that are written nothing changes.
pub write_at-outside :
    (f : ℕ → ℕ) (from : ℕ) (bytes : Bytes) (i : ℕ)
    → (i < from) ⊎ (from + length bytes ≤ i)
    → write_at f from bytes i ≡ f i
unfolding write_at
write_at-outside f from [] i out = refl
write_at-outside f from (b ∷ bytes) i out = ground (arith, write_at-outside f (suc from) bytes i)

-- What is written is read back.
pub read_at-write_at :
    (f : ℕ → ℕ) (from : ℕ) (bytes : Bytes)
    → read_at (write_at f from bytes) from (length bytes) ≡ bytes
unfolding write_at
read_at-write_at f from [] = refl
read_at-write_at f from (b ∷ bytes) =
    let here : write_at f from (b ∷ bytes) from ≡ b = ground arith in
    let later : read_at (write_at f from (b ∷ bytes)) (suc from) (length bytes)
        ≡ read_at (write_at f (suc from) bytes) (suc from) (length bytes) =
      read_at-ext _ _ (suc from) (length bytes) (λ i le lt. ground arith) in
    ap (λ x. x ∷ read_at (write_at f from (b ∷ bytes)) (suc from) (length bytes)) here
    ∙ ap (◌∷◌ b) (later ∙ read_at-write_at f (suc from) bytes)

pub from_le_bytes-zero :
    (f : ℕ → ℕ) (from n : ℕ) → ((i : ℕ) → from ≤ i → f i ≡ 0) → from_le_bytes (read_at f from n) ≡ 0
from_le_bytes-zero f from zero blank = refl
from_le_bytes-zero f from (suc n) blank =
    let head : f from ≡ 0 = blank from (omega arith) in
    let rest = from_le_bytes-zero f (suc from) n (λ i le. blank i (omega arith)) in
    omega (arith, head, rest)
