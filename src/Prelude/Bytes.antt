-- ===== src/Prelude/Bytes.antt =====
-- Big-endian bytes, and reading from a cursor.
use Prim.Native.Nat.{ℕ, zero, suc, ◌+◌, ◌*◌, ◌/◌, ◌%◌, ◌^◌, ◌<◌}
use mathlib.Core.Path.{◌≡◌, refl, ◌∙◌}
use mathlib.Core.List.{List, [], ◌∷◌, ◌++◌, append_assoc}
use mathlib.Core.Option.{Option, none, some}
use native.Mathlib.Omega.{arith}
use native.Mathlib.Nat.{pow-suc}
use mathlib.Core.Logic.{inl, inr}
use moodeng_sql.Prelude.Tests.{Option-cases}
use moodeng_sql.Prelude.Lists.{length, length-append}

abbrev pub Bytes : Type 0
Bytes = List ℕ

-- `to_be_bytes` of an integer of `n` bytes.
unfoldable pub to_be_bytes : ℕ → ℕ → Bytes
to_be_bytes zero x = []
to_be_bytes (suc n) x = to_be_bytes n (x / 256) ++ x % 256 ∷ []

unfoldable pub from_be_acc : ℕ → Bytes → ℕ
from_be_acc acc [] = acc
from_be_acc acc (b ∷ bs) = from_be_acc (acc * 256 + b) bs

unfoldable pub from_be_bytes : Bytes → ℕ
unfolding from_be_acc
from_be_bytes = from_be_acc 0

pub length-to_be_bytes : (n x : ℕ) → length (to_be_bytes n x) ≡ n
unfolding to_be_bytes
length-to_be_bytes zero x = refl
length-to_be_bytes (suc n) x =
    omega (
      arith,
      length-append (to_be_bytes n (x / 256)) (x % 256 ∷ []),
      length-to_be_bytes n (x / 256),
    )

from_be_acc-snoc :
    (acc : ℕ) (bs : Bytes) (b : ℕ) → from_be_acc acc (bs ++ b ∷ []) ≡ from_be_acc acc bs * 256 + b
unfolding from_be_acc
from_be_acc-snoc acc [] b = refl
from_be_acc-snoc acc (c ∷ bs) b = from_be_acc-snoc (acc * 256 + c) bs b

-- What fits the width is read back.
pub from_be_bytes-to_be_bytes : (n x : ℕ) → x < 256 ^ n → from_be_bytes (to_be_bytes n x) ≡ x
unfolding from_be_bytes to_be_bytes
from_be_bytes-to_be_bytes zero x h = omega arith
from_be_bytes-to_be_bytes (suc n) x h =
    let p : 256 ^ suc n ≡ 256 ^ n * 256 = pow-suc 256 n in
    from_be_acc-snoc 0 (to_be_bytes n (x / 256)) (x % 256)
    ∙ omega (arith, from_be_bytes-to_be_bytes n (x / 256) (omega arith))

-- `read_exact` of `n` bytes from a cursor: the bytes and what is left, or none at the end.
unfoldable pub read_exact : ℕ → Bytes → Option (Bytes × Bytes)
read_exact zero bs = some ([], bs)
read_exact (suc n) [] = none
read_exact (suc n) (b ∷ bs) = elim (read_exact n bs) [
  | none ↦ none
  | some (got, rest) ↦ some (b ∷ got, rest)
]

pub read_exact-append : (bs rest : Bytes) → read_exact (length bs) (bs ++ rest) ≡ some (bs, rest)
unfolding read_exact
read_exact-append [] rest = refl
read_exact-append (b ∷ bs) rest = rw (read_exact-append bs rest)

-- What was read and what is left make up the input.
pub read_exact_inv :
    (n : ℕ) (bs : Bytes) {got rest : Bytes}
    → read_exact n bs ≡ some (got, rest)
    → (bs ≡ got ++ rest) × (length got ≡ n)
unfolding read_exact
read_exact_inv zero bs h = ground arith
read_exact_inv (suc n) [] h = cc
read_exact_inv (suc n) (b ∷ bs) h = elim (Option-cases (read_exact n bs)) [
  | inl e ↦ ground arith
  | inr (a, e) ↦ ground (arith, read_exact_inv n bs {got = a.0} {rest = a.1} e)
]

-- More input behind what was read stays behind.
pub read_exact-extend :
    (n : ℕ) (bs more : Bytes) {got rest : Bytes}
    → read_exact n bs ≡ some (got, rest)
    → read_exact n (bs ++ more) ≡ some (got, rest ++ more)
read_exact-extend n bs more {got} {rest} h =
    let (whole, len) = read_exact_inv n bs h in
    rw (← len, whole, append_assoc) (read_exact-append got (rest ++ more))
