-- ===== src/Prelude/Bits.antt =====
-- Exclusive or, digit by digit: a second time it takes back the first, and it keeps the width.
use Prim.Native.Nat.{
  ℕ, zero, suc, ◌+◌, ◌*◌, ◌/◌, ◌%◌, ◌^◌, ◌≤◌, ◌<◌, bit_xor, digits, differ, bit_xor-bitwise,
}
use mathlib.Core.Path.{◌≡◌, refl, ◌∙◌, ap}
use native.Mathlib.Omega.{arith}
use native.Mathlib.Nat.{pow-suc}

abbrev xor_digits : ℕ → ℕ → ℕ → ℕ
xor_digits n a b = digits (λ b. b) differ n a b

xor_digits_more : (n m a b : ℕ) → a ≤ n → a ≤ m → xor_digits n a b ≡ xor_digits m a b
xor_digits_more zero zero a b p q = refl
xor_digits_more zero (suc m) zero b p q = refl
xor_digits_more zero (suc m) (suc a) b p q = absurd (omega arith)
xor_digits_more (suc n) zero zero b p q = refl
xor_digits_more (suc n) zero (suc a) b p q = absurd (omega arith)
xor_digits_more (suc n) (suc m) zero b p q = refl
xor_digits_more (suc n) (suc m) (suc a) b p q =
    omega (arith, xor_digits_more n m (suc a / 2) (b / 2) (omega arith) (omega arith))

zero-bit_xor : (b : ℕ) → bit_xor 0 b ≡ b
zero-bit_xor b = bit_xor-bitwise 0 b

-- The lowest digit, and the others.
bit_xor_step : (a b : ℕ) → bit_xor a b ≡ bit_xor (a / 2) (b / 2) * 2 + differ (a % 2) (b % 2)
bit_xor_step zero b = omega (arith, zero-bit_xor b, zero-bit_xor (b / 2))
bit_xor_step (suc a) b = omega (
  arith,
  bit_xor-bitwise (suc a) b,
  bit_xor-bitwise (suc a / 2) (b / 2),
  xor_digits_more a (suc a / 2) (suc a / 2) (b / 2) (omega arith) (omega arith),
)

differ_lt : (x y : ℕ) → x < 2 → y < 2 → differ x y < 2
differ_lt zero y p q = q
differ_lt (suc zero) zero p q = omega arith
differ_lt (suc zero) (suc zero) p q = omega arith
differ_lt (suc zero) (suc (suc y)) p q = absurd (omega arith)
differ_lt (suc (suc x)) y p q = absurd (omega arith)

differ_twice : (x y : ℕ) → x < 2 → y < 2 → differ (differ x y) y ≡ x
differ_twice zero zero p q = refl
differ_twice zero (suc zero) p q = refl
differ_twice zero (suc (suc y)) p q = absurd (omega arith)
differ_twice (suc zero) zero p q = refl
differ_twice (suc zero) (suc zero) p q = refl
differ_twice (suc zero) (suc (suc y)) p q = absurd (omega arith)
differ_twice (suc (suc x)) y p q = absurd (omega arith)

bit_xor_twice_to : (n a b : ℕ) → a ≤ n → b ≤ n → bit_xor (bit_xor a b) b ≡ a
bit_xor_twice_to zero a b p q =
    let none_left : a ≡ 0 = omega arith in
    let none_right : b ≡ 0 = omega arith in rw (none_left, none_right) refl
bit_xor_twice_to (suc n) a b p q =
    let low : ℕ = differ (a % 2) (b % 2) in
    let high : ℕ = bit_xor (a / 2) (b / 2) in
    let lt : low < 2 = differ_lt (a % 2) (b % 2) (omega arith) (omega arith) in
    let whole : bit_xor a b ≡ high * 2 + low = bit_xor_step a b in
    let halves : bit_xor a b / 2 ≡ high = omega (arith, whole, lt) in
    let rest : bit_xor a b % 2 ≡ low = omega (arith, whole, lt) in
    bit_xor_step (bit_xor a b) b
    ∙ (ap (λ x. bit_xor x (b / 2) * 2 + differ (bit_xor a b % 2) (b % 2)) halves
        ∙ (ap (λ x. bit_xor high (b / 2) * 2 + differ x (b % 2)) rest
            ∙ omega (
              arith,
              bit_xor_twice_to n (a / 2) (b / 2) (omega arith) (omega arith),
              differ_twice (a % 2) (b % 2) (omega arith) (omega arith),
            )))

pub bit_xor_twice : (a b : ℕ) → bit_xor (bit_xor a b) b ≡ a
bit_xor_twice a b = bit_xor_twice_to (a + b) a b (omega arith) (omega arith)

pub bit_xor-lt : (k a b : ℕ) → a < 2 ^ k → b < 2 ^ k → bit_xor a b < 2 ^ k
bit_xor-lt zero a b p q =
    let none_left : a ≡ 0 = omega arith in
    let none_right : b ≡ 0 = omega arith in rw (none_left, none_right) (omega arith)
bit_xor-lt (suc k) a b p q =
    let double : 2 ^ suc k ≡ 2 ^ k * 2 = pow-suc 2 k in
    omega (
      arith,
      double,
      bit_xor_step a b,
      differ_lt (a % 2) (b % 2) (omega arith) (omega arith),
      bit_xor-lt k (a / 2) (b / 2) (omega (arith, double)) (omega (arith, double)),
    )
