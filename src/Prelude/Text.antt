-- ===== src/Prelude/Text.antt =====
-- `eq_ignore_ascii_case` on texts.
use Prim.Native.Nat.{ℕ, zero, suc, ◌+◌, ◌/◌, ◌%◌}
use Prim.Native.Char.{code}
use Prim.Native.String.{String, [], ◌∷◌, ◌++◌}
use mathlib.Core.Path.{◌≡◌, refl}
use mathlib.Core.Bool.{Bool, true, false, ◌&&◌}
use native.Mathlib.Omega.{arith}
use moodeng_sql.Prelude.Tests.{ltb, leb, ◌==◌, if◌then◌else◌}

-- The code of the lower-case letter of an upper-case one, and of all else its own.
abbrev pub to_ascii_lowercase : ℕ → ℕ
to_ascii_lowercase n = if leb 65 n && leb n 90 then n + 32 else n

abbrev pub eq_ignore_ascii_case : String → String → Bool
eq_ignore_ascii_case [] [] = true
eq_ignore_ascii_case [] (d ∷ t) = false
eq_ignore_ascii_case (c ∷ s) [] = false
eq_ignore_ascii_case (c ∷ s) (d ∷ t) =
    to_ascii_lowercase (code c) == to_ascii_lowercase (code d) && eq_ignore_ascii_case s t

pub eq_ignore_ascii_case_self : (s : String) → eq_ignore_ascii_case s s ≡ true
eq_ignore_ascii_case_self [] = refl
eq_ignore_ascii_case_self (c ∷ s) = ground (arith, eq_ignore_ascii_case_self s)

abbrev pub digit : ℕ → String
digit d =
    if d == 0
    then "0"
    else if d == 1
    then "1"
    else if d == 2
    then "2"
    else if d == 3
    then "3"
    else if d == 4
    then "4"
    else if d == 5
    then "5"
    else if d == 6
    then "6"
    else if d == 7
    then "7"
    else if d == 8
    then "8"
    else "9"

unfoldable pub decimal_digits : ℕ → ℕ → String
decimal_digits zero n = ""
decimal_digits (suc more) n =
    let before = decimal_digits more (n / 10) in
    if ltb n 10 then digit n else before ++ digit (n % 10)

-- `to_string` of an unsigned number: a `u64` has at most twenty digits.
unfoldable pub to_decimal : ℕ → String
unfolding decimal_digits
to_decimal = decimal_digits 20

decimal_check : to_decimal 65536 ≡ "65536"
unfolding to_decimal
decimal_check = refl
