-- ===== src/Server/Substitute/Spliced.antt =====
-- query_util.rs, `substitute_params`: what becomes of a parameter.
use moodeng_sql.Prelude.{ℕ, true, false, ◌≤◌, ◌≡◌, refl, ap, ◌∙◌, some, [], ◌∷◌, ◌++◌, ◌==◌, arith}
use moodeng_sql.Prelude.Bytes.{Bytes}
use moodeng_sql.Prelude.Text.{to_ascii_lowercase}
use moodeng_sql.Server.Text.{ascii, Lacks, decimal, decimal_of, strip_prefix}
use moodeng_sql.Server.Substitute.{
  replace, replace_from, replacement_of, substitute_from, substitute_params, begins_with_digit,
}

-- Without its first byte, a pattern does not occur.
replace_from_absent :
    (c : ℕ) (p replacement s : Bytes) → Lacks c s → replace_from 0 (c ∷ p) replacement s ≡ s
unfolding replace_from strip_prefix
replace_from_absent c p replacement [] h = refl
replace_from_absent c p replacement (b ∷ s) h =
    ground (arith, h.0, replace_from_absent c p replacement s h.1)

replace_from_before :
    (c : ℕ) (p replacement front s : Bytes)
    → Lacks c front
    → replace_from 0 (c ∷ p) replacement (front ++ s)
      ≡ front ++ replace_from 0 (c ∷ p) replacement s
unfolding replace_from strip_prefix
replace_from_before c p replacement [] s h = refl
replace_from_before c p replacement (b ∷ front) s h =
    ground (arith, h.0, replace_from_before c p replacement front s h.1)

-- The place of the first parameter, in a text with no other dollar sign.
replace_first :
    (replacement front back : Bytes)
    → Lacks b'$' front
    → Lacks b'$' back
    → replace (ascii "$1") replacement (front ++ (ascii "$1" ++ back))
      ≡ front ++ (replacement ++ back)
unfolding replace replace_from strip_prefix
replace_first replacement front back lf lb =
    replace_from_before b'$' (ascii "1") replacement front (ascii "$1" ++ back) lf
    ∙ ap (λ s. front ++ (replacement ++ s))
        (replace_from_absent b'$' (ascii "1") replacement back lb)

digit_replacement : (v : Bytes) → begins_with_digit v ≡ true → replacement_of (some v) ≡ v
unfolding replacement_of
digit_replacement [] h = absurd (ground (arith, h))
digit_replacement (c ∷ v) h =
    let low : 48 ≤ c = ground (arith, h) in
    let high : c ≤ 57 = ground (arith, h) in
    let other : (to_ascii_lowercase c == b'n') ≡ false = ground (arith, low, high) in
    rw (other, h) refl

-- A statement with one parameter, one `$1` and no other dollar sign: a parameter that begins with
-- a digit becomes a part of the statement as it is, whatever follows the digit; neither is it
-- put in quotes nor is any of it escaped.
pub substitute_params_raw :
    (front back v : Bytes)
    → Lacks b'$' front
    → Lacks b'$' back
    → begins_with_digit v ≡ true
    → substitute_params (front ++ (ascii "$1" ++ back)) (some v ∷ []) ≡ front ++ (v ++ back)
unfolding substitute_params substitute_from decimal decimal_of
substitute_params_raw front back v lf lb h =
    rw (digit_replacement v h) (replace_first v front back lf lb)
