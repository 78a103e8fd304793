-- ===== src/Server/Substitute.antt =====
-- moodeng-core/src/query_util.rs: `substitute_params`, and `str::replace`; and `summarize_sql` of
-- moodeng-server/src/protocol.rs.
pub mod Spliced
use moodeng_sql.Prelude.{
  ℕ, zero, suc, Bool, true, false, ◌+◌, ◌-◌, Option, none, some, List, [], ◌∷◌, ◌++◌, ltb, leb,
  ◌==◌, ◌&&◌, ◌||◌, if◌then◌else◌,
}
use moodeng_sql.Prelude.Lists.{length}
use moodeng_sql.Prelude.Bytes.{Bytes}
use moodeng_sql.Prelude.Text.{to_ascii_lowercase}
use moodeng_sql.Server.Text.{ascii, decimal, starts_with}

-- The occurrences from the left on, which do not overlap; `skip` bytes of one are left.
unfoldable pub replace_from : ℕ → (pattern replacement s : Bytes) → Bytes
replace_from skip pattern replacement [] = []
replace_from skip pattern replacement (b ∷ s) =
    let here = skip == 0 && starts_with (b ∷ s) pattern in
    let rest = replace_from (if here then length pattern - 1 else skip - 1) pattern replacement s in
    if here then replacement ++ rest else if skip == 0 then b ∷ rest else rest

unfoldable pub replace : (pattern replacement s : Bytes) → Bytes
unfolding replace_from
replace pattern replacement s = replace_from 0 pattern replacement s

abbrev pub eq_ignore_ascii_case : Bytes → Bytes → Bool
eq_ignore_ascii_case [] [] = true
eq_ignore_ascii_case [] (d ∷ t) = false
eq_ignore_ascii_case (c ∷ s) [] = false
eq_ignore_ascii_case (c ∷ s) (d ∷ t) =
    (to_ascii_lowercase c == to_ascii_lowercase d) && eq_ignore_ascii_case s t

abbrev pub begins_with_digit : Bytes → Bool
begins_with_digit [] = false
begins_with_digit (c ∷ s) = leb 48 c && leb c 57

-- The text that is put in place of a parameter.
unfoldable pub replacement_of : Option Bytes → Bytes
replacement_of none = ascii "NULL"
replacement_of (some v) =
    if eq_ignore_ascii_case v (ascii "null")
    then ascii "NULL"
    else if begins_with_digit v
    then v
    else b'\'' ∷ (v ++ b'\'' ∷ [])

-- `enumerate().rev()`: the last parameter first; `i` parameters come before these.
unfoldable pub substitute_from : ℕ → List (Option Bytes) → Bytes → Bytes
unfolding replacement_of
substitute_from i [] sql = sql
substitute_from i (param ∷ params) sql =
    replace (b'$' ∷ decimal (i + 1)) (replacement_of param) (substitute_from (i + 1) params sql)

unfoldable pub substitute_params : (sql : Bytes) → List (Option Bytes) → Bytes
unfolding substitute_from
substitute_params sql params = substitute_from 0 params sql

-- The length of a white space character of Unicode in front of a text, 0 if there is none.
unfoldable pub white_space : Bytes → ℕ
white_space [] = 0
white_space (a ∷ []) = if (leb 9 a && leb a 13) || (a == 32) then 1 else 0
white_space (a ∷ b ∷ []) =
    if (leb 9 a && leb a 13) || (a == 32)
    then 1
    else if (a == 194) && ((b == 133) || (b == 160))
    then 2
    else 0
white_space (a ∷ b ∷ c ∷ s) =
    if (leb 9 a && leb a 13) || (a == 32)
    then 1
    else if (a == 194) && ((b == 133) || (b == 160))
    then 2
    else if ((a == 225) && ((b == 154) && (c == 128)))
        || ((a == 226)
            && ((b == 128)
                && ((leb 128 c && leb c 138) || ((c == 168) || ((c == 169) || (c == 175))))))
        || ((a == 226) && ((b == 129) && (c == 159)))
        || ((a == 227) && ((b == 128) && (c == 128)))
    then 3
    else 0

-- `split_whitespace().collect().join(" ")`: whether a word came before, whether white space came
-- after it, and the bytes that are left of a white space character.
unfoldable pub join_words : Bool → Bool → ℕ → Bytes → Bytes
unfolding white_space
join_words started gap skip [] = []
join_words started gap skip (b ∷ s) =
    let width = if skip == 0 then white_space (b ∷ s) else skip in
    let blank = ltb 0 width in
    let rest = join_words (if blank then started else true) blank (width - 1) s in
    if blank then rest else if started && gap then 32 ∷ b ∷ rest else b ∷ rest

-- Whether a text has a character that begins before the byte of an index and goes on at it.
unfoldable pub splits_character : ℕ → Bytes → Bool
splits_character n [] = false
splits_character zero (b ∷ s) = leb 128 b && leb b 191
splits_character (suc n) (b ∷ s) = splits_character n s

-- `summarize_sql` slices a text of more than 200 bytes at that index, which panics inside of a
-- character.
unfoldable pub summarize_sql_panics : Bytes → Bool
unfolding join_words splits_character
summarize_sql_panics sql =
    let one_line = join_words false false 0 sql in
    ltb 200 (length one_line) && splits_character 200 one_line
