-- ===== src/Planner/Found.antt =====
-- Names of columns without regard to case, and the index that moodeng-core/src/index.rs finds for
-- one.
use Prim.Native.String.{◌∷◌ as cons_text, [] as empty_text}
use moodeng_sql.Prelude.{
  String, Bool, true, false, ◌&&◌, ◌||◌, ◌==◌, ◌≡◌, refl, ap, ◌∙◌, ◌⊎◌, inl, inr, none, some, List,
  [], ◌∷◌, arith, Bool-cases, Option-cases, string_key, dec_eq,
}
use moodeng_sql.Prelude.Map
use moodeng_sql.Prelude.Map.{Distinct}
use moodeng_sql.Prelude.Lists.{position, length}
use moodeng_sql.Prelude.Text.{eq_ignore_ascii_case}
use moodeng_sql.Error.{ok}
use moodeng_sql.Types.Value.{Value}
use moodeng_sql.Index
use moodeng_sql.Index.{
  BTreeIndex, IndexManager, TableIndexes, find_single, find_index_for_column, get_index,
}
use moodeng_sql.Parser.Eval.{has_dot, bare, column_value}

-- Names that agree up to case agree with the same names.
pub eq_ignore_ascii_case-cong :
    (a b c : String)
    → eq_ignore_ascii_case a b ≡ true
    → eq_ignore_ascii_case c a ≡ eq_ignore_ascii_case c b
eq_ignore_ascii_case-cong empty_text empty_text c e = refl
eq_ignore_ascii_case-cong empty_text (cons_text d t) c e = absurd (ground (arith, e))
eq_ignore_ascii_case-cong (cons_text x s) empty_text c e = absurd (ground (arith, e))
eq_ignore_ascii_case-cong (cons_text x s) (cons_text d t) empty_text e = refl
eq_ignore_ascii_case-cong (cons_text x s) (cons_text d t) (cons_text y u) e =
    ground (arith, e, eq_ignore_ascii_case-cong s t u)

pub bare_lem : (s : String) → has_dot s ≡ false → bare s ≡ s
bare_lem empty_text e = refl
bare_lem (cons_text c s) e = ground (arith, e)

pub position-ext :
    {A : Type 0} (p q : A → Bool) (xs : List A)
    → ((x : A) → p x ≡ q x)
    → position p xs ≡ position q xs
position-ext p q [] same = refl
position-ext p q (x ∷ xs) same = rw (same x, position-ext p q xs same) refl

module _ {J : Type 0} (json_to_string : J → String) where
  -- A column that an expression names, and the same column of an index.
  pub column_value-column_value :
      (col column : String) (row : List (Value J)) (columns : List String) (v : Value J)
      → has_dot col ≡ false
      → eq_ignore_ascii_case column col ≡ true
      → column_value col row columns ≡ ok v
      → Index.column_value json_to_string row columns column ≡ v
  column_value-column_value col column row columns v plain same e =
      let at : position (λ c. eq_ignore_ascii_case c col || eq_ignore_ascii_case c (bare col))
            columns
          ≡ position (λ c. eq_ignore_ascii_case c column) columns =
        position-ext _ _ columns
          (λ c. ground (arith, bare_lem col plain, eq_ignore_ascii_case-cong column col c same)) in
      elim (Option-cases (position (λ c. eq_ignore_ascii_case c column) columns)) [
        | inl f ↦ absurd (ground (arith, at, e, f))
        | inr (i, f) ↦ ground (arith, at, e, f)
      ]

-- The index that is found is one of the table's, on the column alone.
pub record IsFor (column : String) (index : BTreeIndex) : Type 0 where
  pub own : String
  pub columns : index.columns ≡ own ∷ []
  pub same : eq_ignore_ascii_case own column ≡ true

List-cases : {A : Type 0} (xs : List A) → (xs ≡ []) ⊎ ((x : A) × (ys : List A) × (xs ≡ x ∷ ys))
List-cases [] = inl refl
List-cases (x ∷ ys) = inr (x, ys, refl)

none_more : {A : Type 0} (xs : List A) → (length xs == 0) ≡ true → xs ≡ []
none_more [] e = refl
none_more (x ∷ xs) e = absurd (ground (arith, e))

abbrev Finds : String → String → TableIndexes → Type 0
Finds column name of_table =
    (index : BTreeIndex) × (Map.lookup name of_table ≡ some index) × IsFor column index

-- An entry behind a key's own is the entry of another key.
Finds-later :
    (column name k : String) (index : BTreeIndex) (rest : TableIndexes)
    → Map.lookup k rest ≡ none
    → Finds column name rest
    → Finds column name ((k, index) ∷ rest)
unfolding Map.lookup
Finds-later column name k index rest absent (found, there, is_for) = elim (dec_eq k name) [
  | yes same ↦ absurd (ground (arith, same, absent, there))
  | no other ↦ (found, ground (arith, other, there), is_for)
]

find_single_lem :
    (column : String) (of_table : TableIndexes) (name : String)
    → Distinct of_table
    → find_single column of_table ≡ some name
    → Finds column name of_table
unfolding Map.lookup
find_single_lem column [] name d e = absurd (ground (arith, e))
find_single_lem column ((k, index) ∷ rest) name d e =
    let later = λ (f : find_single column rest ≡ some name).
      Finds-later column name k index rest d.0 (find_single_lem column rest name d.1 f) in
    elim (List-cases index.columns) [
      | inl c ↦ later (ground (arith, e, c))
      | inr (own, more, c) ↦
          elim (Bool-cases (length more == 0 && eq_ignore_ascii_case own column)) [
            | inr f ↦ later (ground (arith, e, c, f))
            | inl f ↦
                let alone : more ≡ [] = none_more more (ground (arith, f)) in
                (
                  index,
                  ground (arith, e, c, f),
                  record {
                    own = own;
                    columns = c ∙ ap (λ m. own ∷ m) alone;
                    same = ground (arith, f);
                  },
                )
          ]
    ]

-- The index that the manager finds for a column is one of the table's.
pub find_index_for_column_lem :
    (table column name : String) (indexes : IndexManager)
    → ((of_table : TableIndexes) → Map.lookup table indexes ≡ some of_table → Distinct of_table)
    → find_index_for_column table column indexes ≡ some name
    → (index : BTreeIndex) × (get_index table name indexes ≡ some index) × IsFor column index
unfolding find_index_for_column get_index
find_index_for_column_lem table column name indexes distinct e =
    elim (Option-cases (Map.lookup table indexes)) [
      | inl f ↦ absurd (ground (arith, e, f))
      | inr (of_table, f) ↦
          let (index, there, is_for) =
            find_single_lem column of_table name (distinct of_table f) (ground (arith, e, f)) in
          (index, ground (arith, f, there), is_for)
    ]
