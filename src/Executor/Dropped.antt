-- ===== src/Executor/Dropped.antt =====
-- The indexes of a table after a row was taken from them by moodeng-core/src/executor.rs.
use mathlib.Core.Path.{subst}
use moodeng_sql.Prelude.{
  ℕ, String, not, ◌==◌, ◌≡◌, ◌≢◌, refl, sym, ap, ◌∙◌, inl, inr, none, some, List, [], ◌∷◌, map,
  arith, nat_key, string_key, dec_eq, ite, Bool-cases,
}
use moodeng_sql.Prelude.Map
use moodeng_sql.Prelude.Map.{Distinct, lookup-insert, lookup-insert_self}
use moodeng_sql.Prelude.Lists.{In, filter_by}
use moodeng_sql.Types.Value.{Value}
use moodeng_sql.Index.{
  BTreeIndex, TableIndexes, IndexKey, row_key, key_of, column_value, remove, remove_each, lookup,
  index_key,
}
use moodeng_sql.Index.Laws.{lookup-remove_row}

In-filter_by :
    (id j : ℕ) (ids : List ℕ) → id ≢ j → In j ids → In j (filter_by (λ i. not (i == id)) ids)
In-filter_by id j [] ne h = elim h [ ]
In-filter_by id j (i ∷ ids) ne (inl same) =
    let whole : filter_by (λ i. not (i == id)) (i ∷ ids) ≡ i ∷ filter_by (λ i. not (i == id)) ids =
      ground (arith, ne, same) in
    subst (λ l. In j l) (sym whole) (inl same)
In-filter_by id j (i ∷ ids) ne (inr later) =
    let rest = In-filter_by id j ids ne later in
    elim (Bool-cases (not (i == id))) [
      | inl e ↦
          let whole : filter_by (λ i. not (i == id)) (i ∷ ids)
              ≡ i ∷ filter_by (λ i. not (i == id)) ids =
            ground (arith, e) in
          subst (λ l. In j l) (sym whole) (inr rest)
      | inr e ↦
          let whole : filter_by (λ i. not (i == id)) (i ∷ ids)
              ≡ filter_by (λ i. not (i == id)) ids =
            ground (arith, e) in
          subst (λ l. In j l) (sym whole) rest
    ]

module _ {J : Type 0} (json_to_string : J → String) where
  columns-remove :
      (key : IndexKey) (id : ℕ) (index : BTreeIndex) → (remove key id index).columns ≡ index.columns
  unfolding remove
  columns-remove key id index = ground arith

  -- An index that a row was taken from holds the others that it held.
  pub left_after :
      (values : List (Value J)) (names : List String) (id : ℕ) (index index' : BTreeIndex)
      → remove (row_key json_to_string values names index) id index ≡ index'
      → (j : ℕ) (old : List (Value J)) → id ≢ j
      → In j (lookup (row_key json_to_string old names index) index)
      → In j (lookup (row_key json_to_string old names index') index')
  left_after values names id index index' is j old ne h =
      let key : IndexKey = row_key json_to_string values names index in
      let k : IndexKey = row_key json_to_string old names index in
      let key_after : row_key json_to_string old names index' ≡ k =
        ap (λ cols. key_of json_to_string (map (column_value json_to_string old names) cols))
          (ap (λ i. i.columns) (sym is) ∙ columns-remove key id index) in
      subst (λ l. In j l)
        (sym (
          ap (λ x. lookup x index') key_after
          ∙ (ap (lookup k) (sym is) ∙ lookup-remove_row key k id index)))
        (elim (dec_eq key k)
          as (λ d.
            In j (ite d (filter_by (λ i. not (i == id)) (lookup key index)) (lookup k index))) [
              | yes same ↦
                  In-filter_by id j (lookup key index) ne
                    (subst (λ x. In j (lookup x index)) (sym same) h)
              | no other ↦ h
            ])

  pub remove_each_lem :
      (values : List (Value J)) (names : List String) (id : ℕ) (of_table : TableIndexes)
      (name : String) (index' : BTreeIndex)
      → Map.lookup name (remove_each json_to_string values names id of_table) ≡ some index'
      → (index : BTreeIndex) × (Map.lookup name of_table ≡ some index)
        × (remove (row_key json_to_string values names index) id index ≡ index')
  unfolding remove_each Map.lookup
  remove_each_lem values names id [] name index' f = absurd (ground (arith, f))
  remove_each_lem values names id ((k, index) ∷ rest) name index' f = elim (dec_eq k name) [
    | yes same ↦ (index, ground (arith, same), ground (arith, f, same))
    | no other ↦
        let (found, there, is) =
          remove_each_lem values names id rest name index' (ground (arith, f, other)) in
        (found, ground (arith, there, other), is)
  ]

  remove_each-absent :
      (values : List (Value J)) (names : List String) (id : ℕ) (of_table : TableIndexes)
      (name : String)
      → Map.lookup name of_table ≡ none
      → Map.lookup name (remove_each json_to_string values names id of_table) ≡ none
  unfolding remove_each Map.lookup
  remove_each-absent values names id [] name f = refl
  remove_each-absent values names id ((k, index) ∷ rest) name f = elim (dec_eq k name) [
    | yes same ↦ absurd (ground (arith, f, same))
    | no other ↦
        let later = remove_each-absent values names id rest name (ground (arith, f, other)) in
        ground (arith, other, later)
  ]

  pub remove_each-Distinct :
      (values : List (Value J)) (names : List String) (id : ℕ) (of_table : TableIndexes)
      → Distinct of_table
      → Distinct (remove_each json_to_string values names id of_table)
  unfolding remove_each
  remove_each-Distinct values names id [] d = d
  remove_each-Distinct values names id ((k, index) ∷ rest) (absent, d) = (
    remove_each-absent values names id rest k absent,
    remove_each-Distinct values names id rest d,
  )
