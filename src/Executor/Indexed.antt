-- ===== src/Executor/Indexed.antt =====
-- A row that a statement of moodeng-core/src/executor.rs stores stands in every index of its table.
use mathlib.Core.Path.{subst}
use moodeng_sql.Prelude.{
  ℕ, String, ◌++◌, ◌≡◌, refl, sym, ap, ◌∙◌, inl, inr, none, some, List, [], ◌∷◌, map, arith,
  nat_key, string_key, dec_eq, ite, if_pos,
}
use moodeng_sql.Prelude.Map
use moodeng_sql.Prelude.Map.{Distinct, lookup-insert_self, lookup-insert}
use moodeng_sql.Prelude.Lists.{In, In-append, In-snoc}
use moodeng_sql.Error.{ok, Result-cases}
use moodeng_sql.Types.Value.{Value}
use moodeng_sql.Index.{
  BTreeIndex, TableIndexes, IndexKey, row_key, insert, insert_each, lookup, index_key, key_of,
  column_value,
}
use moodeng_sql.Index.Laws.{insert_lem}

module _ {J : Type 0} (json_to_string : J → String) where
  -- The columns of an index stay.
  columns-insert :
      (key : IndexKey) (id : ℕ) (index : BTreeIndex)
      → (insert key id index).1.columns ≡ index.columns
  unfolding insert
  columns-insert key id index = ground arith

  -- The ids of an index after an insert that was not refused.
  ids-insert :
      (key k : IndexKey) (id : ℕ) (index : BTreeIndex)
      → (insert key id index).0 ≡ ok tt
      → lookup k (insert key id index).1
        ≡ ite (dec_eq key k) (lookup key index ++ id ∷ []) (lookup k index)
  ids-insert key k id index e = elim (insert_lem key id index) [
    | inl (u, refused) ↦ absurd (ground (arith, e, refused))
    | inr (done, all) ↦ all k
  ]

  -- An insert of a row into all indexes, where none refuses it, is one into each.
  pub insert_each_lem :
      (values : List (Value J)) (names : List String) (id : ℕ) (of_table : TableIndexes)
      (name : String) (index' : BTreeIndex)
      → (insert_each json_to_string values names id of_table).0 ≡ ok tt
      → Map.lookup name (insert_each json_to_string values names id of_table).1 ≡ some index'
      → (index : BTreeIndex) × (Map.lookup name of_table ≡ some index)
        × ((insert (row_key json_to_string values names index) id index).0 ≡ ok tt)
        × ((insert (row_key json_to_string values names index) id index).1 ≡ index')
  unfolding insert_each Map.lookup
  insert_each_lem values names id [] name index' e f = absurd (ground (arith, f))
  insert_each_lem values names id ((k, index) ∷ rest) name index' e f =
      elim (Result-cases (insert (row_key json_to_string values names index) id index).0) [
        | inr (x, g) ↦ absurd (ground (arith, e, g))
        | inl (u, g) ↦ elim (dec_eq k name) [
          | yes same ↦ (index, ground (arith, same), g, ground (arith, f, g, same))
          | no other ↦
              let (found, there, done, is) =
                insert_each_lem values names id rest name index' (ground (arith, e, g))
                  (ground (arith, f, g, other)) in
              (found, ground (arith, there, other), done, is)
        ]
      ]

  insert_each-absent :
      (values : List (Value J)) (names : List String) (id : ℕ) (of_table : TableIndexes)
      (name : String)
      → (insert_each json_to_string values names id of_table).0 ≡ ok tt
      → Map.lookup name of_table ≡ none
      → Map.lookup name (insert_each json_to_string values names id of_table).1 ≡ none
  unfolding insert_each Map.lookup
  insert_each-absent values names id [] name e f = ground (arith, f)
  insert_each-absent values names id ((k, index) ∷ rest) name e f =
      elim (Result-cases (insert (row_key json_to_string values names index) id index).0) [
        | inr (x, g) ↦ absurd (ground (arith, e, g))
        | inl (u, g) ↦ elim (dec_eq k name) [
          | yes same ↦ absurd (ground (arith, f, same))
          | no other ↦
              let later =
                insert_each-absent values names id rest name (ground (arith, e, g))
                  (ground (arith, f, other)) in
              ground (arith, g, other, later)
        ]
      ]

  pub insert_each-Distinct :
      (values : List (Value J)) (names : List String) (id : ℕ) (of_table : TableIndexes)
      → (insert_each json_to_string values names id of_table).0 ≡ ok tt
      → Distinct of_table
      → Distinct (insert_each json_to_string values names id of_table).1
  unfolding insert_each
  insert_each-Distinct values names id [] e d = d
  insert_each-Distinct values names id ((k, index) ∷ rest) e (absent, d) =
      elim (Result-cases (insert (row_key json_to_string values names index) id index).0) [
        | inr (x, g) ↦ absurd (ground (arith, e, g))
        | inl (u, g) ↦
            let done : (insert_each json_to_string values names id rest).0 ≡ ok tt =
              ground (arith, e, g) in
            let whole : (insert_each json_to_string values names id ((k, index) ∷ rest)).1
                ≡ (k, (insert (row_key json_to_string values names index) id index).1)
                  ∷ (insert_each json_to_string values names id rest).1 =
              ground (arith, g) in
            subst Distinct (sym whole) (
              insert_each-absent values names id rest k done absent,
              insert_each-Distinct values names id rest done d,
            )
      ]

  -- An index that got a row holds it, and every row that it held.
  pub held_after :
      (values : List (Value J)) (names : List String) (id : ℕ) (index index' : BTreeIndex)
      → (insert (row_key json_to_string values names index) id index).0 ≡ ok tt
      → (insert (row_key json_to_string values names index) id index).1 ≡ index'
      → In id (lookup (row_key json_to_string values names index') index')
        × ((j : ℕ) (old : List (Value J))
            → In j (lookup (row_key json_to_string old names index) index)
            → In j (lookup (row_key json_to_string old names index') index'))
  held_after values names id index index' done is =
      let key : IndexKey = row_key json_to_string values names index in
      let columns : index'.columns ≡ index.columns =
        ap (λ i. i.columns) (sym is) ∙ columns-insert key id index in
      let key_after = λ (old : List (Value J)).
        ap (λ cols. key_of json_to_string (map (column_value json_to_string old names) cols))
          columns in
      let ids = λ (k : IndexKey). ap (lookup k) (sym is) ∙ ids-insert key k id index done in
      (
        subst (λ l. In id l)
            (sym (
              ap (λ k. lookup k index') (key_after values)
              ∙ (ids key ∙ if_pos (dec_eq key key) refl _ _)))
            (In-snoc id (lookup key index)),
        λ j old h.
            let k : IndexKey = row_key json_to_string old names index in
            subst (λ l. In j l) (sym (ap (λ x. lookup x index') (key_after old) ∙ ids k))
              (elim (dec_eq key k)
                as (λ d. In j (ite d (lookup key index ++ id ∷ []) (lookup k index))) [
                  | yes same ↦
                      In-append j (lookup key index) (id ∷ [])
                        (subst (λ x. In j (lookup x index)) (sym same) h)
                  | no other ↦ h
                ]),
      )
