-- ===== src/Index/Laws.antt =====
-- What the operations of an index of moodeng-core/src/index.rs do to its lookups.
use moodeng_sql.Prelude.{
  ℕ, true, not, ◌==◌, List, [], ◌∷◌, ◌++◌, ◌≡◌, refl, ◌⊎◌, inl, inr, arith, Option-cases,
  Bool-cases, dec_eq, ite,
}
use moodeng_sql.Prelude.Map
use moodeng_sql.Prelude.Map.{
  Map, lookup-insert, lookup-remove, lookup-insert_self, All-insert, All-remove, All-lookup,
}
use moodeng_sql.Prelude.Lists.{length, filter_by, All}
use moodeng_sql.Error.{ok, err, duplicate_key}
use moodeng_sql.Index.{
  IndexKey, index_key, BTreeIndex, insert, remove, lookup, store_or_remove, violation,
}

-- Inserting into an index: a unique one refuses a key that it has, and does not change; in all
-- other cases the row is the last of its key's rows, and other keys keep theirs.
pub insert_lem :
    (key : IndexKey) (row_id : ℕ) (index : BTreeIndex)
    → ((index.unique ≡ true)
        × (insert key row_id index ≡ (err (duplicate_key (violation index.name)), index)))
      ⊎ (((insert key row_id index).0 ≡ ok tt)
          × ((k : IndexKey)
              → lookup k (insert key row_id index).1
                ≡ ite (dec_eq key k) (lookup key index ++ row_id ∷ []) (lookup k index)))
unfolding insert lookup
insert_lem key row_id index = elim (Bool-cases index.unique) [
  | inl u ↦ elim (Option-cases (Map.lookup key index.tree)) [
    | inl p ↦ inr (
      ground (arith, u, p),
      λ k. ground (arith, u, p, lookup-insert key k (row_id ∷ []) index.tree),
    )
    | inr (ids, p) ↦ inl (u, ground (arith, u, p))
  ]
  | inr u ↦ inr (
    ground (arith, u),
    λ k.
        ground (
          arith,
          u,
          lookup-insert key k (Map.or_insert key [] index.tree ++ row_id ∷ []) index.tree,
        ),
  )
]

lookup-store_or_remove :
    (key k : IndexKey) (ids : List ℕ) (tree : Map IndexKey (List ℕ))
    → Map.or_insert k [] (store_or_remove key ids tree)
      ≡ ite (dec_eq key k) ids (Map.or_insert k [] tree)
lookup-store_or_remove key k [] tree = ground (arith, lookup-remove key k tree)
lookup-store_or_remove key k (id ∷ ids) tree = ground (arith, lookup-insert key k (id ∷ ids) tree)

-- Removing a row from a key takes it out of that key's rows, and out of no other's.
pub lookup-remove_row :
    (key k : IndexKey) (row_id : ℕ) (index : BTreeIndex)
    → lookup k (remove key row_id index)
      ≡ ite
          (dec_eq key k)
          (filter_by (λ id. not (id == row_id)) (lookup key index))
          (lookup k index)
unfolding remove lookup
lookup-remove_row key k row_id index = elim (Option-cases (Map.lookup key index.tree)) [
  | inl p ↦ ground (arith, p)
  | inr (ids, p) ↦
      ground (
        arith,
        p,
        lookup-store_or_remove key k (filter_by (λ id. not (id == row_id)) ids) index.tree,
      )
]

-- In a unique index every key has one row.
abbrev pub IsUnique : BTreeIndex → Type 0
IsUnique index = All (λ entry. length entry.1 ≡ 1) index.tree

keeps_insert :
    (key : IndexKey) (row_id : ℕ) (index : BTreeIndex)
    → index.unique ≡ true
    → IsUnique index
    → IsUnique (insert key row_id index).1
unfolding insert
keeps_insert key row_id index u h = elim (Bool-cases (Map.contains_key key index.tree)) [
  | inl p ↦ rw (u, p) h
  | inr p ↦ rw (u, p) (All-insert (λ entry. length entry.1 ≡ 1) key (row_id ∷ []) index.tree h refl)
]

-- An insert into a unique index keeps one row for each key. A key without a row gets this one, and
-- other keys keep theirs; a key that has a row is an error, and nothing changes.
pub insert-IsUnique :
    (key : IndexKey) (row_id : ℕ) (index : BTreeIndex)
    → index.unique ≡ true
    → IsUnique index
    → IsUnique (insert key row_id index).1
      × ((lookup key index ≡ [])
            × ((insert key row_id index).0 ≡ ok tt)
            × ((k : IndexKey)
                → lookup k (insert key row_id index).1
                  ≡ ite (dec_eq key k) (row_id ∷ []) (lookup k index))
          ⊎ (length (lookup key index) ≡ 1)
            × (insert key row_id index ≡ (err (duplicate_key (violation index.name)), index)))
unfolding insert lookup
insert-IsUnique key row_id index u h = elim (Option-cases (Map.lookup key index.tree)) [
  | inl p ↦ (
    keeps_insert key row_id index u h,
    inl (
      ground (arith, p),
      ground (arith, u, p),
      λ k. ground (arith, u, p, lookup-insert key k (row_id ∷ []) index.tree),
    ),
  )
  | inr (ids, p) ↦
      let single = All-lookup (λ entry. length entry.1 ≡ 1) key index.tree h p in
      (keeps_insert key row_id index u h, inr (ground (arith, p, single), ground (arith, u, p)))
]
