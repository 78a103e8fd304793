-- ===== src/Storage/Table/Laws.antt =====
-- What the operations on a table of moodeng-core/src/storage.rs promise.
use moodeng_sql.Prelude.{
  ℕ, ◌+◌, ◌^◌, ◌≤◌, ◌<◌, ◌≡◌, ◌≢◌, refl, ◌∙◌, none, some, [], ◌∷◌, arith, leb, if◌then◌else◌, ite,
  suc_u64, nat_key, dec_eq,
}
use moodeng_sql.Prelude.Lists.{All, All-weaken}
use moodeng_sql.Prelude.Map
use moodeng_sql.Prelude.Map.{
  Map, lookup-insert, lookup-remove, Distinct, insert-Distinct, remove-Distinct, All-insert,
  All-remove, lookup-none, All-lookup, absent,
}
use moodeng_sql.Prelude.Sort.{
  insert_by, sort_by_key, IsAscending, insert_by-IsAscending, All-sort_by_key,
}
use moodeng_sql.Types.{Row}
use moodeng_sql.Storage.Table.{TableData, empty, insert, apply_insert, get, scan, update, delete}

module _ {V : Type 0} where
  abbrev pub id_of : ℕ × Row V → ℕ
  id_of e = e.0

  -- Every row has one entry, under a number that was given out.
  pub record IsValid (t : TableData V) : Type 0 where
    pub distinct : Distinct t.rows
    pub given_out : All (λ e. e.0 < t.next_id) t.rows

  pub empty-IsValid : IsValid empty
  empty-IsValid = record { distinct = tt; given_out = tt }

  -- The number of a new row was not in use.
  pub get-next_id : (t : TableData V) → IsValid t → get t.next_id t ≡ none
  unfolding get
  get-next_id t v = lookup-none t.next_id t.rows (
      All-weaken (λ e. e.0 < t.next_id) (λ e. e.0 ≢ t.next_id) t.rows (λ e lt eq. omega arith)
        v.given_out)

  pub get-insert :
      (row : Row V) (t : TableData V) (id : ℕ)
      → get id (insert row t).1 ≡ ite (dec_eq t.next_id id) (some row) (get id t)
  unfolding get insert
  get-insert row t id = lookup-insert t.next_id id row t.rows

  pub get-apply_insert :
      (row_id : ℕ) (row : Row V) (t : TableData V) (id : ℕ)
      → get id (apply_insert row_id row t) ≡ ite (dec_eq row_id id) (some row) (get id t)
  unfolding get apply_insert
  get-apply_insert row_id row t id = lookup-insert row_id id row t.rows

  pub get-update :
      (k : ℕ) (row : Row V) (t : TableData V) (id : ℕ)
      → get id (update k row t).1 ≡ ite (dec_eq k id) (some row) (get id t)
  unfolding get update
  get-update k row t id = lookup-insert k id row t.rows

  pub get-delete :
      (k : ℕ) (t : TableData V) (id : ℕ) → get id (delete k t).1 ≡ ite (dec_eq k id) none (get id t)
  unfolding get delete
  get-delete k t id = lookup-remove k id t.rows

  pub insert-IsValid :
      (row : Row V) (t : TableData V)
      → t.next_id + 1 < 2 ^ 64
      → IsValid t
      → IsValid (insert row t).1
  unfolding insert
  insert-IsValid row t room v = record {
    distinct = insert-Distinct t.next_id row t.rows v.distinct;
    given_out =
        All-insert (λ e. e.0 < suc_u64 t.next_id) t.next_id row t.rows
          (All-weaken (λ e. e.0 < t.next_id) (λ e. e.0 < suc_u64 t.next_id) t.rows
            (λ e lt. omega arith) v.given_out)
          (omega arith);
  }

  pub apply_insert-IsValid :
      (row_id : ℕ) (row : Row V) (t : TableData V)
      → row_id + 1 < 2 ^ 64
      → IsValid t
      → IsValid (apply_insert row_id row t)
  unfolding apply_insert
  apply_insert-IsValid row_id row t room v =
      let next : ℕ = if leb t.next_id row_id then suc_u64 row_id else t.next_id in
      let above : t.next_id ≤ next = ground arith in
      record {
        distinct = insert-Distinct row_id row t.rows v.distinct;
        given_out =
            All-insert (λ e. e.0 < next) row_id row t.rows
              (All-weaken (λ e. e.0 < t.next_id) (λ e. e.0 < next) t.rows (λ e lt. omega arith)
                v.given_out)
              (ground arith);
      }

  pub update-IsValid :
      (id : ℕ) (row : Row V) (t : TableData V) {old : Row V}
      → get id t ≡ some old
      → IsValid t
      → IsValid (update id row t).1
  unfolding update get
  update-IsValid id row t found v = record {
    distinct = insert-Distinct id row t.rows v.distinct;
    given_out =
        All-insert (λ e. e.0 < t.next_id) id row t.rows v.given_out
          (All-lookup (λ e. e.0 < t.next_id) id t.rows v.given_out found);
  }

  pub delete-IsValid : (id : ℕ) (t : TableData V) → IsValid t → IsValid (delete id t).1
  unfolding delete
  delete-IsValid id t v = record {
    distinct = remove-Distinct id t.rows v.distinct;
    given_out = All-remove (λ e. e.0 < t.next_id) id t.rows v.given_out;
  }

  lookup-insert_by :
      (k : ℕ) (row : Row V) (m : Map ℕ (Row V)) (id : ℕ)
      → Map.lookup id (insert_by id_of (k, row) m) ≡ ite (dec_eq k id) (some row) (Map.lookup id m)
  unfolding Map.lookup insert_by
  lookup-insert_by k row [] id = refl
  lookup-insert_by k row ((j, w) ∷ m) id = ground (arith, lookup-insert_by k row m id)

  lookup-sort_by_key :
      (m : Map ℕ (Row V)) (id : ℕ) → Map.lookup id (sort_by_key id_of m) ≡ Map.lookup id m
  unfolding Map.lookup sort_by_key
  lookup-sort_by_key [] id = refl
  lookup-sort_by_key ((j, w) ∷ m) id =
      lookup-insert_by j w (sort_by_key id_of m) id ∙ rw (lookup-sort_by_key m id) refl

  IsAscending-sort_by_key :
      (m : Map ℕ (Row V)) → Distinct m → IsAscending id_of (sort_by_key id_of m)
  unfolding sort_by_key
  IsAscending-sort_by_key [] d = tt
  IsAscending-sort_by_key ((k, row) ∷ m) d =
      insert_by-IsAscending id_of (k, row) (sort_by_key id_of m)
        (All-sort_by_key id_of (λ e. e.0 ≢ k) m (absent k m d.0)) (IsAscending-sort_by_key m d.1)

  -- A scan lists the rows by growing number, each with what `get` returns for it, and no other.
  pub scan_lem :
      (t : TableData V)
      → IsValid t
      → IsAscending id_of (scan t) × ((id : ℕ) → Map.lookup id (scan t) ≡ get id t)
  unfolding scan get
  scan_lem t v = (IsAscending-sort_by_key t.rows v.distinct, lookup-sort_by_key t.rows)
