-- ===== src/Storage/Table.antt =====
-- `TableData` and the in-memory branch of `TableBackend` of moodeng-core/src/storage.rs.
pub mod Laws
use moodeng_sql.Prelude.{
  ℕ, Bool, true, false, Option, none, some, List, [], leb, if◌then◌else◌, suc_u64, nat_key,
}
use moodeng_sql.Prelude.Lists.{length}
use moodeng_sql.Prelude.Map
use moodeng_sql.Prelude.Map.{Map}
use moodeng_sql.Prelude.Sort.{sort_by_key}
use moodeng_sql.Types.{Row}

pub record TableData (V : Type 0) : Type 0 where
  pub rows : Map ℕ (Row V)
  pub next_id : ℕ

module _ {V : Type 0} where
  -- `TableData::default`
  abbrev pub empty : TableData V
  empty = record { rows = []; next_id = 1 }

  -- The new row gets the next number.
  unfoldable pub insert : Row V → TableData V → ℕ × TableData V
  insert row t =
      (t.next_id, record { rows = Map.insert t.next_id row t.rows; next_id = suc_u64 t.next_id })

  -- A row comes back under a known number, which later numbers pass over.
  unfoldable pub apply_insert : ℕ → Row V → TableData V → TableData V
  apply_insert row_id row t = record {
    rows = Map.insert row_id row t.rows;
    next_id = if leb t.next_id row_id then suc_u64 row_id else t.next_id;
  }

  unfoldable pub get : ℕ → TableData V → Option (Row V)
  get id t = Map.lookup id t.rows

  unfoldable pub scan : TableData V → List (ℕ × Row V)
  scan t = sort_by_key (λ e. e.0) t.rows

  -- `rows.insert(id, row).is_some()`: whether the row was there before.
  unfoldable pub update : ℕ → Row V → TableData V → Bool × TableData V
  update id row t = (Map.contains_key id t.rows, record t { rows = Map.insert id row t.rows })

  unfoldable pub delete : ℕ → TableData V → Bool × TableData V
  delete id t = (Map.contains_key id t.rows, record t { rows = Map.remove id t.rows })

  unfoldable pub row_count : TableData V → ℕ
  row_count t = length t.rows
