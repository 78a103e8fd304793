-- ===== src/Types.antt =====
-- moodeng-core/src/types.rs: rows, whose values are of any type `V`, and in Value the values.
pub mod Value
use moodeng_sql.Prelude.{ℕ, List}

-- `Row::new` gives version 1; each successful UPDATE adds one.
pub record Row (V : Type 0) : Type 0 where
  pub values : List V
  pub version : ℕ

abbrev pub new : {V : Type 0} → List V → Row V
new values = record { values = values; version = 1 }
