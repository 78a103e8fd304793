-- ===== src/Types/Value.antt =====
-- moodeng-core/src/types.rs: data types, values and their coercion. An `i32` or `i64` is the
-- number of its bits in two's complement, a float the number of its bits.
use mathlib.Core.Path.{subst}
use moodeng_sql.Prelude.{
  ℕ, String, Bool, true, false, ◌||◌, ◌+◌, ◌-◌, ◌%◌, ◌^◌, ◌<◌, ◌≡◌, ◌⊎◌, inl, inr, refl, ap, sym,
  ◌∙◌, Option, none, some, List, [], ltb, if◌then◌else◌, arith, str_eq, Bool-cases,
}
use moodeng_sql.Prelude.Lists.{length}
use moodeng_sql.Error.{Result, ok, err, type_mismatch}
use moodeng_sql.Types.{Row}

pub data DataType : Type 0 where
  int4 int8 float4 float8 text : DataType
  varchar : (length : ℕ) → DataType
  bool timestamp json : DataType

abbrev pub name : DataType → String
name DataType.int4 = "INT4"
name DataType.int8 = "INT8"
name DataType.float4 = "FLOAT4"
name DataType.float8 = "FLOAT8"
name DataType.text = "TEXT"
name (DataType.varchar _) = "VARCHAR"
name DataType.bool = "BOOL"
name DataType.timestamp = "TIMESTAMP"
name DataType.json = "JSON"

-- `J` is `serde_json::Value`.
pub data Value (J : Type 0) : Type 0 where
  null : Value J
  int4 : ℕ → Value J
  int8 : ℕ → Value J
  float4 : ℕ → Value J
  float8 : ℕ → Value J
  text : String → Value J
  bool : Bool → Value J
  timestamp : ℕ → Value J
  json : J → Value J

-- `i32 as i64`
abbrev pub sign_extend : ℕ → ℕ
sign_extend n = if ltb n (2 ^ 31) then n else n + (2 ^ 64 - 2 ^ 32)

-- The casts to `f64` of the processor, on bits.
pub record Casts : Type 0 where
  pub i32_to_f64 : ℕ → ℕ
  pub i64_to_f64 : ℕ → ℕ
  pub f32_to_f64 : ℕ → ℕ

pub record ColumnDef : Type 0 where
  pub name : String
  pub data_type : DataType
  pub nullable : Bool
  pub primary_key : Bool

abbrev pub is_varchar : DataType → Bool
is_varchar (DataType.varchar _) = true
is_varchar DataType.int4 = false
is_varchar DataType.int8 = false
is_varchar DataType.float4 = false
is_varchar DataType.float8 = false
is_varchar DataType.text = false
is_varchar DataType.bool = false
is_varchar DataType.timestamp = false
is_varchar DataType.json = false

module _ {J : Type 0} where
  abbrev pub type_name : Value J → String
  type_name Value.null = "NULL"
  type_name (Value.int4 _) = "INT4"
  type_name (Value.int8 _) = "INT8"
  type_name (Value.float4 _) = "FLOAT4"
  type_name (Value.float8 _) = "FLOAT8"
  type_name (Value.text _) = "TEXT"
  type_name (Value.bool _) = "BOOL"
  type_name (Value.timestamp _) = "TIMESTAMP"
  type_name (Value.json _) = "JSON"

  -- The last two arms of the match. A VARCHAR is never refused, so the error has the plain name.
  abbrev pub coerce_same : Value J → DataType → Result (Value J)
  coerce_same a b =
      if str_eq (type_name a) (name b) || is_varchar b
      then ok a
      else err (type_mismatch (name b) (type_name a))

  module _ (casts : Casts) where
    unfoldable pub coerce_to : Value J → DataType → Result (Value J)
    coerce_to Value.null target = ok Value.null
    coerce_to (Value.int4 v) DataType.int8 = ok (Value.int8 (sign_extend v))
    coerce_to (Value.int4 v) DataType.float8 = ok (Value.float8 (casts.i32_to_f64 v))
    coerce_to (Value.int8 v) DataType.int4 = ok (Value.int4 (v % 2 ^ 32))
    coerce_to (Value.int8 v) DataType.float8 = ok (Value.float8 (casts.i64_to_f64 v))
    coerce_to (Value.float4 v) DataType.float8 = ok (Value.float8 (casts.f32_to_f64 v))
    coerce_to a b = coerce_same a b

    -- Whether a value is what a column of this type holds.
    abbrev pub IsHeld : Value J → DataType → Type 0
    IsHeld w t = (w ≡ Value.null) ⊎ ((str_eq (type_name w) (name t) || is_varchar t) ≡ true)

    IsHeld-coerce_same : (v w : Value J) (t : DataType) → coerce_same v t ≡ ok w → IsHeld w t
    IsHeld-coerce_same v w t e = elim (Bool-cases (str_eq (type_name v) (name t) || is_varchar t)) [
      | inl h ↦ inr (ground (arith, e, h))
      | inr h ↦ absurd (ground (arith, e, h))
    ]

    held :
        (v w : Value J) (t : DataType)
        → Path (Result (Value J)) (ok v) (ok w)
        → IsHeld v t
        → IsHeld w t
    held v w t e h = let same : v ≡ w = ground (arith, e) in subst (λ u. IsHeld u t) same h

    -- What a column takes is NULL or has the column's type, unless the column is a VARCHAR.
    pub coerce_to-IsHeld : (v w : Value J) (t : DataType) → coerce_to v t ≡ ok w → IsHeld w t
    unfolding coerce_to
    coerce_to-IsHeld Value.null w t e = inl (ground (arith, e))
    coerce_to-IsHeld (Value.int4 v) w DataType.int8 e =
        held (Value.int8 (sign_extend v)) w DataType.int8 e (inr refl)
    coerce_to-IsHeld (Value.int4 v) w DataType.float8 e =
        held (Value.float8 (casts.i32_to_f64 v)) w DataType.float8 e (inr refl)
    coerce_to-IsHeld (Value.int8 v) w DataType.int4 e =
        held (Value.int4 (v % 2 ^ 32)) w DataType.int4 e (inr refl)
    coerce_to-IsHeld (Value.int8 v) w DataType.float8 e =
        held (Value.float8 (casts.i64_to_f64 v)) w DataType.float8 e (inr refl)
    coerce_to-IsHeld (Value.float4 v) w DataType.float8 e =
        held (Value.float8 (casts.f32_to_f64 v)) w DataType.float8 e (inr refl)
    coerce_to-IsHeld v w t e = IsHeld-coerce_same v w t e

    again :
        (v w : Value J) (t : DataType)
        → Path (Result (Value J)) (ok v) (ok w)
        → coerce_to v t ≡ ok v
        → coerce_to w t ≡ ok w
    again v w t e h =
        let same : v ≡ w = ground (arith, e) in subst (λ u. coerce_to u t ≡ ok u) same h

    unchanged : (v w : Value J) (t : DataType) → coerce_same v t ≡ ok w → v ≡ w
    unchanged v w t e = elim (Bool-cases (str_eq (type_name v) (name t) || is_varchar t)) [
      | inl h ↦ ground (arith, e, h)
      | inr h ↦ absurd (ground (arith, e, h))
    ]

    -- A value that came out of a coercion is coerced to the same type again unchanged.
    coerce_to-coerce_to :
        (v w : Value J) (t : DataType) → coerce_to v t ≡ ok w → coerce_to w t ≡ ok w
    unfolding coerce_to
    coerce_to-coerce_to Value.null w t e = again Value.null w t e refl
    coerce_to-coerce_to (Value.int4 v) w DataType.int8 e =
        again (Value.int8 (sign_extend v)) w DataType.int8 e refl
    coerce_to-coerce_to (Value.int4 v) w DataType.float8 e =
        again (Value.float8 (casts.i32_to_f64 v)) w DataType.float8 e refl
    coerce_to-coerce_to (Value.int8 v) w DataType.int4 e =
        again (Value.int4 (v % 2 ^ 32)) w DataType.int4 e refl
    coerce_to-coerce_to (Value.int8 v) w DataType.float8 e =
        again (Value.float8 (casts.i64_to_f64 v)) w DataType.float8 e refl
    coerce_to-coerce_to (Value.float4 v) w DataType.float8 e =
        again (Value.float8 (casts.f32_to_f64 v)) w DataType.float8 e refl
    coerce_to-coerce_to v w t e =
        let same : v ≡ w = unchanged v w t e in again v w t (ap ok same) (e ∙ ap ok (sym same))

    -- An INT4 that went through an INT8 column comes back as it was, negative ones too.
    coerce_to-int8_int4 :
        (n : ℕ) (w : Value J)
        → n < 2 ^ 32
        → coerce_to (Value.int4 n) DataType.int8 ≡ ok w
        → coerce_to w DataType.int4 ≡ ok (Value.int4 n)
    unfolding coerce_to
    coerce_to-int8_int4 n w lt e = ground (arith, e)

pub record QueryResult (V : Type 0) : Type 0 where
  pub columns : List String
  pub rows : List (Row V)
  pub rows_affected : ℕ
  pub message : Option String
  pub meta_changed : Bool

module _ {V : Type 0} where
  abbrev pub empty : String → QueryResult V
  empty message = record {
    columns = [];
    rows = [];
    rows_affected = 0;
    message = some message;
    meta_changed = false;
  }

  abbrev pub select : List String → List (Row V) → QueryResult V
  select columns rows = record {
    columns = columns;
    rows = rows;
    rows_affected = length rows % 2 ^ 64;
    message = none;
    meta_changed = false;
  }

  abbrev pub modified : ℕ → String → QueryResult V
  modified rows_affected message = record {
    columns = [];
    rows = [];
    rows_affected = rows_affected;
    message = some message;
    meta_changed = false;
  }

  abbrev pub ddl : String → QueryResult V
  ddl message = record {
    columns = [];
    rows = [];
    rows_affected = 0;
    message = some message;
    meta_changed = true;
  }
