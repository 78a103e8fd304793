-- ===== src/Error.antt =====
-- moodeng-core/src/error.rs: the errors of the engine, and the results of fallible code.
use moodeng_sql.Prelude.{◌≡◌, refl, ◌⊎◌, inl, inr, ℕ, String, Option, none, some, List, [], ◌∷◌}

-- `io` and `other` wrap errors of the standard library and of `anyhow`, which no code looks into.
pub data MoodengError : Type 0 where
  parse : String → MoodengError
  execution : String → MoodengError
  table_not_found : String → MoodengError
  column_not_found : String → MoodengError
  type_mismatch : (expected actual : String) → MoodengError
  duplicate_key : String → MoodengError
  version_conflict : (table : String) (row_id : ℕ) → MoodengError
  index_exists : String → MoodengError
  storage : String → MoodengError
  io : MoodengError
  other : MoodengError

pub data Result {ℓ} (A : Type ℓ) : Type ℓ where
  ok : A → Result A
  err : MoodengError → Result A

infixl 5 ◌>>=◌
abbrev pub ◌>>=◌ {ℓ κ} : {A : Type ℓ} {B : Type κ} → Result A → (A → Result B) → Result B
ok a >>= f = f a
err e >>= f = err e

-- `ok_or_else`
abbrev pub ok_or {ℓ} : {A : Type ℓ} → Option A → MoodengError → Result A
ok_or none e = err e
ok_or (some a) e = ok a

-- `iter().map(f).collect::<Result<_>>()`: the first error ends the loop.
pub collect {ℓ κ} : {A : Type ℓ} {B : Type κ} → (A → Result B) → List A → Result (List B)
collect f [] = ok []
collect f (x ∷ xs) = do y ← f x; ys ← collect f xs; ok (y ∷ ys)

pub Result-cases {ℓ} :
    {A : Type ℓ} (r : Result A) → ((a : A) × (r ≡ ok a)) ⊎ ((e : MoodengError) × (r ≡ err e))
Result-cases (ok a) = inl (a, refl)
Result-cases (err e) = inr (e, refl)
