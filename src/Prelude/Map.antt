-- ===== src/Prelude/Map.antt =====
-- `HashMap` and `DashMap`: a list of entries, in an order on which no theorem depends.
use Prim.Native.Nat.{◌+◌}
use mathlib.Core.Path.{◌≡◌, refl, subst}
use mathlib.Core.Logic.{inl, inr, ◌≢◌, ite, if_pos, if_neg}
use mathlib.Core.Bool.{Bool, true, false}
use mathlib.Core.List.{List, [], ◌∷◌, map}
use mathlib.Core.Option.{Option, none, some}
use native.Mathlib.Omega.{arith}
use moodeng_sql.Prelude.Tests.{Key, dec_eq}
use moodeng_sql.Prelude.Lists.{length, All, In}

abbrev pub Map {ℓ} : Type ℓ → Type ℓ → Type ℓ
Map K V = List (K × V)

module _ {ℓ} {K V : Type ℓ} ⦃key : Key K⦄ where
  unfoldable pub lookup : K → Map K V → Option V
  lookup k [] = none
  lookup k ((j, v) ∷ m) = ite (dec_eq j k) (some v) (lookup k m)

  -- The entry of the key is replaced, or a new one is made.
  unfoldable pub insert : K → V → Map K V → Map K V
  insert k v [] = (k, v) ∷ []
  insert k v ((j, w) ∷ m) = ite (dec_eq j k) ((k, v) ∷ m) ((j, w) ∷ insert k v m)

  unfoldable pub remove : K → Map K V → Map K V
  remove k [] = []
  remove k ((j, w) ∷ m) = let rest = remove k m in ite (dec_eq j k) rest ((j, w) ∷ rest)

  abbrev pub contains_key : K → Map K V → Bool
  contains_key k m = elim (lookup k m) [ none ↦ false | some _ ↦ true ]

  -- `entry(k).or_insert(v)`, as the value that the entry then has.
  abbrev pub or_insert : K → V → Map K V → V
  or_insert k v m = elim (lookup k m) [ none ↦ v | some w ↦ w ]

  pub lookup-insert :
      (k j : K) (v : V) (m : Map K V)
      → lookup j (insert k v m) ≡ ite (dec_eq k j) (some v) (lookup j m)
  unfolding lookup insert
  lookup-insert k j v [] = refl
  lookup-insert k j v ((i, w) ∷ m) = ground (arith, lookup-insert k j v m)

  pub lookup-insert_self : (k : K) (v : V) (m : Map K V) → lookup k (insert k v m) ≡ some v
  lookup-insert_self k v m = rw lookup-insert (if_pos (dec_eq k k) refl _ _)

  pub lookup-insert_ne :
      (k j : K) (v : V) (m : Map K V) → k ≢ j → lookup j (insert k v m) ≡ lookup j m
  lookup-insert_ne k j v m h = rw lookup-insert (if_neg (dec_eq k j) h _ _)

  pub lookup-remove :
      (k j : K) (m : Map K V) → lookup j (remove k m) ≡ ite (dec_eq k j) none (lookup j m)
  unfolding lookup remove
  lookup-remove k j [] = ground arith
  lookup-remove k j ((i, w) ∷ m) = ground (arith, lookup-remove k j m)

  pub lookup-remove_self : (k : K) (m : Map K V) → lookup k (remove k m) ≡ none
  lookup-remove_self k m = rw lookup-remove (if_pos (dec_eq k k) refl _ _)

  pub insert-insert_self :
      (k : K) (v w : V) (m : Map K V) → insert k v (insert k w m) ≡ insert k v m
  unfolding insert
  insert-insert_self k v w [] = ground arith
  insert-insert_self k v w ((i, u) ∷ m) = ground (arith, insert-insert_self k v w m)

  -- Every key has one entry.
  abbrev pub Distinct : Map K V → Type ℓ
  Distinct [] = Unit
  Distinct ((k, v) ∷ m) = (lookup k m ≡ none) × Distinct m

  pub insert-Distinct : (k : K) (v : V) (m : Map K V) → Distinct m → Distinct (insert k v m)
  unfolding lookup insert
  insert-Distinct k v [] h = (refl, tt)
  insert-Distinct k v ((i, w) ∷ m) h =
      ground (arith, insert-Distinct k v m h.1, lookup-insert k i v m)

  pub remove-Distinct : (k : K) (m : Map K V) → Distinct m → Distinct (remove k m)
  unfolding lookup remove
  remove-Distinct k [] h = tt
  remove-Distinct k ((i, w) ∷ m) h = ground (arith, remove-Distinct k m h.1, lookup-remove k i m)

  pub remove_absent : (k : K) (m : Map K V) → lookup k m ≡ none → remove k m ≡ m
  unfolding lookup remove
  remove_absent k [] h = refl
  remove_absent k ((i, w) ∷ m) h = ground (arith, remove_absent k m)

  pub length-insert_new :
      (k : K) (v : V) (m : Map K V) → lookup k m ≡ none → length (insert k v m) ≡ length m + 1
  unfolding lookup insert
  length-insert_new k v [] h = omega arith
  length-insert_new k v ((i, w) ∷ m) h = ground (arith, length-insert_new k v m)

  -- All entries of a map, by what holds at each key.
  pub All-lookup {κ} :
      (P : K × V → Type κ) (k : K) (m : Map K V) {v : V} → All P m → lookup k m ≡ some v → P (k, v)
  unfolding lookup
  All-lookup P k [] h e = cc
  All-lookup P k ((j, w) ∷ m) {v} h e = elim (dec_eq j k) [
    | yes p ↦ let q : w ≡ v = ground arith in subst P (λ i. (p i, q i)) h.0
    | no p ↦ All-lookup P k m h.1 (ground arith)
  ]

  pub All-insert {κ} :
      (P : K × V → Type κ) (k : K) (v : V) (m : Map K V) → All P m → P (k, v) → All P (insert k v m)
  unfolding insert
  All-insert P k v [] h new = (new, tt)
  All-insert P k v ((j, w) ∷ m) h new = elim (dec_eq j k) [
    | yes p ↦ rw (if_pos _ p) (new, h.1)
    | no p ↦ rw (if_neg _ p) (h.0, All-insert P k v m h.1 new)
  ]

  pub All-remove {κ} : (P : K × V → Type κ) (k : K) (m : Map K V) → All P m → All P (remove k m)
  unfolding remove
  All-remove P k [] h = tt
  All-remove P k ((j, w) ∷ m) h = elim (dec_eq j k) [
    | yes p ↦ rw (if_pos _ p) (All-remove P k m h.1)
    | no p ↦ rw (if_neg _ p) (h.0, All-remove P k m h.1)
  ]

  -- A key that no entry has is absent.
  pub lookup-none : (k : K) (m : Map K V) → All (λ e. e.0 ≢ k) m → lookup k m ≡ none
  unfolding lookup
  lookup-none k [] h = refl
  lookup-none k ((j, w) ∷ m) h = rw (if_neg _ h.0) (lookup-none k m h.1)

  pub absent : (k : K) (m : Map K V) → lookup k m ≡ none → All (λ e. e.0 ≢ k) m
  unfolding lookup
  absent k [] h = tt
  absent k ((j, w) ∷ m) h = elim (dec_eq j k) [
    | yes p ↦ absurd (ground arith)
    | no p ↦ (p, absent k m (ground arith))
  ]

module _ {K V : Type 0} ⦃key : Key K⦄ where
  -- What is found stands in the list.
  pub In-lookup : (k : K) (m : Map K V) {v : V} → lookup k m ≡ some v → In k (map (λ e. e.0) m)
  unfolding lookup
  In-lookup k [] h = cc
  In-lookup k ((j, w) ∷ m) {v} h = elim (dec_eq j k) [
    | yes p ↦ inl p
    | no p ↦ inr (In-lookup k m {v = v} (ground arith))
  ]

module _ {ℓ} {K V : Type ℓ} ⦃key : Key K⦄ where
  pub insert_same : (k : K) (v : V) (m : Map K V) → lookup k m ≡ some v → insert k v m ≡ m
  unfolding lookup insert
  insert_same k v [] e = absurd (ground arith)
  insert_same k v ((i, w) ∷ m) e = ground (arith, insert_same k v m)

  pub length-insert_there :
      (k : K) (v : V) (m : Map K V) {w : V} → lookup k m ≡ some w → length (insert k v m) ≡ length m
  unfolding lookup insert
  length-insert_there k v [] e = absurd (ground arith)
  length-insert_there k v ((i, u) ∷ m) {w} e = ground (arith, length-insert_there k v m {w = w})
